-- ===== src/MessageList/Letters.antt =====
-- The letters of the avatars (src/layout/rooms/views/message_list.rs).
use Prim.Native.Char.{code}
use Prim.Native.String.{String, [], ◌∷◌}
use dtchat.Prelude.{◌≡◌, refl, ℕ_eq}
use dtchat.MessageList.{lower, eq_lower, initial, avatar_letter}

-- The names differ at most in the case of their ASCII letters.
abbrev pub SameLetters : String → String → Type 0
SameLetters [] [] = Unit
SameLetters [] (d ∷ t) = ⊥
SameLetters (c ∷ s) [] = ⊥
SameLetters (c ∷ s) (d ∷ t) = (lower (code c) ≡ lower (code d)) × SameLetters s t

eq_lower-SameLetters : (s t u : String) → SameLetters s t → eq_lower s u ≡ eq_lower t u
unfolding eq_lower
eq_lower-SameLetters [] [] u h = refl
eq_lower-SameLetters [] (d ∷ t) u h = absurd h
eq_lower-SameLetters (c ∷ s) [] u h = absurd h
eq_lower-SameLetters (c ∷ s) (d ∷ t) [] h = refl
eq_lower-SameLetters (c ∷ s) (d ∷ t) (e ∷ u) h = rw (h.0, eq_lower-SameLetters s t u h.1) refl

initial-SameLetters : (s t : String) → SameLetters s t → initial s ≡ initial t
unfolding initial
initial-SameLetters [] [] h = refl
initial-SameLetters [] (d ∷ t) h = absurd h
initial-SameLetters (c ∷ s) [] h = absurd h
initial-SameLetters (c ∷ s) (d ∷ t) h = rw h.0 refl

-- A peer's letter does not depend on how its name is capitalised.
pub avatar_letter-SameLetters : (s t : String) → SameLetters s t → avatar_letter s ≡ avatar_letter t
unfolding avatar_letter
avatar_letter-SameLetters s t h =
    rw
      (
        eq_lower-SameLetters s t "moon" h,
        eq_lower-SameLetters s t "lunar" h,
        eq_lower-SameLetters s t "earth" h,
        eq_lower-SameLetters s t "mars" h,
        initial-SameLetters s t h,
      )
      refl
