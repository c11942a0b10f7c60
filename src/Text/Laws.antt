-- ===== src/Text/Laws.antt =====
-- Texts that are put together and taken apart again.
use Prim.Native.Char.{Char, code}
use Prim.Native.String.append
use Prim.Native.String.{String, [], ◌∷◌, ◌++◌}
use dtchat.Prelude.{ℕ, ◌≡◌, refl, ◌≢◌, true, some, ℕ_eq, ◌==◌, nat_eq_iff, arith}
use dtchat.Text.{strip_prefix, before}

-- The character does not occur.
abbrev pub IsFree : ℕ → String → Type 0
IsFree d [] = Unit
IsFree d (c ∷ s) = (code c ≢ d) × IsFree d s

pub same_code : (c : Char) → (code c == code c) ≡ true
same_code c = (nat_eq_iff (code c) (code c)).1 refl

pub before-append :
    (d : Char) (s t : String) → IsFree (code d) s → before (code d) (s ++ d ∷ t) ≡ some s
unfolding before
before-append d [] t h = rw (append.nil (d ∷ t)) (rw (same_code d) refl)
before-append d (c ∷ s) t h =
    rw (append.cons c s (d ∷ t)) (ground (arith, before-append d s t h.1, h.0))

pub strip_prefix-append : (p s : String) → strip_prefix (p ++ s) p ≡ some s
unfolding strip_prefix
strip_prefix-append [] s = rw (append.nil s) refl
strip_prefix-append (c ∷ p) s = rw (append.cons c p s) (rw (same_code c) (strip_prefix-append p s))
