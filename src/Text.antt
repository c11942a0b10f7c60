-- ===== src/Text.antt =====
-- What the program uses of Rust's text functions: `Display` of numbers, prefixes, searches.
-- A text is a native string, which is a list of characters.
pub mod Laws
pub mod Digits
use Prim.Native.Char.{Char, code}
use Prim.Native.String.{String, [], ◌∷◌}
use dtchat.Prelude.{
  ℕ, zero, suc, ◌+◌, ◌/◌, ◌%◌, ◌≡◌, refl, Bool, true, false, ◌||◌, Option, none, some, is_some, ltb,
  ℕ_eq, ◌==◌, if◌then◌else◌,
}

digit : ℕ → Char
digit zero = "0"
digit (suc zero) = "1"
digit (suc (suc zero)) = "2"
digit (suc (suc (suc zero))) = "3"
digit (suc (suc (suc (suc zero)))) = "4"
digit (suc (suc (suc (suc (suc zero))))) = "5"
digit (suc (suc (suc (suc (suc (suc zero)))))) = "6"
digit (suc (suc (suc (suc (suc (suc (suc zero))))))) = "7"
digit (suc (suc (suc (suc (suc (suc (suc (suc zero)))))))) = "8"
digit _ = "9"

-- The digits of `n`, most significant first, in front of `out`; each round divides by ten.
show_from : ℕ → ℕ → String → String
show_from zero n out = out
show_from (suc fuel) n out =
    let rest = show_from fuel (n / 10) (digit (n % 10) ∷ out) in
    if ltb n 10 then digit n ∷ out else rest

-- `format!("{n}")` of an unsigned number: one round a digit, and `n` has at most `n + 1` digits.
unfoldable pub show : ℕ → String
unfolding digit show_from
show n = show_from (suc n) n []

-- `s.strip_prefix(p)`
unfoldable pub strip_prefix : String → String → Option String
strip_prefix s [] = some s
strip_prefix [] (d ∷ p) = none
strip_prefix (c ∷ s) (d ∷ p) = if code c == code d then strip_prefix s p else none

-- `s.starts_with(p)`
unfoldable pub starts_with : String → String → Bool
unfolding strip_prefix
starts_with s p = is_some (strip_prefix s p)

-- `s.contains(p)`
unfoldable pub contains : String → String → Bool
unfolding starts_with
contains [] p = starts_with [] p
contains (c ∷ s) p = starts_with (c ∷ s) p || contains s p

-- `s.is_empty()`
unfoldable pub is_empty : String → Bool
is_empty [] = true
is_empty (c ∷ s) = false

-- `s.find(d).map(|i| &s[..i])`: what stands before the first `d`.
unfoldable pub before : ℕ → String → Option String
before d [] = none
before d (c ∷ s) =
    if code c == d then some [] else (elim (before d s) [ none ↦ none | some t ↦ some (c ∷ t) ])

-- The bytes of a character in UTF-8, and `s.len()`.
utf8_len : Char → ℕ
utf8_len c =
    if ltb (code c) 0x80
    then 1
    else if ltb (code c) 0x800
    then 2
    else if ltb (code c) 0x10000
    then 3
    else 4

unfoldable pub byte_len : String → ℕ
unfolding utf8_len
byte_len [] = 0
byte_len (c ∷ s) = utf8_len c + byte_len s

show-test : show 0 ≡ "0"
unfolding show
show-test = refl

show-test_long : show 1207 ≡ "1207"
unfolding show
show-test_long = refl

before-test : before b'.' "10.2" ≡ some "10"
unfolding before
before-test = refl
