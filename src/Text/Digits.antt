-- ===== src/Text/Digits.antt =====
-- The digits of a number: what `Display` writes has the value that was written.
use Prim.Native.Char.{Char, code}
use Prim.Native.String.{String, [], ◌∷◌}
use dtchat.Prelude.{
  ℕ, zero, suc, ◌+◌, ◌-◌, ◌*◌, ◌/◌, ◌%◌, ◌≤◌, ◌<◌, ◌≡◌, ◌≢◌, refl, ap, ◌∙◌, inl, inr, Bool-cases,
  ltb, arith,
}
use dtchat.Text.{digit, show_from, show}
use dtchat.Text.Laws.{IsFree}

abbrev pub IsDigit : Char → Type 0
IsDigit c = (b'0' ≤ code c) × (code c ≤ b'9')

abbrev pub IsNumeral : String → Type 0
IsNumeral [] = Unit
IsNumeral (c ∷ s) = IsDigit c × IsNumeral s

-- The value of the digits after those that make `n`.
abbrev pub value : ℕ → String → ℕ
value n [] = n
value n (c ∷ s) = value (n * 10 + (code c - b'0')) s

digit-code : (n : ℕ) → n < 10 → code (digit n) ≡ b'0' + n
unfolding digit
digit-code zero h = refl
digit-code (suc zero) h = refl
digit-code (suc (suc zero)) h = refl
digit-code (suc (suc (suc zero))) h = refl
digit-code (suc (suc (suc (suc zero)))) h = refl
digit-code (suc (suc (suc (suc (suc zero))))) h = refl
digit-code (suc (suc (suc (suc (suc (suc zero)))))) h = refl
digit-code (suc (suc (suc (suc (suc (suc (suc zero))))))) h = refl
digit-code (suc (suc (suc (suc (suc (suc (suc (suc zero)))))))) h = refl
digit-code (suc (suc (suc (suc (suc (suc (suc (suc (suc n))))))))) h = omega (arith, h)

digit-IsDigit : (n : ℕ) → n < 10 → IsDigit (digit n)
digit-IsDigit n h = (omega (arith, digit-code n h), omega (arith, digit-code n h))

value-digit : (m n : ℕ) (out : String) → n < 10 → value m (digit n ∷ out) ≡ value (m * 10 + n) out
value-digit m n out h = ap (λ k. value k out) (omega (arith, digit-code n h))

value-show_from :
    (fuel n : ℕ) (out : String) → n < fuel → value 0 (show_from fuel n out) ≡ value n out
unfolding show_from
value-show_from zero n out h = absurd (omega arith)
value-show_from (suc fuel) n out h = elim (Bool-cases (ltb n 10)) [
  | inl small ↦ rw small (value-digit 0 n out (ground arith) ∙ ap (λ k. value k out) (omega arith))
  | inr large ↦ rw large (
      value-show_from fuel (n / 10) (digit (n % 10) ∷ out) (ground arith)
      ∙ value-digit (n / 10) (n % 10) out (omega arith)
      ∙ ap (λ k. value k out) (omega arith))
]

show_from-IsNumeral :
    (fuel n : ℕ) (out : String) → n < fuel → IsNumeral out → IsNumeral (show_from fuel n out)
unfolding show_from
show_from-IsNumeral zero n out h k = absurd (omega arith)
show_from-IsNumeral (suc fuel) n out h k = elim (Bool-cases (ltb n 10)) [
  | inl small ↦ rw small (digit-IsDigit n (ground arith), k)
  | inr large ↦ rw large (
      show_from-IsNumeral fuel (n / 10) (digit (n % 10) ∷ out) (ground arith)
        (digit-IsDigit (n % 10) (omega arith), k))
]

show_from-not-nil : (fuel n : ℕ) (out : String) → n < fuel → show_from fuel n out ≢ []
unfolding show_from
show_from-not-nil zero n out h = absurd (omega arith)
show_from-not-nil (suc fuel) n out h = elim (Bool-cases (ltb n 10)) [
  | inl small ↦ rw small (λ e. cc)
  | inr large ↦ rw large (show_from-not-nil fuel (n / 10) (digit (n % 10) ∷ out) (ground arith))
]

pub show-not-nil : (n : ℕ) → show n ≢ []
unfolding show
show-not-nil n = show_from-not-nil (suc n) n [] (omega arith)

-- A number that is written and read back is the same.
pub value-show : (n : ℕ) → value 0 (show n) ≡ n
unfolding show
value-show n = value-show_from (suc n) n [] (omega arith)

pub show-IsNumeral : (n : ℕ) → IsNumeral (show n)
unfolding show
show-IsNumeral n = show_from-IsNumeral (suc n) n [] (omega arith) tt

-- Digits have no dot among them.
pub IsNumeral-IsFree : (s : String) → IsNumeral s → IsFree b'.' s
IsNumeral-IsFree [] h = tt
IsNumeral-IsFree (c ∷ s) h = (λ e. omega (arith, e, h.0.0), IsNumeral-IsFree s h.1)

-- More digits never make less.
pub value-ge : (n : ℕ) (s : String) → n ≤ value n s
value-ge n [] = omega arith
value-ge n (c ∷ s) = omega (arith, value-ge (n * 10 + (code c - b'0')) s)
