-- ===== src/Socket/Address.antt =====
-- BP addresses: the address that `create_bp_sockaddr_with_string` of src/utils/socket.rs makes of an
-- EID is the one that was written.
use Prim.Native.Char.{Char, code}
use Prim.Native.String.append
use Prim.Native.String.{String, [], ◌∷◌, ◌++◌}
use text.Mathlib.TextLemmas.{append-nil, append_assoc}
use dtchat.Prelude.{
  ℕ, ◌+◌, ◌-◌, ◌*◌, ◌≤◌, ◌<◌, ◌≡◌, ◌≢◌, [], ◌∷◌, refl, sym, ap, ◌∙◌, ◌⊎◌, inl, inr, Bool-cases,
  Option-cases, false, none, some, ltb, ℕ_eq, ◌==◌, arith,
}
use dtchat.Text.{show, is_empty}
use dtchat.Text.Laws.{IsFree, same_code, strip_prefix-append}
use dtchat.Text.Digits.{
  IsNumeral, value, value-show, value-ge, show-not-nil, show-IsNumeral, IsNumeral-IsFree,
}
use dtchat.Socket.{
  u32_max, is_digit, digits_u32, parse_u32, split_from, split, ipn_address, ipn_of_parts,
  create_bp_sockaddr, ok, err, invalid_input,
}

-- Digits are read as the number that they stand for, if it fits.
digits_u32-value :
    (n : ℕ) (s : String) → IsNumeral s → value n s ≤ u32_max → digits_u32 n s ≡ some (value n s)
unfolding digits_u32 is_digit
digits_u32-value n [] h k = refl
digits_u32-value n (c ∷ s) h k = ground (
  arith,
  h.0,
  value-ge (n * 10 + (code c - b'0')) s,
  digits_u32-value (n * 10 + (code c - b'0')) s h.1 k,
)

digits_u32_over :
    (n : ℕ) (s : String) → IsNumeral s → n ≤ u32_max → u32_max < value n s → digits_u32 n s ≡ none
unfolding digits_u32 is_digit
digits_u32_over n [] h l k = absurd (omega (arith, l, k))
digits_u32_over n (c ∷ s) h l k = elim (Bool-cases (ltb u32_max (n * 10 + (code c - b'0')))) [
  | inl over ↦ ground (arith, over)
  | inr fits ↦
      ground (arith, digits_u32_over (n * 10 + (code c - b'0')) s h.1 (ground (arith, fits)) k)
]

parse_u32-digits : (s : String) → IsNumeral s → s ≢ [] → parse_u32 s ≡ digits_u32 0 s
unfolding parse_u32
parse_u32-digits [] h n = absurd (n refl)
parse_u32-digits (c ∷ []) h n = refl
parse_u32-digits (c ∷ d ∷ s) h n = ground (arith, h.0)

-- A number that is written in decimal is read back if it fits into 32 bits, and refused otherwise.
pub parse_u32-show :
    (n : ℕ)
    → (n ≤ u32_max → parse_u32 (show n) ≡ some n) × (u32_max < n → parse_u32 (show n) ≡ none)
parse_u32-show n =
    let digits = parse_u32-digits (show n) (show-IsNumeral n) (show-not-nil n) in
    (
      λ h.
          digits
          ∙ digits_u32-value 0 (show n) (show-IsNumeral n) (omega (arith, value-show n, h))
          ∙ ap some (value-show n),
      λ h.
          digits
          ∙ digits_u32_over 0 (show n) (show-IsNumeral n) (omega arith)
              (omega (arith, value-show n, h)),
    )

append-snoc : (cur : String) (c : Char) (s : String) → (cur ++ (c ∷ [])) ++ s ≡ cur ++ (c ∷ s)
append-snoc cur c s =
    append_assoc cur (c ∷ []) s
    ∙ ap (λ x. cur ++ x) (append.cons c [] s ∙ ap (λ x. c ∷ x) (append.nil s))

split_from_last :
    (d : Char) (cur s : String) → IsFree (code d) s → split_from (code d) cur s ≡ (cur ++ s) ∷ []
unfolding split_from
split_from_last d cur [] h = ap (λ x. x ∷ []) (sym (append-nil cur))
split_from_last d cur (c ∷ s) h = elim (Bool-cases (code c == code d)) [
  | inl same ↦ absurd (ground (arith, h.0))
  | inr other ↦
      rw other (split_from_last d (cur ++ (c ∷ [])) s h.1 ∙ ap (λ x. x ∷ []) (append-snoc cur c s))
]

split_from-append :
    (d : Char) (cur s t : String)
    → IsFree (code d) s
    → split_from (code d) cur (s ++ d ∷ t) ≡ (cur ++ s) ∷ split_from (code d) "" t
unfolding split_from
split_from-append d cur [] t h =
    rw (append.nil (d ∷ t))
      (rw (same_code d) (ap (λ x. x ∷ split_from (code d) "" t) (sym (append-nil cur))))
split_from-append d cur (c ∷ s) t h = elim (Bool-cases (code c == code d)) [
  | inl same ↦ absurd (ground (arith, h.0))
  | inr other ↦ rw (append.cons c s (d ∷ t)) (
      rw other (
        split_from-append d (cur ++ (c ∷ [])) s t h.1
        ∙ ap (λ x. x ∷ split_from (code d) "" t) (append-snoc cur c s)))
]

-- The parts of two texts without the separator are those texts.
split-append :
    (d : Char) (s t : String)
    → IsFree (code d) s
    → IsFree (code d) t
    → split (code d) (s ++ d ∷ t) ≡ s ∷ t ∷ []
unfolding split
split-append d s t h k =
    split_from-append d "" s t h
    ∙ ap (λ x. x ∷ split_from (code d) "" t) (append.nil s)
    ∙ ap (λ x. s ∷ x) (split_from_last d "" t k ∙ ap (λ x. x ∷ []) (append.nil t))

is_empty-ipn : (body : String) → is_empty ("ipn:" ++ body) ≡ false
unfolding is_empty
is_empty-ipn body = ap is_empty (append.cons "i" "pn:" body)

create_bp_sockaddr-ipn :
    (body : String) → create_bp_sockaddr ("ipn:" ++ body) ≡ ipn_of_parts (split b'.' body)
unfolding create_bp_sockaddr
create_bp_sockaddr-ipn body =
    rw (is_empty-ipn body, create_bp_sockaddr)
      (rw (strip_prefix-append "ipn:" body, create_bp_sockaddr) refl)

ipn_of_parts-show :
    (n s : ℕ)
    → n ≤ u32_max
    → s ≤ u32_max
    → ipn_of_parts (show n ∷ show s ∷ []) ≡ ok (ipn_address n s)
unfolding ipn_of_parts
ipn_of_parts-show n s h k = rw ((parse_u32-show n).0 h, (parse_u32-show s).0 k) refl

ipn_of_parts_over :
    (n s : ℕ)
    → (u32_max < n) ⊎ (u32_max < s)
    → ipn_of_parts (show n ∷ show s ∷ []) ≡ err invalid_input
unfolding ipn_of_parts
ipn_of_parts_over n s (inl h) = rw ((parse_u32-show n).1 h) refl
ipn_of_parts_over n s (inr h) = elim (Option-cases (parse_u32 (show n))) [
  | inl e ↦ rw e refl
  | inr (m, e) ↦ rw (e, (parse_u32-show s).1 h) refl
]

abbrev pub ipn_text : ℕ → ℕ → String
ipn_text node_id service_id = "ipn:" ++ (show node_id ++ "." ∷ show service_id)

-- The address of the EID of a node and a service is that node and that service, where both fit into
-- 32 bits, and an error where one of them does not.
pub create_bp_sockaddr-ipn_text :
    (node_id service_id : ℕ)
    → (node_id ≤ u32_max
        → service_id ≤ u32_max
        → create_bp_sockaddr (ipn_text node_id service_id) ≡ ok (ipn_address node_id service_id))
      × ((u32_max < node_id) ⊎ (u32_max < service_id)
          → create_bp_sockaddr (ipn_text node_id service_id) ≡ err invalid_input)
create_bp_sockaddr-ipn_text n s =
    let parts : create_bp_sockaddr (ipn_text n s) ≡ ipn_of_parts (show n ∷ show s ∷ []) =
      create_bp_sockaddr-ipn (show n ++ "." ∷ show s)
      ∙ ap ipn_of_parts (
          split-append "." (show n) (show s) (IsNumeral-IsFree (show n) (show-IsNumeral n))
            (IsNumeral-IsFree (show s) (show-IsNumeral s))) in
    (λ h k. parts ∙ ipn_of_parts-show n s h k, λ k. parts ∙ ipn_of_parts_over n s k)
