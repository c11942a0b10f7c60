-- ===== src/Proto/Base64.antt =====
-- The framing that `decode_adu_base64` of src/utils/proto.rs tolerates.
use mathlib.Core.List.{append-nil, append_assoc}
use dtchat.Prelude.{
  Option-cases, inl, inr, some, ℕ, zero, suc, ◌+◌, ◌%◌, ◌≤◌, ◌<◌, ◌≡◌, refl, sym, true, false, List,
  [], ◌∷◌, ◌++◌, none, ℕ_eq, All, length, length-append, replicate, arith,
}
use dtchat.Proto.{ProtoMessage, decode_at, Codec, is_letter, core_of, pad, decode_adu_base64}

-- What follows the letters does not go on with one.
abbrev pub Stops : List ℕ → Type 0
Stops [] = Unit
Stops (b ∷ rest) = is_letter b ≡ false

abbrev pub Letters : List ℕ → Type 0
Letters l = All (λ b. is_letter b ≡ true) l

core_of_stop : (rest : List ℕ) → Stops rest → core_of rest ≡ []
unfolding core_of
core_of_stop [] h = refl
core_of_stop (b ∷ rest) h = ground arith

pub core_of-append :
    (core rest : List ℕ) → Letters core → Stops rest → core_of (core ++ rest) ≡ core
unfolding core_of
core_of-append [] rest a h = core_of_stop rest h
core_of-append (b ∷ core) rest a h = ground (arith, core_of-append core rest a.1 h)

pub pad-replicate :
    (fuel k : ℕ) (l : List ℕ)
    → k ≤ fuel
    → k < 4
    → (length l + k) % 4 ≡ 0
    → pad fuel l ≡ l ++ replicate k b'='
unfolding pad
pad-replicate zero zero l le lt e = sym (append-nil l)
pad-replicate zero (suc k) l le lt e = absurd (omega arith)
pad-replicate (suc fuel) zero l le lt e = ground (arith, append-nil l)
pad-replicate (suc fuel) (suc k) l le lt e = ground (
  arith,
  pad-replicate fuel k (l ++ b'=' ∷ []),
  length-append l (b'=' ∷ []),
  append_assoc l (b'=' ∷ []) (replicate k b'='),
)

-- The letters of a base64 text, as far as its padding completes them.
pub record IsText (core : List ℕ) (pads : ℕ) : Type 0 where
  pub letters : Letters core
  pub some_letters : 0 < length core
  pub few_pads : pads ≤ 2
  pub whole : (length core + pads) % 4 ≡ 0

-- Whatever follows the letters, if no letter does, they are decoded with the padding restored.
pub decode_adu_base64-IsText :
    (c : Codec) (core rest : List ℕ) (pads : ℕ)
    → IsText core pads
    → Stops rest
    → decode_adu_base64 c (core ++ rest) ≡ c.base64_decode (core ++ replicate pads b'=')
unfolding decode_adu_base64
decode_adu_base64-IsText c core rest pads t h =
    let padded =
      pad-replicate 3 pads core (omega (arith, t.few_pads)) (omega (arith, t.few_pads)) t.whole in
    rw (core_of-append core rest t.letters h)
      (ground (arith, padded, t.some_letters, t.few_pads, t.whole))

-- With no letter in front there is nothing to decode.
pub decode_adu_base64-none : (c : Codec) (buf : List ℕ) → Stops buf → decode_adu_base64 c buf ≡ none
unfolding decode_adu_base64
decode_adu_base64-none c buf h = rw (core_of_stop buf h)

-- A letter more than a whole number of quadruples is no base64 text either.
-- No message that has content is read from these letters.
abbrev pub IsMisread : Codec → List ℕ → Type 0
IsMisread c core =
    (bytes : List ℕ) (p : ProtoMessage)
    → c.base64_decode (pad 3 core) ≡ some bytes
    → c.proto_decode bytes ≡ some p
    → p.content ≡ none

-- What is decoded is these letters, with padding.
decode_adu_base64-some :
    (c : Codec) (core rest bytes : List ℕ)
    → Letters core
    → Stops rest
    → decode_adu_base64 c (core ++ rest) ≡ some bytes
    → c.base64_decode (pad 3 core) ≡ some bytes
unfolding decode_adu_base64
decode_adu_base64-some c core rest bytes a h e =
    let run : core_of (core ++ rest) ≡ core = core_of-append core rest a h in ground (arith, e, run)

pub decode_at-IsMisread :
    (c : Codec) (core rest : List ℕ)
    → Letters core
    → Stops rest
    → IsMisread c core
    → decode_at c (core ++ rest) ≡ none
unfolding decode_at
decode_at-IsMisread c core rest a h misread =
    elim (Option-cases (decode_adu_base64 c (core ++ rest))) [
      | inl e ↦ rw (e, decode_at) refl
      | inr (bytes, e) ↦ elim (Option-cases (c.proto_decode bytes)) [
        | inl d ↦ rw (e, decode_at) (rw d refl)
        | inr (p, d) ↦
            let empty = misread bytes p (decode_adu_base64-some c core rest bytes a h e) d in
            rw (e, decode_at) (rw d (rw empty refl))
      ]
    ]

pub decode_adu_base64-odd :
    (c : Codec) (core rest : List ℕ)
    → Letters core
    → Stops rest
    → length core % 4 ≡ 1
    → decode_adu_base64 c (core ++ rest) ≡ none
unfolding decode_adu_base64
decode_adu_base64-odd c core rest a h odd = rw (core_of-append core rest a h) (ground (arith, odd))
