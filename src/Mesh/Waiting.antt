-- ===== src/Mesh/Waiting.antt =====
-- `wait_until` of src/mesh_integration.rs.
use dtchat.Prelude.{
  Option, none, if◌then◌else◌, ℕ, zero, suc, ◌+◌, ◌*◌, ◌≤◌, ◌<◌, ◌≡◌, refl, ◌⊎◌, inl, inr, Bool,
  Bool-cases, true, false, some, ltb, arith,
}
use native.Mathlib.Decide.{dec_lt}

-- A round of the loop of `wait_until`: `now` and `predicate` are what the rounds read, from round `k`.
wait_from : ℕ → (now : ℕ → ℕ) → (predicate : ℕ → Bool) → (deadline : ℕ) → ℕ → Option Bool
wait_from zero now predicate deadline k = none
wait_from (suc fuel) now predicate deadline k =
    let rest = wait_from fuel now predicate deadline (k + 1) in
    if ltb (now k) deadline then (if predicate k then some true else rest) else some (predicate k)

-- `wait_until`, with times in milliseconds: it was called at `start`, and sleeps for 20 ms a round.
unfoldable pub wait_until : ℕ → ℕ → (now : ℕ → ℕ) → (predicate : ℕ → Bool) → Option Bool
unfolding wait_from
wait_until fuel start now predicate = wait_from fuel now predicate (start + 5000) 0

module _ (start : ℕ) (now : ℕ → ℕ) (predicate : ℕ → Bool) where
  -- What the loop gives: the predicate was seen to hold, or the time was up and it never held.
  abbrev pub Waited : ℕ → Type 0
  Waited fuel =
      ((k : ℕ) × (k ≤ 250)
        × (predicate k ≡ true)
        × (wait_until fuel start now predicate ≡ some true))
      ⊎ ((k : ℕ) × (k ≤ 250)
          × (start + 5000 ≤ now k)
          × ((j : ℕ) → j ≤ k → predicate j ≡ false)
          × (wait_until fuel start now predicate ≡ some false))

  abbrev Ends : ℕ → ℕ → Type 0
  Ends fuel k =
      ((j : ℕ) × (j ≤ 250)
        × (predicate j ≡ true)
        × (wait_from fuel now predicate (start + 5000) k ≡ some true))
      ⊎ ((j : ℕ) × (j ≤ 250)
          × (start + 5000 ≤ now j)
          × ((h : ℕ) → h ≤ j → predicate h ≡ false)
          × (wait_from fuel now predicate (start + 5000) k ≡ some false))

  one_more :
      (k : ℕ)
      → ((j : ℕ) → j < k → predicate j ≡ false)
      → predicate k ≡ false
      → (j : ℕ) → j < k + 1
      → predicate j ≡ false
  one_more k before fails j lt = elim (dec_lt j k) [
    | yes below ↦ before j below
    | no last ↦ let same : j ≡ k = omega arith in rw same fails
  ]

module _ (start : ℕ) (now : ℕ → ℕ) (predicate : ℕ → Bool)
    (sleeps : (k : ℕ) → start + 20 * k ≤ now k) where
  wait_from-Ends :
      (fuel k : ℕ)
      → 250 < fuel + k
      → k ≤ 250
      → ((j : ℕ) → j < k → predicate j ≡ false)
      → Ends start now predicate fuel k
  unfolding wait_from
  wait_from-Ends zero k enough few before = absurd (omega arith)
  wait_from-Ends (suc fuel) k enough few before = elim (Bool-cases (ltb (now k) (start + 5000))) [
    | inl early ↦ elim (Bool-cases (predicate k)) [
      | inl holds ↦ inl (k, few, holds, rw (early, holds) refl)
      | inr fails ↦
          rw (early, fails)
            (wait_from-Ends fuel (k + 1) (omega arith) (let s = sleeps k in ground arith)
              (one_more start now predicate k before fails))
    ]
    | inr late ↦ elim (Bool-cases (predicate k)) [
      | inl holds ↦ inl (k, few, holds, rw (late, holds) refl)
      | inr fails ↦ inr (
        k,
        few,
        ground arith,
        (λ j le. one_more start now predicate k before fails j (omega arith)),
        rw (late, fails) refl,
      )
    ]
  ]

  -- The loop ends after at most 251 rounds, if a round takes the 20 ms that it sleeps: with `true` only
  -- if the predicate held when it was read, and with `false` only if it held at no reading and five
  -- seconds are over.
  pub wait_until-Waited : Waited start now predicate 251
  unfolding wait_until
  wait_until-Waited =
      wait_from-Ends 251 0 (omega arith) (omega arith) (λ j lt. absurd (omega arith))
