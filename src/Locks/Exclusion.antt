-- ===== src/Locks/Exclusion.antt =====
-- How often a lock is held, along the steps of the threads.
use dtchat.Prelude.{
  ℕ, suc, ◌+◌, ◌≤◌, ◌≡◌, refl, subst, ◌∙◌, ◌⊎◌, inl, inr, List, [], ◌∷◌, ◌++◌, arith,
}
use dtchat.Locks.{Lock}
use dtchat.Locks.Threads.{
  Thread, Holds, IsFree, Move, takes, gives, Step, moves, Reaches, start, next,
}
use dtchat.Locks.Waits.{Lock-discrete}

-- How often a thread with these locks holds the lock.
abbrev pub tally : Lock → List Lock → ℕ
tally l [] = 0
tally l (h ∷ held) = elim (Lock-discrete h l) [
  | yes same ↦ suc (tally l held)
  | no other ↦ tally l held
]

abbrev pub holders : Lock → List Thread → ℕ
holders l [] = 0
holders l (t ∷ ts) = tally l t.held + holders l ts

tally-cons :
    (l m : Lock) (held : List Lock)
    → ((m ≡ l) × (tally l (m ∷ held) ≡ suc (tally l held))) ⊎ (tally l (m ∷ held) ≡ tally l held)
tally-cons l m held =
    elim (Lock-discrete m l)
      as (λ d.
        ((m ≡ l)
          × ((elim d [ yes e ↦ suc (tally l held) | no e ↦ tally l held ]) ≡ suc (tally l held)))
        ⊎ ((elim d [ yes e ↦ suc (tally l held) | no e ↦ tally l held ]) ≡ tally l held)) [
          | yes same ↦ inl (same, refl)
          | no other ↦ inr refl
        ]

tally-absent : (l : Lock) (held : List Lock) → ¬ Holds l held → tally l held ≡ 0
tally-absent l [] absent = refl
tally-absent l (h ∷ held) absent = elim (tally-cons l h held) [
  | inl (same, e) ↦ absurd (absent (inl same))
  | inr e ↦ e ∙ tally-absent l held (λ deeper. absent (inr deeper))
]

holders-free : (l : Lock) (ts : List Thread) → IsFree l ts → holders l ts ≡ 0
holders-free l [] free = refl
holders-free l (t ∷ ts) free = omega (arith, tally-absent l t.held free.0, holders-free l ts free.1)

holders-append :
    (l : Lock) (ts us : List Thread) → holders l (ts ++ us) ≡ holders l ts + holders l us
holders-append l [] us = omega arith
holders-append l (t ∷ ts) us = omega (arith, holders-append l ts us)

-- A move holds a lock no more often, or once more where it was free.
Move-tally :
    {ts : List Thread} {t u : Thread} (l : Lock)
    → Move ts t u
    → (tally l u.held ≤ tally l t.held)
      ⊎ ((tally l u.held ≤ suc (tally l t.held)) × (holders l ts ≡ 0))
Move-tally {ts} l (takes m held rest free) = elim (tally-cons l m held) [
  | inl (same, e) ↦ inr (omega (arith, e), holders-free l ts (subst (λ k. IsFree k ts) same free))
  | inr e ↦ inl (omega (arith, e))
]
Move-tally l (gives m held rest) = elim (tally-cons l m held) [
  | inl (same, e) ↦ inl (omega (arith, e))
  | inr e ↦ inl (omega (arith, e))
]

Step-holders : {ts us : List Thread} (l : Lock) → Step ts us → holders l ts ≤ 1 → holders l us ≤ 1
Step-holders l (moves before behind t u move) le = elim (Move-tally l move) [
  | inl fewer ↦
      omega (arith, holders-append l before (t ∷ behind), holders-append l before (u ∷ behind))
  | inr (more, free) ↦
      omega (arith, holders-append l before (t ∷ behind), holders-append l before (u ∷ behind))
]

pub Reaches-holders :
    {ts us : List Thread} (l : Lock) → Reaches ts us → holders l ts ≤ 1 → holders l us ≤ 1
Reaches-holders l start le = le
Reaches-holders l (next us vs r step) le = Step-holders l step (Reaches-holders l r le)
