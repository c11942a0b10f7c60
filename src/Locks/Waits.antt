-- ===== src/Locks/Waits.antt =====
-- What a thread waits for: a lock that another holds, which waits for one above it, and so on.
use native.Mathlib.Decide.{ℕ_discrete}
use dtchat.Prelude.{
  All-right, ℕ, zero, suc, ◌+◌, ◌<◌, ◌≤◌, ◌≡◌, refl, sym, ap, subst, ◌⊎◌, inl, inr, List, [], ◌∷◌,
  ◌++◌, All, arith,
}
use dtchat.Locks.{Lock, controller, model, nodes, router, queue, Act, acquire, release}
use dtchat.Locks.Threads.{Thread, Holds, IsFree, Move, takes, gives, Step, moves, level, Nested}

pub Lock-discrete : Discrete Lock
Lock-discrete = hlevel ℕ_discrete

-- Some thread can go on.
pub record CanMove (ts : List Thread) : Type 0 where
  pub after : List Thread
  pub step : Step ts after

-- A thread of `ts`.
pub record Place (ts : List Thread) : Type 0 where
  pub before : List Thread
  pub behind : List Thread
  pub held : List Lock
  pub rest : List Act
  pub whole : before ++ record { held = held; rest = rest } ∷ behind ≡ ts

dec_Holds : (l : Lock) (held : List Lock) → Dec (Holds l held)
dec_Holds l [] = no (λ bad. bad)
dec_Holds l (h ∷ held) = elim (Lock-discrete h l) [
  | yes same ↦ yes (inl same)
  | no other ↦ elim (dec_Holds l held) [
    | yes deeper ↦ yes (inr deeper)
    | no absent ↦ no (λ either. elim either [ inl same ↦ other same | inr deeper ↦ absent deeper ])
  ]
]

abbrev further : {ts : List Thread} (t : Thread) → Place ts → Place (t ∷ ts)
further t p = record {
  before = t ∷ p.before;
  behind = p.behind;
  held = p.held;
  rest = p.rest;
  whole = ap (λ us. t ∷ us) p.whole;
}

-- No thread holds the lock, or one does.
IsFree-or-held : (l : Lock) (ts : List Thread) → IsFree l ts ⊎ ((p : Place ts) × Holds l p.held)
IsFree-or-held l [] = inl tt
IsFree-or-held l (t ∷ ts) = elim (dec_Holds l t.held) [
  | yes holds ↦
      inr (record { before = []; behind = ts; held = t.held; rest = t.rest; whole = refl }, holds)
  | no absent ↦ elim (IsFree-or-held l ts) [
    | inl free ↦ inl (absent, free)
    | inr (p, holds) ↦ inr (further t p, holds)
  ]
]

All-Holds : (P : Lock → Type 0) (l : Lock) (held : List Lock) → All P held → Holds l held → P l
All-Holds P l [] a bad = absurd bad
All-Holds P l (h ∷ held) a (inl same) = subst P same a.0
All-Holds P l (h ∷ held) a (inr deeper) = All-Holds P l held a.1 deeper

level_le : (l : Lock) → level l ≤ 3
level_le controller = omega arith
level_le (model o) = omega arith
level_le nodes = omega arith
level_le router = omega arith
level_le (queue h) = omega arith

-- What is left of a thread is in order.
abbrev pub InOrder : Thread → Type 0
InOrder t = Nested t.held t.rest

abbrev pub IsFinished : Thread → Type 0
IsFinished t = (t.rest ≡ []) × (t.held ≡ [])

module _ {ts : List Thread} where
  place-InOrder : All InOrder ts → (p : Place ts) → Nested p.held p.rest
  place-InOrder nested p =
      let here : All InOrder (p.before ++ record { held = p.held; rest = p.rest } ∷ p.behind) =
        subst (All InOrder) (sym p.whole) nested in
      (All-right InOrder p.before _ here).0

  abbrev pub place :
      (before behind : List Thread) (held : List Lock) (rest : List Act)
      → before ++ record { held = held; rest = rest } ∷ behind ≡ ts
      → Place ts
  place before behind held rest whole = record {
    before = before;
    behind = behind;
    held = held;
    rest = rest;
    whole = whole;
  }

  at :
      (p : Place ts) (t : Thread) → Move ts (record { held = p.held; rest = p.rest }) t → CanMove ts
  at p t =
      subst (λ us. Move us (record { held = p.held; rest = p.rest }) t → CanMove us) p.whole
        (λ move. record {
          after = p.before ++ t ∷ p.behind;
          step = moves p.before p.behind _ t move;
        })

  -- A thread has finished, or it can go on, or a lock that it waits for is held.
  advance :
      (before behind : List Thread) (held : List Lock) (rest : List Act)
      → before ++ record { held = held; rest = rest } ∷ behind ≡ ts
      → Nested held rest
      → ((m : Lock) (q : Place ts)
          → Holds m q.held
          → All (λ h. level h < level m) held
          → CanMove ts)
      → ((rest ≡ []) × (held ≡ [])) ⊎ CanMove ts
  advance before behind held [] whole nested waits = inl (refl, nested)
  advance before behind [] (release m ∷ rest) whole nested waits = absurd nested
  advance before behind (h ∷ held) (release m ∷ rest) whole nested waits =
      let t : Thread = record { held = held; rest = rest } in
      let gone : Move ts (record { held = h ∷ held; rest = release m ∷ rest }) t =
        subst (λ k. Move ts (record { held = k ∷ held; rest = release m ∷ rest }) t) (sym nested.0)
          (gives m held rest) in
      inr (at (place before behind (h ∷ held) (release m ∷ rest) whole) t gone)
  advance before behind held (acquire m ∷ rest) whole nested waits = elim (IsFree-or-held m ts) [
    | inl free ↦ inr (
        at (place before behind held (acquire m ∷ rest) whole)
          (record { held = m ∷ held; rest = rest }) (takes m held rest free))
    | inr (q, holds) ↦ inr (waits m q holds nested.0)
  ]

  -- A lock that is held is released, or its thread waits for one that is higher.
  climb :
      (fuel : ℕ) (l : Lock) (p : Place ts)
      → All InOrder ts
      → Holds l p.held
      → 3 < level l + fuel
      → CanMove ts
  climb zero l p nested holds lt = absurd (omega (arith, level_le l))
  climb (suc fuel) l p nested holds lt =
      let next : ((p.rest ≡ []) × (p.held ≡ [])) ⊎ CanMove ts =
        advance p.before p.behind p.held p.rest p.whole (place-InOrder nested p)
          (λ m q inside above.
            climb fuel m q nested inside
              (omega (arith, All-Holds (λ h. level h < level m) l p.held above holds))) in
      elim next [ inl (_, none_held) ↦ absurd (subst (Holds l) none_held holds) | inr can ↦ can ]

  pub place_lem : All InOrder ts → (p : Place ts) → ((p.rest ≡ []) × (p.held ≡ [])) ⊎ CanMove ts
  place_lem nested p =
      advance p.before p.behind p.held p.rest p.whole (place-InOrder nested p)
        (λ m q inside above. climb 4 m q nested inside (omega arith))
