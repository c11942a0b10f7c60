-- ===== src/Locks/Free.antt =====
-- The threads of a node, from their start.
use mathlib.Core.List.{append_assoc}
use dtchat.Prelude.{
  suc, ◌+◌, ◌≤◌, ◌≡◌, refl, ◌∙◌, ◌⊎◌, inl, inr, List, [], ◌∷◌, ◌++◌, map, All, All-append, All-left,
  All-right, length, arith,
}
use dtchat.Locks.Exclusion.{holders, Reaches-holders}
use dtchat.Locks.{Lock, Shared, Job, locks_of}
use dtchat.Locks.Threads.{
  Thread, Move, takes, gives, Step, moves, Reaches, start, next, steps, work,
}
use dtchat.Locks.Nested.{locks_of-Nested}
use dtchat.Locks.Waits.{CanMove, InOrder, IsFinished, place, place_lem}

-- A thread for each job.
abbrev pub starting : {T : Type 0} → Shared → List (Job T) → List Thread
starting s jobs = map (λ job. record { held = []; rest = locks_of s job }) jobs

starting-InOrder : {T : Type 0} (s : Shared) (jobs : List (Job T)) → All InOrder (starting s jobs)
starting-InOrder s [] = tt
starting-InOrder s (job ∷ jobs) = (locks_of-Nested s job, starting-InOrder s jobs)

starting-holders :
    {T : Type 0} (s : Shared) (jobs : List (Job T)) (l : Lock) → holders l (starting s jobs) ≤ 1
starting-holders s [] l = omega arith
starting-holders s (job ∷ jobs) l = omega (arith, starting-holders s jobs l)

Move-InOrder : {ts : List Thread} {t u : Thread} → Move ts t u → InOrder t → InOrder u
Move-InOrder (takes l held rest free) nested = nested.1
Move-InOrder (gives l held rest) nested = nested.1

Move-length : {ts : List Thread} {t u : Thread} → Move ts t u → length t.rest ≡ suc (length u.rest)
Move-length (takes l held rest free) = refl
Move-length (gives l held rest) = refl

Step-InOrder : {ts us : List Thread} → Step ts us → All InOrder ts → All InOrder us
Step-InOrder (moves before behind t u move) nested =
    let here : All InOrder (t ∷ behind) = All-right InOrder before (t ∷ behind) nested in
    All-append InOrder before (u ∷ behind) (All-left InOrder before (t ∷ behind) nested)
      (Move-InOrder move here.0, here.1)

work-append : (ts us : List Thread) → work (ts ++ us) ≡ work ts + work us
work-append [] us = omega arith
work-append (t ∷ ts) us = omega (arith, work-append ts us)

Step-work : {ts us : List Thread} → Step ts us → work ts ≡ suc (work us)
Step-work (moves before behind t u move) =
    omega
      (arith, work-append before (t ∷ behind), work-append before (u ∷ behind), Move-length move)

Reaches-InOrder : {ts us : List Thread} → Reaches ts us → All InOrder ts → All InOrder us
Reaches-InOrder start nested = nested
Reaches-InOrder (next us vs r step) nested = Step-InOrder step (Reaches-InOrder r nested)

Reaches-work : {ts us : List Thread} (r : Reaches ts us) → work us + steps r ≡ work ts
Reaches-work start = omega arith
Reaches-work (next us vs r step) = omega (arith, Reaches-work r, Step-work step)

-- The threads of `behind` have all finished, or one can go on.
rest_lem :
    {ts : List Thread}
    → All InOrder ts
    → (before behind : List Thread) → before ++ behind ≡ ts
    → All IsFinished behind ⊎ CanMove ts
rest_lem nested before [] whole = inl tt
rest_lem nested before (t ∷ behind) whole =
    elim (place_lem nested (place before behind t.held t.rest whole)) [
      | inr can ↦ inr can
      | inl finished ↦
          let along : (before ++ t ∷ []) ++ behind ≡ before ++ t ∷ behind =
            append_assoc before (t ∷ []) behind in
          elim (rest_lem nested (before ++ t ∷ []) behind (along ∙ whole)) [
            | inr can ↦ inr can
            | inl others ↦ inl (finished, others)
          ]
    ]

-- The threads of a node cannot deadlock: payloads that come in, frames of the window, messages and
-- copies that are sent and the set-up, as many as there are and interleaved in any order, always leave
-- a thread that can take its next lock or release one, until all have ended with no lock held. Each
-- step is one of a number that is known from the start, and at no time is a lock held twice.
pub Reaches-CanMove :
    {T : Type 0} (s : Shared) (jobs : List (Job T)) (ts : List Thread)
    (r : Reaches (starting s jobs) ts)
    → (All IsFinished ts ⊎ CanMove ts)
      × (work ts + steps r ≡ work (starting s jobs))
      × ((l : Lock) → holders l ts ≤ 1)
Reaches-CanMove s jobs ts r = (
  rest_lem (Reaches-InOrder r (starting-InOrder s jobs)) [] ts refl,
  Reaches-work r,
  λ l. Reaches-holders l r (starting-holders s jobs l),
)
