-- ===== src/Tests/Locking.antt =====
-- A node that hears of an ACK while its user sends a message.
use dtchat.Prelude.{arith, ℕ, ◌+◌, ◌≤◌, ◌≡◌, true, some, ◌⊎◌, inl, inr, List, [], ◌∷◌, All}
use dtchat.Proto.{ack}
use dtchat.Locks.{
  Lock, controller, model, nodes, router, queue, Act, acquire, release, Shared, Job, receives,
  sends, locks_of,
}
use dtchat.Locks.Threads.{Thread, takes, moves, Reaches, start, next, steps, work}
use dtchat.Locks.Waits.{CanMove, IsFinished}
use dtchat.Locks.Exclusion.{holders}
use dtchat.Locks.Free.{starting, Reaches-CanMove}

abbrev shared : Shared
shared = record { models = 0 ∷ []; queues = λ o. 0 ∷ [] }

abbrev jobs : List (Job ℕ)
jobs =
    receives (λ o. true) (some (ack "m1" true 5 "bob"))
    ∷ sends 0 true (some 1) ((some 2, true) ∷ [])
    ∷ []

abbrev receiving : List Act
receiving =
    acquire (model 0)
    ∷ acquire (queue 0)
    ∷ release (queue 0)
    ∷ release (model 0)
    ∷ release controller
    ∷ []

abbrev sending : List Act
sending =
    acquire nodes
    ∷ release nodes
    ∷ acquire nodes
    ∷ release nodes
    ∷ acquire router
    ∷ release router
    ∷ acquire (queue 0)
    ∷ release (queue 0)
    ∷ release (model 0)
    ∷ []

-- The task that received the ACK has the controller, and waits for the model.
abbrev waiting : List Thread
waiting =
    record { held = controller ∷ []; rest = receiving }
    ∷ record { held = model 0 ∷ []; rest = sending }
    ∷ []

waiting_reached : Reaches (starting shared jobs) waiting
unfolding locks_of
waiting_reached =
    let sender : Thread = record { held = []; rest = acquire (model 0) ∷ sending } in
    let first : Thread = record { held = controller ∷ []; rest = receiving } in
    next (first ∷ sender ∷ []) waiting
      (next (starting shared jobs) (first ∷ sender ∷ []) start (
        moves [] (sender ∷ []) (record { held = []; rest = acquire controller ∷ receiving }) first
          (takes controller [] receiving ((λ e. e), ((λ e. e), tt)))))
      (moves (first ∷ []) [] sender (record { held = model 0 ∷ []; rest = sending })
        (takes (model 0) [] sending
          ((λ e. elim e [ inl same ↦ absurd (ground arith) | inr bad ↦ bad ]), ((λ e. e), tt))))

Reaches-CanMove_example :
    (All IsFinished waiting ⊎ CanMove waiting)
    × (work waiting + steps waiting_reached ≡ work (starting shared jobs))
    × ((l : Lock) → holders l waiting ≤ 1)
Reaches-CanMove_example = Reaches-CanMove shared jobs waiting waiting_reached
