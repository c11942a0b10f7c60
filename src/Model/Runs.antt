-- ===== src/Model/Runs.antt =====
-- Sequences of calls of the chat model (src/app.rs). The mutex lets the transport's threads and the
-- user interface call one after the other, in any order: a run is a list of calls.
use Prim.Native.String.{String}
use mathlib.Core.List.{Perm, perm_middle}
use mathlib.Core.List.Perm
use dtchat.Prelude.{
  ℕ, ◌≡◌, refl, inl, inr, Bool, List, [], ◌∷◌, ◌++◌, map, Bool-cases, String_eq, arith,
}
use dtchat.Time.{Instant}
use dtchat.Message.{ChatMessage, mark_ack}
use dtchat.Slice.Sort.{sort_by-IsSorted, sort_by-perm}
use dtchat.Model.Order.{SortStrategy, strategy_cmp, strategy_cmp-IsOrder}
use dtchat.Model.Sorted.{InOrder, ack_first-InOrder, inserted-InOrder, inserted-perm}
use dtchat.Model.{
  World, MessageDirection, AppEvent, add_message, sort_messages, ack_first, on_ack_received,
  add_observer, notify_observers,
}

pub data Call (T : Type 0) : Type 0 where
  adds : ChatMessage T → MessageDirection → Call T
  sorts : SortStrategy → Call T
  acks : (message_uuid acker_uuid : String) → (is_read : Bool) → (ack_time : T) → Call T
  observes : ℕ → Call T
  notifies : AppEvent → Call T

module _ {T P : Type 0} ⦃i : Instant T⦄ where
  unfoldable pub step : Call T → World T P → World T P
  unfolding add_message sort_messages on_ack_received add_observer notify_observers
  step (adds m direction) w = add_message m direction w
  step (sorts s) w = record w { model = sort_messages s w.model }
  step (acks message_uuid acker_uuid is_read ack_time) w =
      on_ack_received message_uuid acker_uuid is_read ack_time w
  step (observes o) w = record w { model = add_observer o w.model }
  step (notifies e) w = notify_observers e w

  unfoldable pub run : List (Call T) → World T P → World T P
  run [] w = w
  run (c ∷ cs) w = run cs (step c w)

  -- The messages are in the order of the strategy that is chosen.
  abbrev pub IsOrdered : World T P → Type 0
  IsOrdered w = InOrder w.model.sort_strategy w.model.messages

  step-IsOrdered : (c : Call T) (w : World T P) → IsOrdered w → IsOrdered (step c w)
  unfolding step
  step-IsOrdered (adds m direction) w o =
      inserted-InOrder w.model.sort_strategy m w.model.messages o
  step-IsOrdered (sorts s) w o =
      sort_by-IsSorted (strategy_cmp s) (strategy_cmp-IsOrder s) w.model.messages
  step-IsOrdered (acks u a r t) w o =
      let kept = ack_first-InOrder w.model.sort_strategy u a t w.model.messages o in
      elim (Bool-cases (ack_first u a t w.model.messages).1) [
        | inl done ↦ rw done kept
        | inr lost ↦ rw lost kept
      ]
  step-IsOrdered (observes h) w o = o
  step-IsOrdered (notifies e) w o = o

  -- From a list in order, every sequence of calls leaves the list in order.
  pub run-IsOrdered : (cs : List (Call T)) (w : World T P) → IsOrdered w → IsOrdered (run cs w)
  unfolding run
  run-IsOrdered [] w o = o
  run-IsOrdered (c ∷ cs) w o = run-IsOrdered cs (step c w) (step-IsOrdered c w o)

  -- A sort puts any list in order, and so does every call after it.
  pub run-sorts-IsOrdered :
      (s : SortStrategy) (cs : List (Call T)) (w : World T P) → IsOrdered (run (sorts s ∷ cs) w)
  unfolding run step
  run-sorts-IsOrdered s cs w =
      run-IsOrdered cs _
        (sort_by-IsSorted (strategy_cmp s) (strategy_cmp-IsOrder s) w.model.messages)

abbrev pub uuids : {T : Type 0} → List (ChatMessage T) → List String
uuids ms = map (λ m. m.uuid) ms

-- The uuids of the messages that the calls add.
abbrev pub added : {T : Type 0} → List (Call T) → List String
added [] = []
added (adds m direction ∷ cs) = m.uuid ∷ added cs
added (_ ∷ cs) = added cs

module _ {T : Type 0} where
  uuids-ack_first :
      (u a : String) (t : T) (ms : List (ChatMessage T)) → uuids (ack_first u a t ms).0 ≡ uuids ms
  unfolding ack_first mark_ack
  uuids-ack_first u a t [] = refl
  uuids-ack_first u a t (m ∷ ms) = ground (arith, uuids-ack_first u a t ms)

  added-cons :
      (c : Call T) (cs : List (Call T)) (us : List String)
      → Perm (added cs ++ (added (c ∷ []) ++ us)) (added (c ∷ cs) ++ us)
  added-cons (adds m direction) cs us = perm_middle (added cs) us
  added-cons (sorts s) cs us = Perm.rfl
  added-cons (acks u a r t) cs us = Perm.rfl
  added-cons (observes h) cs us = Perm.rfl
  added-cons (notifies e) cs us = Perm.rfl

module _ {T P : Type 0} ⦃i : Instant T⦄ where
  step-perm :
      (c : Call T) (w : World T P)
      → Perm (uuids (step c w).model.messages) (added (c ∷ []) ++ uuids w.model.messages)
  unfolding step
  step-perm (adds m direction) w =
      Perm.map (λ m. m.uuid) (inserted-perm w.model.sort_strategy m w.model.messages)
  step-perm (sorts s) w = Perm.map (λ m. m.uuid) (sort_by-perm (strategy_cmp s) w.model.messages)
  step-perm (acks u a r t) w = elim (Bool-cases (ack_first u a t w.model.messages).1) [
    | inl done ↦ rw (done, uuids-ack_first) Perm.rfl
    | inr lost ↦ rw (lost, uuids-ack_first) Perm.rfl
  ]
  step-perm (observes h) w = Perm.rfl
  step-perm (notifies e) w = Perm.rfl

  -- No call loses a message or shows one twice: after any calls the list holds, by uuid, what it
  -- held and what was added, each once.
  pub run-perm :
      (cs : List (Call T)) (w : World T P)
      → Perm (uuids (run cs w).model.messages) (added cs ++ uuids w.model.messages)
  unfolding run
  run-perm [] w = Perm.rfl
  run-perm (c ∷ cs) w = Perm.trans (run-perm cs (step c w)) (
      Perm.trans (Perm.append_left (added cs) (step-perm c w))
        (added-cons c cs (uuids w.model.messages)))
