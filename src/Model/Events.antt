-- ===== src/Model/Events.antt =====
-- Who hears of what: the events that the calls of src/app.rs put into the observers' queues.

use mathlib.Core.List.{append-nil, append_assoc}
use dtchat.Prelude.{
  ℕ, suc, ◌+◌, ◌≡◌, sym, inl, inr, List, [], ◌∷◌, ◌++◌, Bool-cases, ℕ_eq, ◌==◌, if◌then◌else◌,
  replicate, arith,
}
use dtchat.Time.{Instant}
use dtchat.Message.{ChatMessage}
use dtchat.Model.{
  AppEvent, EventHandler, deliver, notify_each, notify_observers, World, MessageDirection, event_of,
  add_message,
}

-- How often a handle is registered.
abbrev pub count : ℕ → List ℕ → ℕ
count j [] = 0
count j (o ∷ os) = if j == o then suc (count j os) else count j os

notify_each-events :
    (e : AppEvent) (os : List ℕ) (hs : ℕ → EventHandler) (j : ℕ)
    → (notify_each e os hs j).events ≡ (hs j).events ++ replicate (count j os) e
unfolding notify_each
notify_each-events e [] hs j = sym (append-nil (hs j).events)
notify_each-events e (o ∷ os) hs j = elim (Bool-cases (j == o)) [
  | inl mine ↦
      rw (notify_each-events e os (deliver e o hs) j, mine)
        (append_assoc (hs j).events (e ∷ []) (replicate (count j os) e))
  | inr other ↦ rw (notify_each-events e os (deliver e o hs) j, other)
]

notify_each-repaints :
    (e : AppEvent) (os : List ℕ) (hs : ℕ → EventHandler) (j : ℕ)
    → (notify_each e os hs j).repaints ≡ (hs j).repaints + count j os
unfolding notify_each
notify_each-repaints e [] hs j = omega arith
notify_each-repaints e (o ∷ os) hs j = ground (arith, notify_each-repaints e os (deliver e o hs) j)

-- A queue, and the requests to repaint, before and after an event is announced to the observers.
pub record Hears (e : AppEvent) (os : List ℕ) (j : ℕ) (h h' : EventHandler) : Type 0 where
  pub events : h'.events ≡ h.events ++ replicate (count j os) e
  pub repaints : h'.repaints ≡ h.repaints + count j os

pub notify_each-Hears :
    (e : AppEvent) (os : List ℕ) (hs : ℕ → EventHandler) (j : ℕ)
    → Hears e os j (hs j) (notify_each e os hs j)
notify_each-Hears e os hs j = record {
  events = notify_each-events e os hs j;
  repaints = notify_each-repaints e os hs j;
}

module _ {T P : Type 0} where
  -- Each observer's queue gets the event at its end, as often as it is registered, with a request to
  -- repaint; the queues of all others stay as they are.
  pub notify_observers-Hears :
      (e : AppEvent) (w : World T P) (j : ℕ)
      → Hears e w.model.observers j (w.handlers j) ((notify_observers e w).handlers j)
  unfolding notify_observers
  notify_observers-Hears e w j = notify_each-Hears e w.model.observers w.handlers j

module _ {T P : Type 0} ⦃i : Instant T⦄ where
  -- Adding a message tells every observer once, and names the sender of an inbound one.
  pub add_message-Hears :
      (m : ChatMessage T) (direction : MessageDirection) (w : World T P) (j : ℕ)
      → Hears
          (event_of m direction)
          w.model.observers
          j
          (w.handlers j)
          ((add_message m direction w).handlers j)
  unfolding add_message
  add_message-Hears m direction w j =
      notify_each-Hears (event_of m direction) w.model.observers w.handlers j
