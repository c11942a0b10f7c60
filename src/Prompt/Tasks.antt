-- ===== src/Prompt/Tasks.antt =====
-- What a spawned task of src/layout/rooms/message_prompt.rs does with the system's answers.
use Prim.Native.String.{String}
use dtchat.Prelude.{ℕ, ◌≡◌, refl, ◌⊎◌, inl, inr, Bool}
use dtchat.Time.{Instant}
use dtchat.Proto.{Codec, serialize_message}
use dtchat.Socket.Attempts.{StopsAt, attempt-Attempted}
use dtchat.Socket.{SysCall, send_calls, send}
use dtchat.Model.{World, notify_observers}
use dtchat.Model.Events.{Hears, notify_observers-Hears}
use dtchat.Prompt.{SendTask, send_failed, run_task}

module _ {T P : Type 0} ⦃i : Instant T⦄ (codec : Codec) (works : SysCall → Bool) (e : String)
    (task : SendTask T) (w : World T P) where
  -- A task makes the system calls for the serialized message in order: either all are granted, and
  -- nothing is reported; or it stops at the first refusal, and every observer hears of it, with the
  -- name of the peer and the text of the error, while the messages stay as they are.
  pub run_task-Attempted :
      (((run_task codec works e task w).0
          ≡ send_calls task.socket (serialize_message codec task.message))
        × ((run_task codec works e task w).1 ≡ w))
      ⊎ (StopsAt works
            (send_calls task.socket (serialize_message codec task.message))
            (run_task codec works e task w).0
          × ((run_task codec works e task w).1.model ≡ w.model)
          × ((j : ℕ)
              → Hears
                  (send_failed task.peer_name e)
                  w.model.observers
                  j
                  (w.handlers j)
                  ((run_task codec works e task w).1.handlers j)))
  unfolding run_task send notify_observers
  run_task-Attempted =
      elim (attempt-Attempted works
        (send_calls task.socket (serialize_message codec task.message))) [
          | inl (done, all, granted) ↦ inl (all, rw done refl)
          | inr (lost, s) ↦ inr (
            s,
            rw lost refl,
            λ j. rw lost (notify_observers-Hears (send_failed task.peer_name e) w j),
          )
        ]
