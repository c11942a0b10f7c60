-- ===== src/Controller/Steps.antt =====
-- The payloads of src/utils/socket.rs as calls of the chat models (src/app.rs).
use dtchat.Prelude.{
  ℕ, zero, suc, ◌≡◌, refl, sym, ap, ◌∙◌, inl, inr, Bool-cases, List, [], ◌∷◌, ◌++◌, Option, none,
  some, ℕ_eq, ◌==◌, if◌then◌else◌,
}
use dtchat.Time.{Instant}
use dtchat.Endpoint.{Endpoint}
use dtchat.Proto.{DeserializedMessage, chat_message, ack, deserialize_message}
use dtchat.Model.{World, MessageDirection, on_socket_event, on_ack_received}
use dtchat.Model.Events.{count}
use dtchat.Model.Runs.{Call, adds, acks, step, run, IsOrdered, run-IsOrdered}
use dtchat.Controller.{
  SocketController, Draws, Env, Models, model_observer, each_observer, notify_models,
  handle_ack_received, dispatch, handle_payload,
}

-- What a payload means to a model.
abbrev pub calls_of : {T : Type 0} → Option (DeserializedMessage T) → List (Call T)
calls_of none = []
calls_of (some (chat_message m)) = adds m MessageDirection.received ∷ []
calls_of (some (ack message_uuid is_read ack_time acker_uuid)) =
    acks message_uuid acker_uuid is_read ack_time ∷ []

abbrev pub repeat : {T : Type 0} → ℕ → List (Call T) → List (Call T)
repeat zero cs = []
repeat (suc n) cs = cs ++ repeat n cs

module _ {T P : Type 0} ⦃i : Instant T⦄ where
  pub run-append : (cs ds : List (Call T)) (w : World T P) → run (cs ++ ds) w ≡ run ds (run cs w)
  unfolding run
  run-append [] ds w = refl
  run-append (c ∷ cs) ds w = run-append cs ds (step c w)

  each_observer-run :
      (f : World T P → World T P) (cs : List (Call T))
      → ((w : World T P) → f w ≡ run cs w)
      → (os : List ℕ) (models : Models T P) (j : ℕ)
      → each_observer f os models j ≡ run (repeat (count j os) cs) (models j)
  unfolding each_observer run
  each_observer-run f cs h [] models j = refl
  each_observer-run f cs h (o ∷ os) models j =
      let next : Models T P = λ k. if k == o then f (models k) else models k in
      each_observer-run f cs h os next j ∙ elim (Bool-cases (j == o)) [
        | inl mine ↦ rw mine (
            ap (run (repeat (count j os) cs)) (h (models j))
            ∙ sym (run-append cs (repeat (count j os) cs) (models j)))
        | inr other ↦ rw other refl
      ]

  run-none : (n : ℕ) (w : World T P) → w ≡ run (repeat n []) w
  unfolding run
  run-none zero w = refl
  run-none (suc n) w = run-none n w

  module _ (env : Env) (d : Draws T) (c : SocketController) where
    dispatch-run :
        (on : Option Endpoint) (r : Option (DeserializedMessage T)) (models : Models T P) (j : ℕ)
        → (dispatch env d c on r models).1 j
          ≡ run (repeat (count j c.observers) (calls_of r)) (models j)
    unfolding dispatch notify_models handle_ack_received run step on_socket_event
    dispatch-run on none models j = run-none (count j c.observers) (models j)
    dispatch-run on (some (chat_message m)) models j =
        each_observer-run (on_socket_event m) _ (λ w. refl) c.observers models j
    dispatch-run on (some (ack u r t a)) models j =
        each_observer-run (on_ack_received u a r t) _ (λ w. refl) c.observers models j

    -- Whatever bytes arrive, each chat model takes exactly the calls that the decoded message means,
    -- as often as it is registered, and no model that is not registered changes; so a model that was
    -- in the order of its strategy still is.
    pub handle_payload-run :
        (on : Option Endpoint) (payload : List ℕ) (models : Models T P) (j : ℕ)
        → ((handle_payload env d c on payload models).1 j
            ≡ run
                (repeat
                  (count j c.observers)
                  (calls_of (deserialize_message env.codec d.rx_time payload c.peers)))
                (models j))
          × (IsOrdered (models j) → IsOrdered ((handle_payload env d c on payload models).1 j))
    unfolding handle_payload
    handle_payload-run on payload models j =
        let r = deserialize_message env.codec d.rx_time payload c.peers in
        let e = dispatch-run on r models j in
        (e, λ o. rw e (run-IsOrdered (repeat (count j c.observers) (calls_of r)) (models j) o))
