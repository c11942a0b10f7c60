-- ===== src/Prompt/Sends.antt =====
-- What `manage_send` of src/layout/rooms/message_prompt.rs does: a delivery and a copy for each
-- recipient, and one message in the local list.
use mathlib.Core.List.{append_assoc}
use dtchat.Prelude.{ℕ, ◌≡◌, ap, ◌∙◌, Bool, List, ◌∷◌, ◌++◌, some}
use dtchat.Time.{Instant}
use dtchat.Message.{ChatMessage, Delivery, sent, tx_time}
use dtchat.Socket.{Net}
use dtchat.Model.{AppEvent, sent as sent_event, World, inserted, add_message}
use dtchat.Model.Events.{count, notify_each-Hears}
use dtchat.Prompt.{Predict, SendTask, recipients_of, add_sent, manage_send}
use dtchat.Prompt.Copies.{
  Addressed, Copies, heard, deliveries_to-Addressed, recipients-HasEndpoint, send_each-Copies,
}

module _ {T P : Type 0} ⦃i : Instant T⦄ (net : Net) (m : ChatMessage T) (w : World T P) where
  -- A send: the message that is added, its deliveries, its copies, and the errors.
  pub record IsSent (w' : World T P) (tasks : List (SendTask T)) : Type 0 where
    pub deliveries : List (Delivery T)
    pub addressed : Addressed (recipients_of w.model) deliveries
    pub errors : List AppEvent
    pub copies :
        Copies net
          (record m { shipment_status = sent (tx_time m.shipment_status) deliveries })
          (recipients_of w.model)
          tasks
          errors
    pub messages :
        w'.model.messages
        ≡ inserted w.model.sort_strategy
            (record m { shipment_status = sent (tx_time m.shipment_status) deliveries })
            w.model.messages
    pub strategy : w'.model.sort_strategy ≡ w.model.sort_strategy
    pub rooms : w'.model.rooms ≡ w.model.rooms
    pub events :
        (j : ℕ)
        → (w'.handlers j).events
          ≡ (w.handlers j).events
            ++ heard (count j w.model.observers) (sent_event "Message sent." ∷ errors)

  -- `manage_send` does not panic where predictions do not: it adds the message once, at its place, with
  -- one unacknowledged
  -- delivery for each recipient in order; it hands to a task one copy of just that message for each
  -- recipient whose first endpoint the system gives a socket for; and the observers hear that the
  -- message was sent, then of each recipient without a socket.
  pub manage_send-IsSent :
      (predict : Predict T P) (pbat : Bool)
      → (w' : World T P) × (tasks : List (SendTask T)) × (manage_send net predict m pbat w
          ≡ some (w', tasks))
        × IsSent w' tasks
  unfolding manage_send add_sent add_message recipients_of
  manage_send-IsSent predict pbat =
      let (m', w1) = add_sent predict m pbat w in
      let (w', tasks, es, e, c, r) =
        send_each-Copies net m' (recipients_of w.model)
          (recipients-HasEndpoint w.model.localpeer.uuid w.model.peers) w1 in
      (
        w',
        tasks,
        e,
        record {
          deliveries = _;
          addressed = deliveries_to-Addressed predict pbat _ _ (recipients_of w.model) _;
          errors = es;
          copies = c;
          messages = ap (λ x. x.messages) r.model;
          strategy = ap (λ x. x.sort_strategy) r.model;
          rooms = ap (λ x. x.rooms) r.model;
          events = λ j.
              r.events j
              ∙ ap (λ q. q ++ heard (count j w.model.observers) es)
                  (notify_each-Hears (sent_event "Message sent.") w.model.observers w.handlers
                    j).events
              ∙ append_assoc (w.handlers j).events _ _;
        },
      )
