-- ===== src/Prompt.antt =====
-- Sending from the prompt, src/layout/rooms/message_prompt.rs: the recipients and the deliveries of a
-- message, the copy for each recipient, and the events that the prompt shows. The prediction of
-- arrivals is an argument, which Prediction fills.
pub mod Copies
pub mod Sends
pub mod Acked
pub mod Answered
pub mod Tasks
use Prim.Native.String
use Prim.Native.String.{String}
use dtchat.Prelude.{
  ℕ, Bool, true, false, not, ◌&&◌, List, [], ◌∷◌, ◌++◌, Option, none, some, String_eq, ◌==◌,
  if◌then◌else◌, filter,
}
use dtchat.Text.{strip_prefix, before, byte_len}
use dtchat.Time.{Instant}
use dtchat.Endpoint.{Endpoint, udp, tcp, bp}
use dtchat.Config.{Peer}
use dtchat.Message.{ChatMessage, Delivery, sent, tx_time}
use dtchat.Proto.{Codec, serialize_message}
use dtchat.Socket.{Net, GenericSocket, Result, ok, err, new_socket, SysCall, send}
use dtchat.Model.{
  AppEvent, EventHandler, MessageDirection, ChatModel, World, add_message, notify_observers,
}

-- `extract_ion_id_from_bp_address`
unfoldable pub extract_ion_id : String → String
unfolding strip_prefix before
extract_ion_id bp_address = elim (strip_prefix bp_address "ipn:") [
  | none ↦ bp_address
  | some after_ipn ↦ elim (before b'.' after_ipn) [ none ↦ bp_address | some id ↦ id ]
]

-- The loop of `ion_id_of`, with the uuid to fall back on.
first_ion_id : String → List Endpoint → String
unfolding extract_ion_id
first_ion_id uuid [] = uuid
first_ion_id uuid (bp a ∷ eps) = extract_ion_id a
first_ion_id uuid (tcp a ∷ eps) = first_ion_id uuid eps
first_ion_id uuid (udp a ∷ eps) = first_ion_id uuid eps

ion_id_of : Peer → String
unfolding first_ion_id
ion_id_of p = first_ion_id p.uuid p.endpoints

abbrev pub is_nil {ℓ} : {A : Type ℓ} → List A → Bool
is_nil [] = true
is_nil (x ∷ xs) = false

-- The filter of `manage_send`: everyone but the local peer who has an endpoint.
abbrev pub is_recipient : String → Peer → Bool
is_recipient local_uuid p = not (p.uuid == local_uuid) && not (is_nil p.endpoints)

abbrev pub init_failed : String → AppEvent
init_failed peer_name =
    AppEvent.error (String.◌++◌ "Socket init failed for " (String.◌++◌ peer_name "."))

abbrev pub send_failed : String → String → AppEvent
send_failed peer_name e =
    AppEvent.error (String.◌++◌ "Socket error to " (String.◌++◌ peer_name (String.◌++◌ ": " e)))

-- A copy that a task will send.
pub record SendTask (T : Type 0) : Type 0 where
  pub socket : GenericSocket
  pub message : ChatMessage T
  pub peer_name : String

-- A prediction for one recipient: the configuration routes, which changes its state.
abbrev pub Predict : Type 0 → Type 0 → Type 0
Predict T P = P → (source dest : String) → (size : ℕ) → P × Option T

abbrev pub delivery_to : {T : Type 0} → Peer → Option T → Delivery T
delivery_to peer predicted_arrival = record {
  peer_uuid = peer.uuid;
  peer_name = peer.name;
  predicted_arrival = predicted_arrival;
  acked_at = none;
}

module _ {T P : Type 0} where
  unfoldable pub recipients_of : ChatModel T P → List Peer
  recipients_of m = filter (is_recipient m.localpeer.uuid) m.peers

  -- `predicted_arrival`, and the configuration afterwards.
  predict_arrival : Predict T P → Bool → String → ℕ → Option P → Peer → Option P × Option T
  unfolding ion_id_of
  predict_arrival predict false source size config peer = (config, none)
  predict_arrival predict true source size none peer = (none, none)
  predict_arrival predict true source size (some cfg) peer =
      let (cfg', arrival) = predict cfg source (ion_id_of peer) size in (some cfg', arrival)

  -- The deliveries, one for each recipient, in order.
  pub deliveries_to :
      Predict T P → Bool → String → ℕ → Option P → List Peer → Option P × List (Delivery T)
  unfolding predict_arrival
  deliveries_to predict pbat source size config [] = (config, [])
  deliveries_to predict pbat source size config (p ∷ ps) =
      let (config', arrival) = predict_arrival predict pbat source size config p in
      let (config'', ds) = deliveries_to predict pbat source size config' ps in
      (config'', delivery_to p arrival ∷ ds)

  -- What is made of the socket: a task, or an error that the observers hear of.
  pub spawn_or_report :
      ChatMessage T → String → Result GenericSocket → World T P → World T P × List (SendTask T)
  unfolding notify_observers
  spawn_or_report m peer_name (ok socket) w =
      (w, record { socket = socket; message = m; peer_name = peer_name } ∷ [])
  spawn_or_report m peer_name (err e) w = (notify_observers (init_failed peer_name) w, [])

  -- `send_to_peer`, which panics (`none`) at a receiver without an endpoint.
  pub send_to_peer : Net → ChatMessage T → Peer → World T P → Option (World T P × List (SendTask T))
  unfolding spawn_or_report
  send_to_peer net m receiver w = elim receiver.endpoints [
    | [] ↦ none
    | endpoint ∷ eps ↦ some (spawn_or_report m receiver.name (new_socket net endpoint) w)
  ]

  -- The loop over the recipients.
  pub send_each :
      Net → ChatMessage T → List Peer → World T P → Option (World T P × List (SendTask T))
  unfolding send_to_peer
  send_each net m [] w = some (w, [])
  send_each net m (p ∷ ps) w = elim (send_to_peer net m p w) [
    | none ↦ none
    | some (w', tasks) ↦ elim (send_each net m ps w') [
      | none ↦ none
      | some (w'', more) ↦ some (w'', tasks ++ more)
    ]
  ]

  module _ ⦃i : Instant T⦄ where
    -- The part of `manage_send` that holds the lock: the message as it is added, and the model.
    unfoldable pub add_sent :
        Predict T P → ChatMessage T → Bool → World T P → ChatMessage T × World T P
    unfolding recipients_of deliveries_to ion_id_of byte_len tx_time add_message
    add_sent predict m pbat w =
        let (config, deliveries) =
          deliveries_to predict pbat (ion_id_of w.model.localpeer) (byte_len m.text)
            w.model.prediction_config (recipients_of w.model) in
        let m' = record m { shipment_status = sent (tx_time m.shipment_status) deliveries } in
        let w' = record w { model = record (w.model) { prediction_config = config } } in
        (m', add_message m' MessageDirection.sent w')

    -- `manage_send`, with the tasks that it spawns; `none` is a panic.
    unfoldable pub manage_send :
        Net
        → Predict T P
        → ChatMessage T
        → Bool
        → World T P
        → Option (World T P × List (SendTask T))
    unfolding add_sent send_each recipients_of
    manage_send net predict m pbat w =
        let (m', w') = add_sent predict m pbat w in send_each net m' (recipients_of w.model) w'

    -- A spawned task: `send_message`, and what the observers hear if the system refuses a call. `works`
    -- says which calls the system grants, `e` is the text of its error.
    pub run_task :
        Codec → (SysCall → Bool) → String → SendTask T → World T P → List SysCall × World T P
    unfolding send notify_observers serialize_message
    run_task codec works e task w =
        let (calls, done) = send works task.socket (serialize_message codec task.message) in
        let failed = notify_observers (send_failed task.peer_name e) w in
        (calls, if done then w else failed)
