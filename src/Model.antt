-- ===== src/Model.antt =====
-- src/app.rs: the chat model behind its mutex, the event queues that observe it, and the calls that
-- the transport and the user interface make. The drawing (`eframe::App`) is left out.
pub mod Order
pub mod Sorted
pub mod Runs
pub mod Events
pub mod Acks
pub mod Justified
pub mod History
use Prim.Native.String
use Prim.Native.String.{String}
use dtchat.Prelude.{
  ℕ, ◌+◌, Bool, true, false, List, [], ◌∷◌, ◌++◌, Option, none, some, ℕ_eq, String_eq, ◌==◌,
  if◌then◌else◌,
}
use dtchat.Time.{Instant}
use dtchat.Config.{Peer, Room}
use dtchat.Message.{ChatMessage, mark_ack}
use dtchat.Slice.{index, binary_search_by, insert, sort_by}
use Order.{SortStrategy, standard, strategy_cmp}

pub data AppEvent : Type 0 where
  error sent received : String → AppEvent

pub data MessageDirection : Type 0 where
  sent received : MessageDirection

-- `EventHandler`: the queue that the prompt drains. Of the `egui` context only the number of
-- repaints that were asked for is kept.
pub record EventHandler : Type 0 where
  pub events : List AppEvent
  pub repaints : ℕ

-- `EventHandler::new`, over a context that nothing has asked to repaint.
pub new_handler : EventHandler
new_handler = record { events = []; repaints = 0 }

-- `EventHandler::on_event`
unfoldable pub on_event : AppEvent → EventHandler → EventHandler
on_event e h = record h { repaints = h.repaints + 1; events = h.events ++ e ∷ [] }

-- `ChatModel`. An observer is shared (`Arc<Mutex<..>>`): the model holds its handle. `P` is the
-- type of prediction configurations.
pub record ChatModel (T P : Type 0) : Type 0 where
  pub sort_strategy : SortStrategy
  pub localpeer : Peer
  pub peers : List Peer
  pub rooms : List Room
  pub messages : List (ChatMessage T)
  pub observers : List ℕ
  pub prediction_config : Option P

-- The model and the handlers that its observers' handles lead to.
pub record World (T P : Type 0) : Type 0 where
  pub model : ChatModel T P
  pub handlers : ℕ → EventHandler

-- One observer takes an event.
abbrev pub deliver : AppEvent → ℕ → (ℕ → EventHandler) → (ℕ → EventHandler)
deliver e o handlers = λ j. if j == o then on_event e (handlers j) else handlers j

-- The loop of `notify_observers`.
pub notify_each : AppEvent → List ℕ → (ℕ → EventHandler) → (ℕ → EventHandler)
unfolding on_event
notify_each e [] handlers = handlers
notify_each e (o ∷ os) handlers = notify_each e os (deliver e o handlers)

module _ {T : Type 0} where
  abbrev pub event_of : ChatMessage T → MessageDirection → AppEvent
  event_of m sent = sent "Message sent."
  event_of m received = received (String.◌++◌ "New message from " m.sender.name)

  -- The loop of `update_message_with_ack`: the first message with the uuid decides.
  unfoldable pub ack_first :
      String → String → T → List (ChatMessage T) → List (ChatMessage T) × Bool
  unfolding mark_ack
  ack_first message_uuid acker_uuid ack_time [] = ([], false)
  ack_first message_uuid acker_uuid ack_time (m ∷ ms) =
      if m.uuid == message_uuid
      then (let (m', done) = mark_ack m acker_uuid ack_time in (m' ∷ ms, done))
      else (let (ms', done) = ack_first message_uuid acker_uuid ack_time ms in (m ∷ ms', done))

module _ {T : Type 0} ⦃i : Instant T⦄ where
  -- Where `add_message` inserts, and the list that it leaves.
  unfoldable pub inserted :
      SortStrategy → ChatMessage T → List (ChatMessage T) → List (ChatMessage T)
  unfolding strategy_cmp binary_search_by insert
  inserted strat m ms = insert (index (binary_search_by (λ msg. strategy_cmp strat msg m) ms)) m ms

module _ {T P : Type 0} where
  -- `ChatModel::new`
  unfoldable pub new_model : List Peer → Peer → List Room → Option P → ChatModel T P
  new_model peers localpeer rooms prediction_config = record {
    sort_strategy = standard;
    localpeer = localpeer;
    peers = peers;
    rooms = rooms;
    messages = [];
    observers = [];
    prediction_config = prediction_config;
  }

  unfoldable pub add_observer : ℕ → ChatModel T P → ChatModel T P
  add_observer o m = record m { observers = m.observers ++ o ∷ [] }

  unfoldable pub notify_observers : AppEvent → World T P → World T P
  unfolding notify_each
  notify_observers e w = record w { handlers = notify_each e w.model.observers w.handlers }

  -- `update_message_with_ack`, which does not read `is_read`.
  unfoldable pub update_message_with_ack :
      String → String → Bool → T → ChatModel T P → ChatModel T P × Bool
  unfolding ack_first
  update_message_with_ack message_uuid acker_uuid is_read ack_time m =
      let (ms, done) = ack_first message_uuid acker_uuid ack_time m.messages in
      (record m { messages = ms }, done)

  -- `on_ack_received` of the model as an observer of the socket.
  unfoldable pub on_ack_received : String → String → Bool → T → World T P → World T P
  unfolding update_message_with_ack notify_observers
  on_ack_received message_uuid acker_uuid is_read ack_time w =
      let (m, done) = update_message_with_ack message_uuid acker_uuid is_read ack_time w.model in
      if done
      then notify_observers (sent "Message status updated") (record w { model = m })
      else record w { model = m }

module _ {T P : Type 0} ⦃i : Instant T⦄ where
  unfoldable pub add_message : ChatMessage T → MessageDirection → World T P → World T P
  unfolding inserted notify_observers
  add_message m direction w = notify_observers (event_of m direction) (record w {
    model = record (w.model) { messages = inserted w.model.sort_strategy m w.model.messages };
  })

  unfoldable pub sort_messages : SortStrategy → ChatModel T P → ChatModel T P
  unfolding sort_by strategy_cmp
  sort_messages strat m = record m {
    sort_strategy = strat;
    messages = sort_by (strategy_cmp strat) m.messages;
  }

  -- `on_socket_event` of the model as an observer of the socket.
  unfoldable pub on_socket_event : ChatMessage T → World T P → World T P
  unfolding add_message
  on_socket_event m w = add_message m received w
