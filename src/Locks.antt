-- ===== src/Locks.antt =====
-- The locks that the threads of a node take, in the order in which they take and release them:
-- src/utils/socket.rs, src/app.rs, src/layout, src/utils/prediction_config.rs and src/main.rs. A guard
-- releases its lock at the end of its scope, so that the lock of an inner scope is released first. The
-- reading of the nodes' map, which many may do at a time, counts as if it kept the others out.
pub mod Threads
pub mod Nested
pub mod Waits
pub mod Exclusion
pub mod Free
use dtchat.Prelude.{
  flat_map, ℕ, Bool, false, true, List, [], ◌∷◌, ◌++◌, Option, none, some, if◌then◌else◌,
}
use dtchat.Proto.{DeserializedMessage, chat_message, ack}
use dtchat.Panel.{RoomView, table, graph, list, split}
use dtchat.App.{NavigationItems, rooms, contacts}

-- The controller, a chat model, the two locks of the prediction, and an event queue, by its handle.
pub data Lock : Type 0 where
  controller : Lock
  model : (o : ℕ) → Lock
  nodes router : Lock
  queue : (h : ℕ) → Lock

pub data Act : Type 0 where
  acquire release : Lock → Act

-- `body` under a guard of the lock.
abbrev pub locked : Lock → List Act → List Act
locked l body = acquire l ∷ body ++ release l ∷ []

-- `ChatModel::notify_observers`, to the queues with these handles.
abbrev pub notify_locks : List ℕ → List Act
notify_locks handles = flat_map (λ h. locked (queue h) []) handles

-- `predict`, by what the names of the two nodes lead to.
unfoldable pub predict_locks : Option ℕ → Option ℕ → List Act
predict_locks none dest = locked nodes []
predict_locks (some source) none = locked nodes [] ++ locked nodes []
predict_locks (some source) (some dest) = locked nodes [] ++ (locked nodes [] ++ locked router [])

-- A node: the models that its controller's observers are, and the queues that observe each model.
pub record Shared : Type 0 where
  pub models : List ℕ
  pub queues : ℕ → List ℕ

module _ (s : Shared) where
  -- `on_socket_event` of `Mutex<ChatModel>`
  abbrev pub on_socket_event_locks : ℕ → List Act
  on_socket_event_locks o = locked (model o) (notify_locks (s.queues o))

  -- `on_ack_received` of `Mutex<ChatModel>`: the queues hear of an ACK that marks a delivery.
  abbrev pub on_ack_received_locks : Bool → ℕ → List Act
  on_ack_received_locks marks o = locked (model o) (if marks then notify_locks (s.queues o) else [])

  -- The task of a payload, of either listener, by what is decoded.
  unfoldable pub receive_locks :
      {T : Type 0} → (ℕ → Bool) → Option (DeserializedMessage T) → List Act
  receive_locks marks none = locked controller []
  receive_locks marks (some (chat_message m)) =
      locked controller (flat_map on_socket_event_locks s.models)
  receive_locks marks (some (ack message_uuid is_read ack_time acker_uuid)) =
      locked controller (flat_map (λ o. on_ack_received_locks (marks o) o) s.models)

  -- An error that the observers of a model hear of.
  abbrev pub report_locks : ℕ → List Act
  report_locks o = locked (model o) (notify_locks (s.queues o))

  -- `manage_send`: for each recipient the node that its name leads to, where there is a prediction to
  -- ask for, and whether a socket is made.
  unfoldable pub manage_send_locks : ℕ → Bool → Option ℕ → List (Option ℕ × Bool) → List Act
  unfolding predict_locks
  manage_send_locks o asks source recipients =
      locked (model o) (
        flat_map (λ (dest, made). if asks then predict_locks source dest else []) recipients
        ++ notify_locks (s.queues o))
      ++ flat_map (λ (dest, made). if made then [] else report_locks o) recipients

  -- The task of a copy, by whether it is sent.
  abbrev pub send_task_locks : ℕ → Bool → List Act
  send_task_locks o is_sent = if is_sent then [] else report_locks o

-- The views of the window, over the model `o` and the queue `h`.
module _ (o h : ℕ) where
  abbrev pub message_settings_bar_locks : List Act
  message_settings_bar_locks = locked (model o) []

  abbrev pub message_forge_locks : List Act
  message_forge_locks = locked (model o) []

  -- `MessagePrompt::show`, by whether a message is sent.
  abbrev pub message_prompt_locks : Bool → List Act
  message_prompt_locks sending =
      locked (queue h) [] ++ (if sending then locked (model o) [] else [])

  abbrev pub message_list_locks : List Act
  message_list_locks = locked (model o) []

  -- `MessageGraphView::show`, which drops the guard of the model before it asks for a repaint.
  abbrev pub message_graph_locks : List Act
  message_graph_locks = locked (model o) [] ++ locked (queue h) []

  abbrev pub view_locks : RoomView → List Act
  view_locks table = []
  view_locks graph = message_graph_locks
  view_locks list = message_list_locks
  view_locks split = message_list_locks ++ message_graph_locks

  -- `display`, where it does not panic.
  unfoldable pub display_locks : NavigationItems → RoomView → Bool → List Act
  display_locks rooms view sending =
      message_settings_bar_locks
      ++ (message_forge_locks ++ (message_prompt_locks sending ++ view_locks view))
  display_locks contacts view sending = []

-- What the threads and tasks of a node do: `main` registers the model and the handler; payloads come
-- in; the user's frames are drawn, and what they send goes out.
pub data Job (T : Type 0) : Type 0 where
  adds_model : Job T
  adds_handler : (o : ℕ) → Job T
  receives : (marks : ℕ → Bool) (decoded : Option (DeserializedMessage T)) → Job T
  draws : (o h : ℕ) (item : NavigationItems) (view : RoomView) (sending : Bool) → Job T
  sends : (o : ℕ) (asks : Bool) (source : Option ℕ) (recipients : List (Option ℕ × Bool)) → Job T
  sends_copy : (o : ℕ) (is_sent : Bool) → Job T

unfoldable pub locks_of : {T : Type 0} → Shared → Job T → List Act
unfolding receive_locks display_locks manage_send_locks
locks_of s adds_model = locked controller []
locks_of s (adds_handler o) = locked (model o) []
locks_of s (receives marks decoded) = receive_locks s marks decoded
locks_of s (draws o h item view sending) = display_locks o h item view sending
locks_of s (sends o asks source recipients) = manage_send_locks s o asks source recipients
locks_of s (sends_copy o is_sent) = send_task_locks s o is_sent
