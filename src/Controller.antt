-- ===== src/Controller.antt =====
-- `DefaultSocketController` of src/utils/socket.rs with src/utils/ack.rs: what a node does with the
-- bytes that arrive, and the ACKs that it sends back.
pub mod Endpoints
pub mod Handling
pub mod Transports
pub mod Steps
pub mod AckTask
use Prim.Native.String.{String}
use mathlib.Core.Option
use dtchat.Prelude.{
  ℕ, Bool, true, false, not, ◌&&◌, ◌||◌, List, [], ◌∷◌, ◌++◌, Option, none, some, ℕ_eq, String_eq,
  ◌==◌, if◌then◌else◌, ◌or_else◌, find, take,
}
use dtchat.Text.{starts_with}
use dtchat.Time.{Instant}
use dtchat.Endpoint.{Endpoint, udp, tcp, bp, is_valid}
use dtchat.Config.{Peer}
use dtchat.Message.{ChatMessage}
use dtchat.Proto.{
  Codec, ProtoMessage, delivery, DeserializedMessage, chat_message, ack, deserialize_message,
}
use dtchat.Socket.{Net, GenericSocket, Result, ok, err, new_socket}
use dtchat.Model.{World, on_socket_event, on_ack_received}

-- The observers are shared; the controller holds their handles.
pub record SocketController : Type 0 where
  pub observers : List ℕ
  pub local_peer : Option Peer
  pub peers : List Peer

unfoldable pub new_controller : SocketController
new_controller = record { observers = []; local_peer = none; peers = [] }

unfoldable pub set_peers : List Peer → SocketController → SocketController
set_peers peers c = record c { peers = peers }

unfoldable pub set_local_peer : Peer → SocketController → SocketController
set_local_peer peer c = record c { local_peer = some peer }

unfoldable pub add_socket_observer : ℕ → SocketController → SocketController
add_socket_observer o c = record c { observers = c.observers ++ o ∷ [] }

-- The closure `family_match`.
abbrev pub same_family : Endpoint → Endpoint → Bool
same_family (bp a) (bp b) = true
same_family (tcp a) (tcp b) = true
same_family (udp a) (udp b) = true
same_family _ _ = false

-- The closure `by_kind`: the kind of an endpoint against the two flags.
abbrev pub kind_wanted : Bool → Bool → Endpoint → Bool
kind_wanted want_bp want_tcp (bp a) = want_bp
kind_wanted want_bp want_tcp (tcp a) = want_tcp
kind_wanted want_bp want_tcp (udp a) = not want_bp && not want_tcp

module _ (is_addr : String → Bool) where
  pub by_kind : Bool → Bool → List Endpoint → Option Endpoint
  by_kind want_bp want_tcp eps =
      find (λ ep. is_valid is_addr ep && kind_wanted want_bp want_tcp ep) eps

  -- The search by preference, when no endpoint is of the family that the message came by.
  pub by_preference : List Endpoint → Option Endpoint
  by_preference eps =
      by_kind true false eps
      or_else (by_kind false true eps
          or_else (by_kind false false eps or_else find (is_valid is_addr) eps))

  unfoldable pub choose_ack_endpoint : Peer → Option Endpoint → Option Endpoint
  choose_ack_endpoint sender none = by_preference sender.endpoints
  choose_ack_endpoint sender (some received) =
      find (same_family received) sender.endpoints or_else by_preference sender.endpoints

-- What leaves the node: the bytes that are given to a socket.
pub record Outgoing : Type 0 where
  pub socket : GenericSocket
  pub bytes : List ℕ

-- What the environment decides while a message is handled: the two readings of the clock and the
-- uuid that is generated.
pub record Draws (T : Type 0) : Type 0 where
  pub rx_time : T
  pub ack_time : T
  pub ack_uuid : String

-- The code outside the program: the crates' codecs and the system's sockets.
pub record Env : Type 0 where
  pub codec : Codec
  pub net : Net

-- The endpoint that the datagram listener reports, by its own address.
abbrev pub datagram_endpoint : String → Endpoint
datagram_endpoint address =
    if starts_with address "ipn:" || starts_with address "dtn:" then bp address else udp address

abbrev pub buffer_size : ℕ
buffer_size = 1024

module _ {T : Type 0} ⦃i : Instant T⦄ where
  -- `create_ack_message` of src/utils/ack.rs.
  unfoldable pub create_ack_message : Draws T → ChatMessage T → String → Bool → ProtoMessage
  create_ack_message d m local_peer_uuid is_read = record {
    uuid = d.ack_uuid;
    sender_uuid = local_peer_uuid;
    timestamp = i.millis d.ack_time;
    room_uuid = "default";
    content = some (delivery (record { message_uuid = m.uuid; received = true; read = is_read }));
  }

  -- `send_ack_message`, up to the call of the socket.
  unfoldable pub send_ack_message :
      Codec → Draws T → GenericSocket → ChatMessage T → String → Bool → Outgoing
  send_ack_message c d socket m local_peer_uuid is_read = record {
    socket = socket;
    bytes = c.base64_encode (c.proto_encode (create_ack_message d m local_peer_uuid is_read));
  }

  module _ (env : Env) (d : Draws T) (c : SocketController) where
    -- The end of `send_ack_if_needed_with_endpoint_info`: an ACK through a new socket.
    pub ack_through : ChatMessage T → Peer → Result GenericSocket → Option Outgoing
    ack_through m local_peer (err e) = none
    ack_through m local_peer (ok socket) =
        some (send_ack_message env.codec d socket m local_peer.uuid false)

    -- With the local peer and the sender known.
    pub ack_between : ChatMessage T → Option Endpoint → Peer → Option Peer → Option Outgoing
    ack_between m on local_peer none = none
    ack_between m on local_peer (some sender) =
        elim (choose_ack_endpoint env.net.is_addr sender on) [
          | none ↦ none
          | some target ↦ ack_through m local_peer (new_socket env.net target)
        ]

    unfoldable pub send_ack_if_needed : ChatMessage T → Option Endpoint → Option Outgoing
    unfolding ack_between ack_through
    send_ack_if_needed m on = if starts_with m.text "[ACK]" then none else elim c.local_peer [
      | none ↦ none
      | some local_peer ↦ ack_between m on local_peer (find (λ p. p.uuid == m.sender.uuid) c.peers)
    ]

-- The trait of what observes a controller.
pub record SocketObserver (T O : Type 0) : Type 0 where
  pub on_socket_event : ChatMessage T → O → O
  pub on_ack_received : (message_uuid acker_uuid : String) (is_read : Bool) (ack_time : T) → O → O

-- A chat model observes.
instance abbrev pub model_observer : {T P : Type 0} ⦃i : Instant T⦄ → SocketObserver T (World T P)
model_observer = record { on_socket_event = on_socket_event; on_ack_received = on_ack_received }

-- The chat models that observe the controllers, by their handles.
abbrev pub Models : Type 0 → Type 0 → Type 0
Models T P = ℕ → World T P

-- A loop over the observers.
unfoldable pub each_observer : {O : Type 0} → (O → O) → List ℕ → (ℕ → O) → (ℕ → O)
each_observer f [] observed = observed
each_observer f (o ∷ os) observed =
    each_observer f os (λ j. if j == o then f (observed j) else observed j)

module _ {T O : Type 0} ⦃ob : SocketObserver T O⦄ where
  unfoldable pub handle_ack_received :
      SocketController → String → String → Bool → T → (ℕ → O) → (ℕ → O)
  handle_ack_received c message_uuid acker_uuid is_read ack_time observed =
      each_observer (ob.on_ack_received message_uuid acker_uuid is_read ack_time) c.observers
        observed

  -- The controller's `notify_observers`.
  unfoldable pub notify_models : SocketController → ChatMessage T → (ℕ → O) → (ℕ → O)
  notify_models c m observed = each_observer (ob.on_socket_event m) c.observers observed

module _ {T O : Type 0} ⦃i : Instant T⦄ ⦃ob : SocketObserver T O⦄ where
  module _ (env : Env) (d : Draws T) (c : SocketController) where
    -- What the datagram listener does with a decoded message: the ACK that is sent, if any, and the
    -- observers.
    pub dispatch :
        Option Endpoint → Option (DeserializedMessage T) → (ℕ → O) → Option Outgoing × (ℕ → O)
    dispatch on none observed = (none, observed)
    dispatch on (some (chat_message m)) observed =
        (send_ack_if_needed env d c m on, notify_models c m observed)
    dispatch on (some (ack message_uuid is_read ack_time acker_uuid)) observed =
        (none, handle_ack_received c message_uuid acker_uuid is_read ack_time observed)

    unfoldable pub handle_payload : Option Endpoint → List ℕ → (ℕ → O) → Option Outgoing × (ℕ → O)
    unfolding dispatch
    handle_payload on payload observed =
        dispatch on (deserialize_message env.codec d.rx_time payload c.peers) observed

    -- One round of the datagram listener; the read buffer holds 1024 bytes, and the system drops the
    -- rest of a longer datagram.
    unfoldable pub handle_datagram : String → List ℕ → (ℕ → O) → Option Outgoing × (ℕ → O)
    handle_datagram address datagram observed =
        handle_payload (some (datagram_endpoint address)) (take buffer_size datagram) observed

    -- What `handle_tcp_connection` does with a decoded message, which it spells out for itself.
    pub dispatch_stream :
        Option Endpoint → Option (DeserializedMessage T) → (ℕ → O) → Option Outgoing × (ℕ → O)
    dispatch_stream tcp_endpoint (some (chat_message message)) observed =
        let ack = send_ack_if_needed env d c message tcp_endpoint in
        (ack, notify_models c message observed)
    dispatch_stream tcp_endpoint (some (ack uuid is_read time acker)) observed =
        (none, handle_ack_received c uuid acker is_read time observed)
    dispatch_stream tcp_endpoint none observed = (none, observed)

    -- `handle_tcp_connection`, when the stream was read to its end; `peer_addr` is the address of
    -- the other side, where the system has it.
    unfoldable pub handle_tcp_connection :
        Option String → List ℕ → (ℕ → O) → Option Outgoing × (ℕ → O)
    unfolding dispatch_stream
    handle_tcp_connection peer_addr buffer observed =
        let tcp_endpoint = Option.map tcp peer_addr in
        dispatch_stream tcp_endpoint (deserialize_message env.codec d.rx_time buffer c.peers)
          observed
