-- ===== src/Network/Carried.antt =====
-- What comes in at the listeners of src/utils/socket.rs when a message of
-- src/layout/rooms/message_prompt.rs and its ACKs go from endpoint to endpoint.
use Prim.Native.String.{String}
use mathlib.Core.Option
use mathlib.Core.List.{Mem}
use dtchat.Prelude.{ℕ, ◌≤◌, length, ◌≡◌, false, List, [], Option, some, get_elem?, ℕ_eq, ◌==◌}
use dtchat.Time.{Instant}
use dtchat.Endpoint.{Endpoint, udp, tcp, bp}
use dtchat.Config.{Peer}
use dtchat.Message.{ChatMessage}
use dtchat.Proto.{ProtoMessage, find_peer_by_id, construct_proto_message}
use dtchat.Proto.RoundTrip.{OnWire}
use dtchat.Socket.{GenericSocket, ok, new_socket}
use dtchat.Controller.{
  model_observer, SocketController, Models, handle_payload, handle_datagram, handle_tcp_connection,
  Outgoing, Draws, Env, buffer_size, datagram_endpoint, choose_ack_endpoint, create_ack_message,
}
use dtchat.Controller.Transports.{handle_datagram-whole, handle_tcp_connection-whole}
use dtchat.Controller.Handling.{IsAnswer}
use dtchat.Prompt.{Predict, SendTask}
use dtchat.Network.{
  Network, payload_of, ack_of, Step, posts, arrives, is_answered, Reaches, start, next,
}

-- The listener of the endpoint takes all of the bytes, and says that they came by `on`.
abbrev TakesWhole : Endpoint → Option Endpoint → List ℕ → Type 0
TakesWhole (udp a) on bytes = (on ≡ some (datagram_endpoint a)) × (length bytes ≤ buffer_size)
TakesWhole (bp a) on bytes = (on ≡ some (datagram_endpoint a)) × (length bytes ≤ buffer_size)
TakesWhole (tcp a) on bytes = (peer_addr : Option String) × (on ≡ Option.map tcp peer_addr)

-- Bytes that are sent to an endpoint come whole to a node that listens on it.
abbrev pub Hears : (ℕ → List Endpoint) → ℕ → Endpoint → Option Endpoint → List ℕ → Type 0
Hears listens k e on bytes = Mem e (listens k) × TakesWhole e on bytes

-- What the listener of the endpoint does with the bytes is what a payload does.
module _ {T P : Type 0} ⦃i : Instant T⦄ (env : Env) (d : Draws T) (c : SocketController) where
  abbrev pub IsHandled : Endpoint → Option Endpoint → List ℕ → Models T P → Type 0
  IsHandled (udp a) on bytes models =
      handle_datagram env d c a bytes models ≡ handle_payload env d c on bytes models
  IsHandled (bp a) on bytes models =
      handle_datagram env d c a bytes models ≡ handle_payload env d c on bytes models
  IsHandled (tcp a) on bytes models =
      (peer_addr : Option String) × (handle_tcp_connection env d c peer_addr bytes models
        ≡ handle_payload env d c on bytes models)

  pub Hears-IsHandled :
      (listens : ℕ → List Endpoint) (k : ℕ) (e : Endpoint) (on : Option Endpoint) (bytes : List ℕ)
      (models : Models T P)
      → Hears listens k e on bytes
      → IsHandled e on bytes models
  Hears-IsHandled listens k (udp a) on bytes models (here, (is, fits)) =
      rw is (handle_datagram-whole env d c a bytes models fits)
  Hears-IsHandled listens k (bp a) on bytes models (here, (is, fits)) =
      rw is (handle_datagram-whole env d c a bytes models fits)
  Hears-IsHandled listens k (tcp a) on bytes models (here, (peer_addr, is)) =
      (peer_addr, rw is (handle_tcp_connection-whole env d c peer_addr bytes models))

module _ {T : Type 0} ⦃i : Instant T⦄ (env : Env) (controllers : ℕ → SocketController)
    (listens : ℕ → List Endpoint) (tasks : List (SendTask T)) (n : ℕ) (m : ChatMessage T) where
  -- A node other than `n` that would acknowledge the message as the peer: a task sends a copy to an
  -- endpoint that it listens on, it has that uuid and knows the sender, its ACK goes to an endpoint that
  -- `n` listens on, the crates work for the ACK, and both fit into the buffers of their listeners.
  pub record CanAnswer (uuid : String) : Type 0 where
    pub node : ℕ
    pub elsewhere : (n == node) ≡ false
    pub on : Option Endpoint
    pub draws : Draws T
    pub task : SendTask T
    pub number : ℕ
    pub is_task : get_elem? tasks number ≡ some task
    pub comes :
        Hears listens node task.socket.eidpoint on
          (payload_of env.codec (construct_proto_message m) [])
    pub me : Peer
    pub named : me.uuid ≡ uuid
    pub is_local : (controllers node).local_peer ≡ some me
    pub sender : Peer
    pub is_known : find_peer_by_id (controllers node).peers m.sender.uuid ≡ some sender
    pub target : Endpoint
    pub is_chosen : choose_ack_endpoint env.net.is_addr sender on ≡ some target
    pub socket : GenericSocket
    pub opens : new_socket env.net target ≡ ok socket
    pub time : T
    pub in_range : i.of_millis (i.millis draws.ack_time) ≡ some time
    pub on_wire : OnWire env.codec (create_ack_message draws m me.uuid false)
    pub on_back : Option Endpoint
    pub comes_back :
        Hears listens n socket.eidpoint on_back
          (payload_of env.codec (create_ack_message draws m me.uuid false) [])

-- The message is on the wire.
abbrev pub IsFlying : {T P : Type 0} ⦃i : Instant T⦄ → ChatMessage T → Network T P → Type 0
IsFlying m s = (k : ℕ) × (get_elem? s.wire k ≡ some (construct_proto_message m))

module _ {T P : Type 0} ⦃i : Instant T⦄ (env : Env) (controllers : ℕ → SocketController)
    (predict : Predict T P) (listens : ℕ → List Endpoint) (tasks : List (SendTask T)) where
  -- What arrives is a copy that one of the tasks sends to an endpoint of the node, whose listener
  -- handles it.
  pub record IsCopy (models : Models T P) (k : ℕ) (d : Draws T) (on : Option Endpoint)
      (p : ProtoMessage) (rest : List ℕ) : Type 0 where
    pub task : SendTask T
    pub number : ℕ
    pub is_task : get_elem? tasks number ≡ some task
    pub is_copy : p ≡ construct_proto_message task.message
    pub comes : Hears listens k task.socket.eidpoint on (payload_of env.codec p rest)
    pub handled :
        IsHandled env d (controllers k) task.socket.eidpoint on (payload_of env.codec p rest) models

  -- What arrives is the ACK of a node, which it sends to an endpoint of the node where it arrives,
  -- whose listener handles it.
  pub record IsReply (models : Models T P) (k : ℕ) (d : Draws T) (on : Option Endpoint)
      (p : ProtoMessage) (rest : List ℕ) : Type 0 where
    pub node : ℕ
    pub draws : Draws T
    pub by : Option Endpoint
    pub payload : List ℕ
    pub outgoing : Outgoing
    pub answer : IsAnswer env draws (controllers node) by payload outgoing
    pub is_ack : p ≡ ack_of draws answer
    pub comes : Hears listens k outgoing.socket.eidpoint on (payload_of env.codec p rest)
    pub handled :
        IsHandled env d
          (controllers k)
          outgoing.socket.eidpoint
          on
          (payload_of env.codec p rest)
          models

  -- Nothing but such copies, each answered, and such ACKs comes in.
  abbrev pub IsCarried : (s s' : Network T P) → Step env controllers predict s s' → Type 0
  IsCarried s s' (posts k m pbat w ts e) = ⊥
  IsCarried s s' (arrives k d on j p rest found stops e) = IsReply s.models k d on p rest
  IsCarried s s' (is_answered k d on j p rest o found stops e) = IsCopy s.models k d on p rest

  abbrev pub AreCarried : (s s' : Network T P) → Reaches env controllers predict s s' → Type 0
  AreCarried s s' start = Unit
  AreCarried s s' (next t v r step) = AreCarried s t r × IsCarried t v step

module _ {T P : Type 0} ⦃i : Instant T⦄ (env : Env) (controllers : ℕ → SocketController)
    (predict : Predict T P) (listens : ℕ → List Endpoint) (tasks : List (SendTask T)) where
  -- One run after another.
  pub onwards :
      {s u v : Network T P}
      → Reaches env controllers predict s u
      → Reaches env controllers predict u v
      → Reaches env controllers predict s v
  onwards r start = r
  onwards r (next t v q step) = next t v (onwards r q) step

  pub onwards-AreCarried :
      {s u v : Network T P} (r : Reaches env controllers predict s u)
      (q : Reaches env controllers predict u v)
      → AreCarried env controllers predict listens tasks s u r
      → AreCarried env controllers predict listens tasks u v q
      → AreCarried env controllers predict listens tasks s v (onwards r q)
  unfolding onwards
  onwards-AreCarried r start h k = h
  onwards-AreCarried r (next t v q step) h k = (onwards-AreCarried r q h k.0, k.1)
