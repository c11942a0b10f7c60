-- ===== src/Mesh.antt =====
-- The mesh tests of src/mesh_integration.rs: three controllers that listen on endpoints of their own,
-- a recorder at each, a message from the first to the others, and the ACKs that come back. The
-- loopback network loses nothing, and delivers what is in flight in any order.
pub mod Parts
pub mod Flights
pub mod Received
pub mod Heard
pub mod Passing
pub mod Finished
pub mod Waiting
pub mod Ports
use Prim.Native.String.{String}
use mathlib.Core.Option
use dtchat.Prelude.{
  ℕ, zero, suc, ◌+◌, ◌%◌, Bool, true, false, ◌&&◌, List, [], ◌∷◌, ◌++◌, Option, none, some,
  get_elem?, remove, length, filter, find, leb, ltb, ℕ_eq, String_eq, ◌==◌, if◌then◌else◌,
}
use dtchat.Time.{Instant}
use dtchat.Endpoint.{Endpoint, udp, tcp, bp, Endpoint_eq}
use dtchat.Config.{Peer}
use dtchat.Message.{ChatMessage, sent}
use dtchat.Proto.{serialize_message}
use dtchat.Socket.{Result, ok, err, new_socket, SysCall, send}
use dtchat.Controller.{
  SocketController, SocketObserver, Outgoing, Draws, Env, add_socket_observer, handle_datagram,
  handle_tcp_connection,
}
use dtchat.Listener.{ListenCall, init_controller}

pub record Recorder (T : Type 0) : Type 0 where
  pub messages : List (ChatMessage T)
  pub acks : List String

module _ {T : Type 0} where
  -- `Recorder::default`
  abbrev pub new_recorder : Recorder T
  new_recorder = record { messages = []; acks = [] }

  pub message_count : Recorder T → ℕ
  message_count r = length r.messages

  pub ack_count : Recorder T → String → ℕ
  ack_count r message_uuid = length (filter (λ uuid. uuid == message_uuid) r.acks)

  instance abbrev pub recorder_observer : SocketObserver T (Recorder T)
  recorder_observer = record {
    on_socket_event = λ m r. record r { messages = r.messages ++ m ∷ [] };
    on_ack_received = λ message_uuid acker_uuid is_read ack_time r. record r {
      acks = r.acks ++ message_uuid ∷ [];
    };
  }

-- `peer`
abbrev pub one_endpoint : String → String → Endpoint → ℕ → Peer
one_endpoint uuid name endpoint color = record {
  uuid = uuid;
  name = name;
  endpoints = endpoint ∷ [];
  color = color;
}

-- A controller with the endpoints that its threads listen on.
pub record Node : Type 0 where
  pub controller : SocketController
  pub listens : List Endpoint

-- What the operating system decides: the parser of addresses and the sockets, and the calls that it
-- grants to listeners and to senders.
pub record System : Type 0 where
  pub env : Env
  pub grants_listening : Endpoint → ListenCall → Bool
  pub grants_sending : SysCall → Bool

-- `start_node`, where `o` is the handle of the recorder that is made for the node.
pub start_node : System → ℕ → Peer → List Peer → Node
unfolding init_controller add_socket_observer
start_node sys o local_peer peers =
    let (controller, listens) = init_controller sys.env.net sys.grants_listening local_peer peers in
    record { controller = add_socket_observer o controller; listens = listens }

-- The recorders, by their handles, and the payloads in flight.
pub record Mesh (T : Type 0) : Type 0 where
  pub recorders : ℕ → Recorder T
  pub flying : List Outgoing

-- A payload that arrives: which of those in flight, by a number that is counted round, what the receiver draws, and for a stream the
-- address of the other side.
pub record Arrival (T : Type 0) : Type 0 where
  pub pick : ℕ
  pub draws : Draws T
  pub peer_addr : Option String

-- Where the payload that arrives stands among those in flight.
abbrev pub place : {T : Type 0} → Arrival T → Mesh T → ℕ
place a s = a.pick % length s.flying

-- The node that listens on an endpoint.
pub node_at : Endpoint → List Node → Option Node
node_at e nodes =
    find (λ n. elim (find (λ l. l == e) n.listens) [ none ↦ false | some l ↦ true ]) nodes

abbrev to_list {ℓ} : {A : Type ℓ} → Option A → List A
to_list none = []
to_list (some a) = a ∷ []

module _ {T : Type 0} ⦃i : Instant T⦄ (sys : System) where
  -- The listener at an endpoint takes a payload.
  pub receive :
      Arrival T
      → SocketController
      → Endpoint
      → List ℕ
      → (ℕ → Recorder T)
      → Option Outgoing × (ℕ → Recorder T)
  receive a c (udp addr) bytes rs = handle_datagram sys.env a.draws c addr bytes rs
  receive a c (bp addr) bytes rs = handle_datagram sys.env a.draws c addr bytes rs
  receive a c (tcp addr) bytes rs = handle_tcp_connection sys.env a.draws c a.peer_addr bytes rs

  -- A payload comes to the node that listens on its endpoint, which may answer.
  pub arrive : List Node → Arrival T → Outgoing → Mesh T → Mesh T
  unfolding node_at receive
  arrive nodes a o s = elim (node_at o.socket.eidpoint nodes) [
    | none ↦ s
    | some n ↦
        let (answer, rs) = receive a n.controller o.socket.eidpoint o.bytes s.recorders in
        record { recorders = rs; flying = s.flying ++ to_list answer }
  ]

  pub deliver : List Node → Arrival T → Mesh T → Mesh T
  unfolding arrive
  deliver nodes a s = elim (get_elem? s.flying (place a s)) [
    | none ↦ s
    | some o ↦ arrive nodes a o (record s { flying = remove (place a s) s.flying })
  ]

  pub deliver_each : List Node → List (Arrival T) → Mesh T → Mesh T
  unfolding deliver
  deliver_each nodes [] s = s
  deliver_each nodes (a ∷ as') s = deliver_each nodes as' (deliver nodes a s)

  -- The body of the loop over the recipients; `none` where an `expect` panics.
  pub send_copy : ChatMessage T → Peer → Option (List Outgoing)
  unfolding send
  send_copy m recipient = elim recipient.endpoints [
    | [] ↦ none
    | e ∷ es ↦ elim (new_socket sys.env.net e) [
      | err x ↦ none
      | ok s ↦
          let bytes = serialize_message sys.env.codec m in
          if (send sys.grants_sending s bytes).1
          then some (record { socket = s; bytes = bytes } ∷ [])
          else none
    ]
  ]

  pub send_copies : ChatMessage T → List Peer → Option (List Outgoing)
  unfolding send_copy
  send_copies m [] = some []
  send_copies m (p ∷ ps) = elim (send_copy m p) [
    | none ↦ none
    | some o ↦ Option.map (λ os. o ++ os) (send_copies m ps)
  ]

module _ (ep_a ep_b ep_c : Endpoint) where
  abbrev pub node_a : Peer
  node_a = one_endpoint "10" "earth" ep_a 2

  abbrev pub node_b : Peer
  node_b = one_endpoint "20" "moon" ep_b 3

  abbrev pub node_c : Peer
  node_c = one_endpoint "30" "mars" ep_c 1

  -- The three nodes, with the recorders 0, 1 and 2.
  abbrev pub mesh_nodes : System → List Node
  mesh_nodes sys =
      start_node sys 0 node_a (node_b ∷ node_c ∷ [])
      ∷ start_node sys 1 node_b (node_a ∷ node_c ∷ [])
      ∷ start_node sys 2 node_c (node_a ∷ node_b ∷ [])
      ∷ []

  module _ {T : Type 0} (uuid : String) (now : T) where
    abbrev pub mesh_message : ChatMessage T
    mesh_message = record {
      uuid = uuid;
      response = none;
      sender = node_a;
      text = "hello mesh 🚀";
      shipment_status = sent now [];
    }

    -- `run_mesh_round_trip` up to its assertions, when `arrivals` have come in; `none` is a panic.
    pub run_mesh_round_trip : ⦃i : Instant T⦄ → System → List (Arrival T) → Option (Mesh T)
    unfolding deliver_each send_copies start_node
    run_mesh_round_trip sys arrivals =
        Option.map
          (λ os.
            deliver_each sys (mesh_nodes sys) arrivals
              (record { recorders = λ o. new_recorder; flying = os }))
          (send_copies sys mesh_message (node_b ∷ node_c ∷ []))

    -- Its assertions.
    pub passes : Mesh T → Bool
    unfolding message_count ack_count
    passes s =
        leb 1 (message_count (s.recorders 1))
        && leb 1 (message_count (s.recorders 2))
        && leb 2 (ack_count (s.recorders 0) uuid)
        && message_count (s.recorders 0) == 0
        && elim (get_elem? (s.recorders 1).messages 0) [
          | none ↦ false
          | some m ↦ m.text == mesh_message.text
        ]
