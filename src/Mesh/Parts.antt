-- ===== src/Mesh/Parts.antt =====
-- The parts of the mesh tests of src/mesh_integration.rs: a node that is started, the socket and the
-- answer to a peer with one endpoint, and the listener that takes a payload.
use Prim.Native.String.{String}
use dtchat.Prelude.{
  ℕ, ◌≤◌, ◌≡◌, ◌≢◌, refl, ap, inl, inr, Bool-cases, true, false, List, [], ◌∷◌, Option, some,
  length, String_eq, ◌==◌,
}
use dtchat.Time.{Instant}
use dtchat.Endpoint.{Endpoint, udp, tcp, bp, is_valid, Endpoint_eq, same_endpoint_iff}
use dtchat.Config.{Peer}
use dtchat.Message.{ChatMessage}
use dtchat.Proto.{serialize_message}
use dtchat.Socket.{GenericSocket, ok, new_socket, send}
use dtchat.Controller.{SocketController, add_socket_observer, buffer_size, handle_payload}
use dtchat.Controller.Transports.{handle_datagram-whole, handle_tcp_connection-whole}
use dtchat.Listener.Started.{init_controller-one}
use dtchat.Listener.{listen_calls, grants}
use dtchat.Mesh.{
  Recorder, recorder_observer, one_endpoint, Node, System, start_node, Arrival, node_at, receive,
  send_copy,
}

-- A node that listens on its only endpoint.
abbrev pub listening : ℕ → Peer → Endpoint → List Peer → Node
listening o me e peers = record {
  controller = record { observers = o ∷ []; local_peer = some me; peers = peers };
  listens = e ∷ [];
}

module _ (sys : System) (e : Endpoint) (s : GenericSocket)
    (valid : is_valid sys.env.net.is_addr e ≡ true) (made : new_socket sys.env.net e ≡ ok s) where
  -- A node with one endpoint is started, if the system grants what its listener needs.
  pub start_node-listening :
      (o : ℕ) (uuid name : String) (color : ℕ) (peers : List Peer)
      → grants (sys.grants_listening e) (listen_calls s) ≡ true
      → start_node sys o (one_endpoint uuid name e color) peers
        ≡ listening o (one_endpoint uuid name e color) e peers
  unfolding start_node add_socket_observer
  start_node-listening o uuid name color peers granted =
      ap (λ r. record { controller = add_socket_observer o r.0; listens = r.1 })
        (init_controller-one sys.env.net sys.grants_listening (one_endpoint uuid name e color) e s
          peers refl valid made granted)

  -- A copy for a peer with one endpoint is put on the wire, if the system grants the calls.
  pub send_copy-one :
      {T : Type 0} ⦃i : Instant T⦄ (m : ChatMessage T) (uuid name : String) (color : ℕ)
      → (send sys.grants_sending s (serialize_message sys.env.codec m)).1 ≡ true
      → send_copy sys m (one_endpoint uuid name e color)
        ≡ some (record { socket = s; bytes = serialize_message sys.env.codec m } ∷ [])
  unfolding send_copy
  send_copy-one m uuid name color granted = rw (made, send_copy) (rw granted refl)

-- What a datagram listener reads whole; a stream is read to its end.
abbrev pub Fits : Endpoint → List ℕ → Type 0
Fits (udp addr) bytes = length bytes ≤ buffer_size
Fits (bp addr) bytes = length bytes ≤ buffer_size
Fits (tcp addr) bytes = Unit

-- The listener hands the payload on as it is.
pub receive-handle_payload :
    {T : Type 0} ⦃i : Instant T⦄ (sys : System) (a : Arrival T) (c : SocketController)
    (e : Endpoint) (bytes : List ℕ) (rs : ℕ → Recorder T)
    → Fits e bytes
    → (on : Option Endpoint) × (receive sys a c e bytes rs
        ≡ handle_payload sys.env a.draws c on bytes rs)
unfolding receive
receive-handle_payload sys a c (udp addr) bytes rs h =
    (_, handle_datagram-whole sys.env a.draws c addr bytes rs h)
receive-handle_payload sys a c (bp addr) bytes rs h =
    (_, handle_datagram-whole sys.env a.draws c addr bytes rs h)
receive-handle_payload sys a c (tcp addr) bytes rs h =
    (_, handle_tcp_connection-whole sys.env a.draws c a.peer_addr bytes rs)

same_endpoint_refl : (e : Endpoint) → (e == e) ≡ true
same_endpoint_refl e = (same_endpoint_iff e e).1 refl

other_endpoint : (e e' : Endpoint) → e ≢ e' → (e == e') ≡ false
other_endpoint e e' h = elim (Bool-cases (e == e')) [
  | inl same ↦ absurd (h ((same_endpoint_iff e e').0 same))
  | inr other ↦ other
]

-- Of three nodes that listen on different endpoints, each is found by its own.
module _ (a b c : SocketController) (e_a e_b e_c : Endpoint) where
  abbrev three : List Node
  three =
      record { controller = a; listens = e_a ∷ [] }
      ∷ record { controller = b; listens = e_b ∷ [] }
      ∷ record { controller = c; listens = e_c ∷ [] }
      ∷ []

  pub node_at-first : node_at e_a three ≡ some (record { controller = a; listens = e_a ∷ [] })
  unfolding node_at
  node_at-first = rw (same_endpoint_refl e_a) refl

  pub node_at-second :
      e_a ≢ e_b → node_at e_b three ≡ some (record { controller = b; listens = e_b ∷ [] })
  unfolding node_at
  node_at-second h = rw (other_endpoint e_a e_b h, same_endpoint_refl e_b) refl

  pub node_at-third :
      e_a ≢ e_c
      → e_b ≢ e_c
      → node_at e_c three ≡ some (record { controller = c; listens = e_c ∷ [] })
  unfolding node_at
  node_at-third h k =
      rw (other_endpoint e_a e_c h, other_endpoint e_b e_c k, same_endpoint_refl e_c) refl
