-- ===== src/Mesh/Received.antt =====
-- How the nodes of src/mesh_integration.rs take a copy of the message and an ACK of it.
use Prim.Native.String.{String}
use mathlib.Core.List.{append-nil}
use dtchat.Prelude.{
  ℕ, ◌≡◌, refl, sym, ap, ◌∙◌, true, false, List, [], ◌++◌, Option, none, some, get_elem?, remove,
  String_eq,
}
use dtchat.Text.{starts_with}
use dtchat.Time.{Instant}
use dtchat.Endpoint.{Endpoint, is_valid}
use dtchat.Config.{Peer}
use dtchat.Message.{ChatMessage, tx_time}
use dtchat.Proto.{find_peer_by_id, construct_proto_message, serialize_message}
use dtchat.Proto.RoundTrip.{OnWire, inbound}
use dtchat.Socket.{GenericSocket, ok, new_socket}
use dtchat.Controller.{
  SocketController, Outgoing, Draws, notify_models, handle_ack_received, handle_payload,
  create_ack_message, send_ack_message,
}
use dtchat.Controller.Endpoints.{choose_ack_endpoint-one}
use dtchat.Controller.Handling.{handle_payload-answers, handle_payload-acked}
use dtchat.Mesh.{
  Recorder, recorder_observer, Node, System, Mesh, Arrival, node_at, receive, arrive, deliver,
  place, to_list, node_a, mesh_message,
}
use dtchat.Mesh.Parts.{listening, Fits, receive-handle_payload}

module _ {T : Type 0} ⦃i : Instant T⦄ (sys : System) where
  arrive-node :
      (nodes : List Node) (a : Arrival T) (o : Outgoing) (s : Mesh T) (n : Node)
      (answer : Option Outgoing) (rs : ℕ → Recorder T)
      → node_at o.socket.eidpoint nodes ≡ some n
      → receive sys a n.controller o.socket.eidpoint o.bytes s.recorders ≡ (answer, rs)
      → arrive sys nodes a o s ≡ record { recorders = rs; flying = s.flying ++ to_list answer }
  unfolding arrive
  arrive-node nodes a o s n answer rs h k = rw (h, arrive) (rw k refl)

  -- Nothing arrives where nothing is in flight.
  pub deliver-none :
      (nodes : List Node) (a : Arrival T) (s : Mesh T)
      → get_elem? s.flying (place a s) ≡ none
      → deliver sys nodes a s ≡ s
  unfolding deliver
  deliver-none nodes a s h = rw (h, deliver) refl

  -- The payload that is picked comes to the node that listens on its endpoint.
  pub deliver-node :
      (nodes : List Node) (a : Arrival T) (s : Mesh T) (o : Outgoing) (n : Node)
      (answer : Option Outgoing) (rs : ℕ → Recorder T)
      → get_elem? s.flying (place a s) ≡ some o
      → node_at o.socket.eidpoint nodes ≡ some n
      → receive sys a n.controller o.socket.eidpoint o.bytes s.recorders ≡ (answer, rs)
      → deliver sys nodes a s
        ≡ record { recorders = rs; flying = remove (place a s) s.flying ++ to_list answer }
  unfolding deliver
  deliver-node nodes a s o n answer rs g h k =
      rw (g, deliver)
        (arrive-node nodes a o (record s { flying = remove (place a s) s.flying }) n answer rs h k)

module _ {T : Type 0} ⦃i : Instant T⦄ (sys : System) (ep_a ep_b ep_c : Endpoint) (uuid : String)
    (now : T) where
  abbrev m : ChatMessage T
  m = mesh_message ep_a ep_b ep_c uuid now

  -- An ACK of the message in flight.
  pub record IsReply (o : Outgoing) : Type 0 where
    pub addressed : o.socket.eidpoint ≡ ep_a
    pub draws : Draws T
    pub me : String
    pub time : T
    pub on_wire : OnWire sys.env.codec (create_ack_message draws m me false)
    pub in_range : i.of_millis (i.millis draws.ack_time) ≡ some time
    pub fits : Fits ep_a o.bytes
    pub bytes : o.bytes ≡ (send_ack_message sys.env.codec draws o.socket m me false).bytes

  -- The listener of the first node takes an ACK.
  pub receive-reply :
      (a : Arrival T) (c : SocketController) (o : Outgoing) (rs : ℕ → Recorder T) (r : IsReply o)
      → (receive sys a c o.socket.eidpoint o.bytes rs)
        ≡ (none, handle_ack_received c uuid r.me false r.time rs)
  receive-reply a c o rs r =
      let (on, e) = receive-handle_payload sys a c ep_a o.bytes rs r.fits in
      rw (r.addressed) (
        e
        ∙ ap (λ b. handle_payload sys.env a.draws c on b rs)
            (r.bytes
              ∙ sym
                  (append-nil (send_ack_message sys.env.codec r.draws o.socket m r.me false).bytes))
        ∙ handle_payload-acked sys.env r.draws m r.me o.socket r.time [] r.on_wire r.in_range tt rs
            a.draws c on)

  -- A node that knows the first one takes a copy of the message, and answers it.
  pub receive-copy :
      (a : Arrival T) (o : ℕ) (me : Peer) (e : Endpoint) (peers : List Peer) (s_a : GenericSocket)
      (tx t : T) (rs : ℕ → Recorder T)
      → find_peer_by_id peers "10" ≡ some (node_a ep_a ep_b ep_c)
      → is_valid sys.env.net.is_addr ep_a ≡ true
      → new_socket sys.env.net ep_a ≡ ok s_a
      → OnWire sys.env.codec (construct_proto_message m)
      → OnWire sys.env.codec (create_ack_message a.draws m me.uuid false)
      → i.of_millis (i.millis now) ≡ some tx
      → i.of_millis (i.millis a.draws.ack_time) ≡ some t
      → Fits e (serialize_message sys.env.codec m)
      → receive sys a (listening o me e peers).controller e (serialize_message sys.env.codec m) rs
        ≡ (
          some (send_ack_message sys.env.codec a.draws s_a m me.uuid false),
          notify_models (listening o me e peers).controller (inbound m peers tx a.draws.rx_time) rs,
        )
  unfolding starts_with tx_time
  receive-copy a o me e peers s_a tx t rs known valid made w v p q fits =
      let c = (listening o me e peers).controller in
      let (on, h) = receive-handle_payload sys a c e (serialize_message sys.env.codec m) rs fits in
      h
      ∙ ap (λ b. handle_payload sys.env a.draws c on b rs)
          (sym (append-nil (serialize_message sys.env.codec m)))
      ∙ (handle_payload-answers sys.env a.draws c m me (node_a ep_a ep_b ep_c) on ep_a s_a refl
          known refl
          (choose_ack_endpoint-one sys.env.net.is_addr (node_a ep_a ep_b ep_c) ep_a on refl valid)
          made tx t [] [] w v p q tt tt rs rs a.draws c on).0
