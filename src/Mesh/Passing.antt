-- ===== src/Mesh/Passing.antt =====
-- The round trip of src/mesh_integration.rs, over the orders in which payloads arrive.
use Prim.Native.String.{String}
use mathlib.Core.List.{append-nil}
use native.Mathlib.Nat.{mod-lt}
use dtchat.Prelude.{
  ℕ, ◌+◌, ◌-◌, ◌≡◌, ◌≢◌, refl, inl, inr, true, false, List, [], ◌∷◌, ◌++◌, Option, some, get_elem?,
  remove, length, All, String_eq, arith,
}
use dtchat.Time.{Instant}
use dtchat.Endpoint.{Endpoint, is_valid}
use dtchat.Config.{Peer}
use dtchat.Message.{ChatMessage}
use dtchat.Proto.{find_peer_by_id, construct_proto_message, serialize_message}
use dtchat.Proto.RoundTrip.{OnWire, inbound}
use dtchat.Socket.{GenericSocket, ok, new_socket}
use dtchat.Socket.Made.{new_socket-fresh}
use dtchat.Controller.{Outgoing, notify_models, create_ack_message, send_ack_message}
use dtchat.Mesh.{
  Recorder, recorder_observer, Node, System, Mesh, Arrival, deliver, deliver_each, place, node_a,
  node_b, node_c, mesh_message, node_at,
}
use dtchat.Mesh.Parts.{listening, Fits, node_at-first, node_at-second, node_at-third}
use dtchat.Mesh.Flights.{
  Tag, to_b, to_c, reply, total, total-append, to_come, Carried, Carried-append, Carried-take,
  in_flight,
}
use dtchat.Mesh.Received.{deliver-node, deliver-none, IsReply, receive-reply, receive-copy}
use dtchat.Mesh.Heard.{Heard, Heard-to_b, Heard-to_c, Heard-reply}

module _ {T : Type 0} ⦃i : Instant T⦄ (sys : System) (ep_a ep_b ep_c : Endpoint) (uuid : String)
    (now tx : T) where
  abbrev pub m : ChatMessage T
  m = mesh_message ep_a ep_b ep_c uuid now

  abbrev pub copy_bytes : List ℕ
  copy_bytes = serialize_message sys.env.codec m

  -- The crates work for the ACK of a receiver, and the first node reads it whole.
  pub record Acks (s_a : GenericSocket) (a : Arrival T) (me : String) : Type 0 where
    pub time : T
    pub in_range : i.of_millis (i.millis a.draws.ack_time) ≡ some time
    pub on_wire : OnWire sys.env.codec (create_ack_message a.draws m me false)
    pub fits : Fits ep_a (send_ack_message sys.env.codec a.draws s_a m me false).bytes

  abbrev pub Carries : Tag → Outgoing → Type 0
  Carries to_b o = (o.socket.eidpoint ≡ ep_b) × (o.bytes ≡ copy_bytes)
  Carries to_c o = (o.socket.eidpoint ≡ ep_c) × (o.bytes ≡ copy_bytes)
  Carries reply o = IsReply sys ep_a ep_b ep_c uuid now o

  abbrev pub nodes : List Node
  nodes =
      listening 0 (node_a ep_a ep_b ep_c) ep_a (node_b ep_a ep_b ep_c ∷ node_c ep_a ep_b ep_c ∷ [])
      ∷ listening 1 (node_b ep_a ep_b ep_c) ep_b
          (node_a ep_a ep_b ep_c ∷ node_c ep_a ep_b ep_c ∷ [])
      ∷ listening 2 (node_c ep_a ep_b ep_c) ep_c
          (node_a ep_a ep_b ep_c ∷ node_b ep_a ep_b ep_c ∷ [])
      ∷ []

  -- A state of the test, with the tags of what is in flight.
  pub record Holds (s : Mesh T) (ts : List Tag) : Type 0 where
    pub carried : Carried Carries ts s.flying
    pub heard : Heard uuid m.text s.recorders ts

  module _ (s_a : GenericSocket) (apart : (ep_a ≢ ep_b) × (ep_a ≢ ep_c) × (ep_b ≢ ep_c))
      (valid : is_valid sys.env.net.is_addr ep_a ≡ true)
      (made : new_socket sys.env.net ep_a ≡ ok s_a)
      (wire : OnWire sys.env.codec (construct_proto_message m))
      (sent_at : i.of_millis (i.millis now) ≡ some tx)
      (fits : Fits ep_b copy_bytes × Fits ep_c copy_bytes) where
    send_ack-IsReply :
        (a : Arrival T) (me : String)
        → Acks s_a a me
        → IsReply sys ep_a ep_b ep_c uuid now
            (send_ack_message sys.env.codec a.draws s_a m me false)
    unfolding send_ack_message
    send_ack-IsReply a me k = record {
      addressed = (new_socket-fresh sys.env.net ep_a s_a made).1;
      draws = a.draws;
      me = me;
      time = k.time;
      on_wire = k.on_wire;
      in_range = k.in_range;
      fits = k.fits;
      bytes = refl;
    }

    module _ (s : Mesh T) (ts : List Tag) (a : Arrival T) (h : Holds s ts) (k_b : Acks s_a a "20")
        (k_c : Acks s_a a "30") (o : Outgoing) (found : get_elem? s.flying (place a s) ≡ some o)
        (others : Carried Carries (remove (place a s) ts) (remove (place a s) s.flying)) where
      abbrev rest : List Tag
      rest = remove (place a s) ts

      -- A copy comes to a node that knows the first one.
      deliver-copy :
          (n : ℕ) (me : Peer) (e : Endpoint) (peers : List Peer)
          → (o.socket.eidpoint ≡ e) × (o.bytes ≡ copy_bytes)
          → node_at e nodes ≡ some (listening n me e peers)
          → find_peer_by_id peers "10" ≡ some (node_a ep_a ep_b ep_c)
          → Acks s_a a me.uuid
          → Fits e copy_bytes
          → deliver sys nodes a s ≡ record {
            recorders =
                notify_models
                  (listening n me e peers).controller
                  (inbound m peers tx a.draws.rx_time)
                  s.recorders;
            flying =
                remove (place a s) s.flying
                ++ send_ack_message sys.env.codec a.draws s_a m me.uuid false ∷ [];
          }
      deliver-copy n me e peers (q, b) at known k fit =
          let answer : Option Outgoing =
            some (send_ack_message sys.env.codec a.draws s_a m me.uuid false) in
          let rs : ℕ → Recorder T =
            notify_models (listening n me e peers).controller (inbound m peers tx a.draws.rx_time)
              s.recorders in
          deliver-node sys nodes a s o (listening n me e peers) answer rs found (rw q at) (
            rw (q, b)
              (receive-copy sys ep_a ep_b ep_c uuid now a n me e peers s_a tx k.time s.recorders
                known valid made wire k.on_wire sent_at k.in_range fit))

      deliver-to_b :
          Carries to_b o
          → ((f : Tag → ℕ) → total f ts ≡ f to_b + total f rest)
          → Holds (deliver sys nodes a s) (rest ++ reply ∷ [])
      unfolding find_peer_by_id
      deliver-to_b c sum =
          rw
            (deliver-copy 1 (node_b ep_a ep_b ep_c) ep_b _ c
              (node_at-second _ _ _ ep_a ep_b ep_c apart.0) refl k_b fits.0)
            (record {
              carried =
                  Carried-append Carries rest (remove (place a s) s.flying) reply _ others
                    (send_ack-IsReply a "20" k_b);
              heard = Heard-to_b uuid m.text s.recorders ts rest h.heard _ _ refl refl sum;
            })

      deliver-to_c :
          Carries to_c o
          → ((f : Tag → ℕ) → total f ts ≡ f to_c + total f rest)
          → Holds (deliver sys nodes a s) (rest ++ reply ∷ [])
      unfolding find_peer_by_id
      deliver-to_c c sum =
          rw
            (deliver-copy 2 (node_c ep_a ep_b ep_c) ep_c _ c
              (node_at-third _ _ _ ep_a ep_b ep_c apart.1 apart.2) refl k_c fits.1)
            (record {
              carried =
                  Carried-append Carries rest (remove (place a s) s.flying) reply _ others
                    (send_ack-IsReply a "30" k_c);
              heard = Heard-to_c uuid m.text s.recorders ts rest h.heard _ _ refl sum;
            })

      deliver-reply :
          Carries reply o
          → ((f : Tag → ℕ) → total f ts ≡ f reply + total f rest)
          → Holds (deliver sys nodes a s) rest
      deliver-reply r sum =
          let c =
            (listening 0 (node_a ep_a ep_b ep_c) ep_a
              (node_b ep_a ep_b ep_c ∷ node_c ep_a ep_b ep_c ∷ [])) in
          rw
            (deliver-node sys nodes a s o c _ _ found
              (rw r.addressed (node_at-first _ _ _ ep_a ep_b ep_c))
              (receive-reply sys ep_a ep_b ep_c uuid now a c.controller o s.recorders r))
            (record {
              carried = rw (append-nil (remove (place a s) s.flying)) others;
              heard =
                  Heard-reply uuid m.text s.recorders ts rest h.heard c.controller r.me r.time refl
                    sum;
            })

    module _ (s : Mesh T) (ts : List Tag) (a : Arrival T) (h : Holds s ts) (k_b : Acks s_a a "20")
        (k_c : Acks s_a a "30") where
      -- After a step, with one payload less to come.
      abbrev Steps : Type 0
      Steps =
          (ts' : List Tag) × Holds (deliver sys nodes a s) ts'
          × (total to_come ts' ≡ total to_come ts - 1)

      deliver-tagged :
          (t : Tag) (o : Outgoing)
          → get_elem? s.flying (place a s) ≡ some o
          → Carried Carries (remove (place a s) ts) (remove (place a s) s.flying)
          → Carries t o
          → ((f : Tag → ℕ) → total f ts ≡ f t + total f (remove (place a s) ts))
          → Steps
      deliver-tagged to_b o found others c sum = (
        remove (place a s) ts ++ reply ∷ [],
        deliver-to_b s ts a h k_b k_c o found others c sum,
        omega (arith, sum to_come, total-append to_come (remove (place a s) ts) reply),
      )
      deliver-tagged to_c o found others c sum = (
        remove (place a s) ts ++ reply ∷ [],
        deliver-to_c s ts a h k_b k_c o found others c sum,
        omega (arith, sum to_come, total-append to_come (remove (place a s) ts) reply),
      )
      deliver-tagged reply o found others c sum = (
        remove (place a s) ts,
        deliver-reply s ts a h k_b k_c o found others c sum,
        omega (arith, sum to_come),
      )

      deliver-Steps : Steps
      unfolding total
      deliver-Steps = elim (in_flight Carries ts s.flying h.carried) [
        | inl (e, q) ↦ (ts, rw (deliver-none sys nodes a s (rw q refl)) h, rw e refl)
        | inr some_left ↦
            let x =
              Carried-take Carries ts s.flying (place a s) h.carried (mod-lt a.pick some_left) in
            deliver-tagged x.tag x.payload x.found x.others x.carries x.sum
      ]

    -- However many payloads have come in, the recorders have heard of all that is not in flight.
    pub deliver_each-Holds :
        (as' : List (Arrival T)) (s : Mesh T) (ts : List Tag)
        → Holds s ts
        → All (λ a. Acks s_a a "20" × Acks s_a a "30") as'
        → (ts' : List Tag) × Holds (deliver_each sys nodes as' s) ts'
          × (total to_come ts' ≡ total to_come ts - length as')
    unfolding deliver_each
    deliver_each-Holds [] s ts h k = (ts, h, omega arith)
    deliver_each-Holds (a ∷ as') s ts h k =
        let (ts', h', e) = deliver-Steps s ts a h k.0.0 k.0.1 in
        let (ts'', h'', e') = deliver_each-Holds as' (deliver sys nodes a s) ts' h' k.1 in
        (ts'', h'', omega (arith, e, e'))
