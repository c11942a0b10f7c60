-- ===== src/Controller/Handling.antt =====
-- What a node does with the payloads of src/utils/socket.rs: chat messages, their ACKs, and how the
-- sender reads these.
use Prim.Native.String.{String}
use mathlib.Core.List.{Mem}
use package.text.Mathlib.TextEquality.{eq_iff}
use dtchat.Prelude.{
  ℕ, ◌≡◌, refl, sym, ap, ◌∙◌, inl, inr, Bool-cases, false, List, ◌++◌, Option, none, some,
  String_eq, ◌==◌, find, find-eq-some, Option-cases, arith,
}
use dtchat.Text.{starts_with}
use dtchat.Time.{Instant}
use dtchat.Endpoint.{Endpoint}
use dtchat.Config.{Peer}
use dtchat.Message.{ChatMessage, tx_time}
use dtchat.Proto.{
  chat_message, ack, find_peer_by_id, construct_proto_message, serialize_message,
  deserialize_message,
}
use dtchat.Proto.Base64.{Stops}
use dtchat.Proto.RoundTrip.{OnWire, inbound, deserialize_message-encoded, deserialize-serialize}
use dtchat.Proto.Extract.{extract-ack_iff}
use dtchat.Socket.{GenericSocket, Result, ok, err, new_socket}
use dtchat.Controller.{
  SocketController, choose_ack_endpoint, Outgoing, Draws, Env, create_ack_message, send_ack_message,
  send_ack_if_needed, ack_between, ack_through, SocketObserver, notify_models, handle_ack_received,
  handle_payload, dispatch,
}

-- Who is found by a uuid has the uuid.
find_peer_by_id-uuid :
    (peers : List Peer) (id : String) (p : Peer) → find_peer_by_id peers id ≡ some p → p.uuid ≡ id
unfolding find_peer_by_id
find_peer_by_id-uuid peers id p e =
    (eq_iff p.uuid id).0 (find-eq-some (λ q. q.uuid == id) peers p e).1

module _ {T : Type 0} ⦃i : Instant T⦄ where
  -- The ACK of a message as its sender reads it.
  pub deserialize-create_ack :
      (env : Env) (d : Draws T) (m : ChatMessage T) (me : String) (s : GenericSocket) (t now : T)
      (peers : List Peer) (rest : List ℕ)
      → OnWire env.codec (create_ack_message d m me false)
      → i.of_millis (i.millis d.ack_time) ≡ some t
      → Stops rest
      → deserialize_message env.codec now
          ((send_ack_message env.codec d s m me false).bytes ++ rest)
          peers
        ≡ some (ack m.uuid false t me)
  unfolding send_ack_message create_ack_message
  deserialize-create_ack env d m me s t now peers rest w e h =
      deserialize_message-encoded env.codec (create_ack_message d m me false) _ refl w now peers
        rest h
      ∙ (extract-ack_iff now (create_ack_message d m me false) peers m.uuid me false t).1
          (_, refl, e, refl, refl, refl)

  -- The bytes of an ACK, with junk behind them or not, are answered by nothing and go to every
  -- observer.
  pub handle_payload-acked :
      {O : Type 0} ⦃ob : SocketObserver T O⦄ (env : Env) (d : Draws T) (m : ChatMessage T)
      (me : String) (s : GenericSocket) (t : T) (rest : List ℕ)
      → OnWire env.codec (create_ack_message d m me false)
      → i.of_millis (i.millis d.ack_time) ≡ some t
      → Stops rest
      → (models : ℕ → O) (d' : Draws T) (c : SocketController) (on : Option Endpoint)
      → handle_payload env d' c on
          ((send_ack_message env.codec d s m me false).bytes ++ rest)
          models
        ≡ (none, handle_ack_received c m.uuid me false t models)
  unfolding handle_payload
  handle_payload-acked env d m me s t rest w e h models d' c on =
      rw (deserialize-create_ack env d m me s t d'.rx_time c.peers rest w e h, dispatch)

  module _ (env : Env) (d : Draws T) (c : SocketController) (m : ChatMessage T) (me sender : Peer)
      (on : Option Endpoint) (target : Endpoint) (s : GenericSocket)
      (local : c.local_peer ≡ some me) (known : find_peer_by_id c.peers m.sender.uuid ≡ some sender)
      (plain : starts_with m.text "[ACK]" ≡ false)
      (chosen : choose_ack_endpoint env.net.is_addr sender on ≡ some target)
      (opens : new_socket env.net target ≡ ok s) where
    same_sender : find (λ p. p.uuid == sender.uuid) c.peers ≡ some sender
    unfolding find_peer_by_id
    same_sender =
        ap (λ id. find (λ p. p.uuid == id) c.peers)
          (find_peer_by_id-uuid c.peers m.sender.uuid sender known)
        ∙ known

    send_ack-inbound :
        (tx now : T)
        → send_ack_if_needed env d c (inbound m c.peers tx now) on
          ≡ some (send_ack_message env.codec d s m me.uuid false)
    unfolding send_ack_if_needed ack_between ack_through send_ack_message create_ack_message
    send_ack-inbound tx now =
        rw (plain, local, known) (rw same_sender (rw (chosen, ack_between) (rw opens)))

    -- A serialized message that arrives at a node which knows its sender, with junk behind it or not,
    -- is answered with exactly one ACK through the chosen endpoint and goes to every observer; and
    -- the sender, given the bytes of that ACK, marks the message for the answering node at the time
    -- of the ACK, and answers nothing.
    pub handle_payload-answers :
        {O : Type 0} ⦃ob : SocketObserver T O⦄ (tx t : T) (rest rest' : List ℕ)
        → OnWire env.codec (construct_proto_message m)
        → OnWire env.codec (create_ack_message d m me.uuid false)
        → i.of_millis (i.millis (tx_time m.shipment_status)) ≡ some tx
        → i.of_millis (i.millis d.ack_time) ≡ some t
        → Stops rest
        → Stops rest'
        → (models models' : ℕ → O) (d' : Draws T) (c' : SocketController) (on' : Option Endpoint)
        → (handle_payload env d c on (serialize_message env.codec m ++ rest) models ≡ (
          some (send_ack_message env.codec d s m me.uuid false),
          notify_models c (inbound m c.peers tx d.rx_time) models,
        ))
          × (handle_payload env d' c' on'
                ((send_ack_message env.codec d s m me.uuid false).bytes ++ rest')
                models'
              ≡ (none, handle_ack_received c' m.uuid me.uuid false t models'))
    unfolding handle_payload
    handle_payload-answers tx t rest rest' w v e f h k models models' d' c' on' = (
      rw (deserialize-serialize env.codec m w d.rx_time tx c.peers rest e h, dispatch)
          (ap (λ x. (x, notify_models c (inbound m c.peers tx d.rx_time) models))
            (send_ack-inbound tx d.rx_time)),
      handle_payload-acked env d m me.uuid s t rest' v f k models' d' c' on',
    )

  -- Why a payload is answered with `o`.
  pub record IsAnswer (env : Env) (d : Draws T) (c : SocketController) (on : Option Endpoint)
      (payload : List ℕ) (o : Outgoing) : Type 0 where
    pub message : ChatMessage T
    pub is_chat :
        deserialize_message env.codec d.rx_time payload c.peers ≡ some (chat_message message)
    pub is_plain : starts_with message.text "[ACK]" ≡ false
    pub me : Peer
    pub is_local : c.local_peer ≡ some me
    pub sender : Peer
    pub is_known : Mem sender c.peers
    pub is_sender : sender.uuid ≡ message.sender.uuid
    pub target : Endpoint
    pub is_chosen : choose_ack_endpoint env.net.is_addr sender on ≡ some target
    pub opens : new_socket env.net target ≡ ok o.socket
    pub bytes :
        o.bytes
        ≡ env.codec.base64_encode
            (env.codec.proto_encode (create_ack_message d message me.uuid false))

  module _ (env : Env) (d : Draws T) (c : SocketController) (on : Option Endpoint) where
    ack_through-some :
        (m : ChatMessage T) (me : Peer) (r : Result GenericSocket) (o : Outgoing)
        → ack_through env d c m me r ≡ some o
        → (s : GenericSocket) × (r ≡ ok s) × (send_ack_message env.codec d s m me.uuid false ≡ o)
    unfolding ack_through
    ack_through-some m me (err x) o e = cc
    ack_through-some m me (ok s) o e = (s, refl, ground arith)

    send_ack-cases :
        (m : ChatMessage T) (o : Outgoing)
        → send_ack_if_needed env d c m on ≡ some o
        → (starts_with m.text "[ACK]" ≡ false)
          × (me : Peer) × (sender : Peer) × (target : Endpoint) × (s : GenericSocket)
          × (c.local_peer ≡ some me)
          × (find (λ p. p.uuid == m.sender.uuid) c.peers ≡ some sender)
          × (choose_ack_endpoint env.net.is_addr sender on ≡ some target)
          × (new_socket env.net target ≡ ok s)
          × (send_ack_message env.codec d s m me.uuid false ≡ o)
    unfolding send_ack_if_needed ack_between ack_through
    send_ack-cases m o e = elim (Bool-cases (starts_with m.text "[ACK]")) [
      | inl is_ack ↦ absurd (ground arith)
      | inr plain ↦ elim (Option-cases c.local_peer) [
        | inl n ↦ absurd (ground arith)
        | inr (me, l) ↦ elim (Option-cases (find (λ p. p.uuid == m.sender.uuid) c.peers)) [
          | inl n ↦ absurd (ground arith)
          | inr (sender, k) ↦ elim (Option-cases (choose_ack_endpoint env.net.is_addr sender on)) [
            | inl n ↦ absurd (ground arith)
            | inr (target, h) ↦
                let (s, q, r) =
                  ack_through-some m me (new_socket env.net target) o (ground arith) in
                (plain, me, sender, target, s, l, k, h, q, r)
          ]
        ]
      ]
    ]

    -- What is answered, whatever arrives: an ACK leaves the node only for a chat message that does not
    -- begin with "[ACK]", whose sender it knows, at an endpoint that is chosen for that sender; it names
    -- the message and the local node. Nothing leaves it for an ACK, or for bytes that are not decoded.
    pub handle_payload-IsAnswer :
        {O : Type 0} ⦃ob : SocketObserver T O⦄ (payload : List ℕ) (models : ℕ → O) (o : Outgoing)
        → (handle_payload env d c on payload models).0 ≡ some o
        → IsAnswer env d c on payload o
    unfolding handle_payload dispatch send_ack_message
    handle_payload-IsAnswer payload models o e =
        elim (Option-cases (deserialize_message env.codec d.rx_time payload c.peers)) [
          | inl n ↦ absurd (ground arith)
          | inr (chat_message m, x) ↦
              let (plain, me, sender, target, s, l, k, h, q, r) =
                send_ack-cases m o (ground arith) in
              let (member, same) = find-eq-some (λ p. p.uuid == m.sender.uuid) c.peers sender k in
              record {
                message = m;
                is_chat = x;
                is_plain = plain;
                me = me;
                is_local = l;
                sender = sender;
                is_known = member;
                is_sender = (eq_iff _ _).0 same;
                target = target;
                is_chosen = h;
                opens = q ∙ ap (λ a. ok (a.socket)) r;
                bytes = ap (λ a. a.bytes) (sym r);
              }
          | inr (ack u a t b, x) ↦ absurd (ground arith)
        ]
