-- ===== src/Proto/Extract.antt =====
-- What comes out of `extract_message_from_proto` of src/utils/proto.rs.
use Prim.Native.String.{String}
use mathlib.Core.List.{Mem}
use package.text.Mathlib.TextEquality.{eq_iff}
use dtchat.Prelude.{
  ◌≡◌, refl, ◌≢◌, ◌↔◌, ◌⊎◌, inl, inr, Bool, List, none, some, String_eq, ◌==◌, All, All-imp, find,
  find-eq-some, find-eq-none, Option-cases, arith,
}
use dtchat.Time.{Instant}
use dtchat.Config.{Peer, default_peer}
use dtchat.Message.{ChatMessage, received}
use dtchat.Proto.{
  ProtoMessage, DeliveryStatus, Content, text, file, presence, delivery, DeserializedMessage,
  chat_message, ack, find_peer_by_id, peer_or_default, message_of, extract_message_from_proto,
}

-- The peer with the uuid, or the default peer where no peer has it.
abbrev pub IsSender : List Peer → String → Peer → Type 0
IsSender peers uuid p =
    (Mem p peers × (p.uuid ≡ uuid)) ⊎ ((p ≡ default_peer) × All (λ q. q.uuid ≢ uuid) peers)

pub peer_or_default-IsSender :
    (peers : List Peer) (uuid : String)
    → IsSender peers uuid (peer_or_default (find_peer_by_id peers uuid))
unfolding find_peer_by_id
peer_or_default-IsSender peers uuid = elim (Option-cases (find (λ p. p.uuid == uuid) peers)) [
  | inl e ↦ rw e (
      inr (
        refl,
        All-imp (λ q f k. ground (arith, eq_iff q.uuid uuid)) peers
            (find-eq-none (λ p. p.uuid == uuid) peers e),
      ))
  | inr (p, e) ↦
      let (m, q) = find-eq-some (λ p. p.uuid == uuid) peers p e in rw e (inl (m, (eq_iff _ _).0 q))
]

module _ {T : Type 0} ⦃i : Instant T⦄ where
  message_of-chat :
      (now t : T) (proto : ProtoMessage) (sender : Peer) (x : Content) (m : ChatMessage T)
      → message_of now proto sender x t ≡ chat_message m
      → (m.shipment_status ≡ received t now) × (m.uuid ≡ proto.uuid) × (m.sender ≡ sender)
  unfolding message_of
  message_of-chat now t proto sender (delivery d) m e = cc
  message_of-chat now t proto sender (text x) m e = ground arith
  message_of-chat now t proto sender (file x) m e = ground arith
  message_of-chat now t proto sender (presence x) m e = ground arith

  message_of-ack :
      (now t' t : T) (proto : ProtoMessage) (sender : Peer) (x : Content) (u a : String) (r : Bool)
      → proto.content ≡ some x
      → i.of_millis proto.timestamp ≡ some t'
      → message_of now proto sender x t' ≡ ack u r t a
      → (d : DeliveryStatus) × (proto.content ≡ some (delivery d))
        × (i.of_millis proto.timestamp ≡ some t)
        × (d.message_uuid ≡ u)
        × (d.read ≡ r)
        × (proto.sender_uuid ≡ a)
  unfolding message_of
  message_of-ack now t' t proto sender (delivery d) u a r c s e =
      (d, c, ground arith, ground arith, ground arith, ground arith)
  message_of-ack now t' t proto sender (text x) u a r c s e = cc
  message_of-ack now t' t proto sender (file x) u a r c s e = cc
  message_of-ack now t' t proto sender (presence x) u a r c s e = cc

  extract-some :
      (now : T) (proto : ProtoMessage) (peers : List Peer) (r : DeserializedMessage T)
      → extract_message_from_proto now proto peers ≡ some r
      → (x : Content) × (t : T) × (proto.content ≡ some x)
        × (i.of_millis proto.timestamp ≡ some t)
        × (message_of now proto (peer_or_default (find_peer_by_id peers proto.sender_uuid)) x t ≡ r)
  unfolding extract_message_from_proto
  extract-some now proto peers r e = elim (Option-cases proto.content) [
    | inl c ↦ absurd (ground arith)
    | inr (x, c) ↦ elim (Option-cases (i.of_millis proto.timestamp)) [
      | inl t ↦ absurd (ground arith)
      | inr (t, d) ↦ (x, t, c, d, ground arith)
    ]
  ]

module _ {T : Type 0} ⦃i : Instant T⦄ (now : T) (proto : ProtoMessage) (peers : List Peer) where
  -- What is received: an ACK for a delivery status, and otherwise a chat message.
  pub record IsInbound (m : ChatMessage T) : Type 0 where
    pub tx : T
    pub sent_at : i.of_millis proto.timestamp ≡ some tx
    pub status : m.shipment_status ≡ received tx now
    pub uuid : m.uuid ≡ proto.uuid
    pub sender : IsSender peers proto.sender_uuid m.sender

  -- A message is dropped exactly when it has no content or its time is out of range.
  pub extract-eq-none_iff :
      (extract_message_from_proto now proto peers ≡ none)
      ↔ ((proto.content ≡ none) ⊎ (i.of_millis proto.timestamp ≡ none))
  unfolding extract_message_from_proto
  extract-eq-none_iff = ground arith

  -- Every chat message that comes out is an inbound one, received now, under a known sender or the
  -- default one.
  pub extract-IsInbound :
      (m : ChatMessage T)
      → extract_message_from_proto now proto peers ≡ some (chat_message m)
      → IsInbound m
  extract-IsInbound m e =
      let (x, t, c, d, r) = extract-some now proto peers (chat_message m) e in
      let (status, uuid, sender) = message_of-chat now t proto _ x m r in
      record {
        tx = t;
        sent_at = d;
        status = status;
        uuid = uuid;
        sender = rw sender (peer_or_default-IsSender peers proto.sender_uuid);
      }

  -- An ACK comes out exactly of a delivery status with a time in range: it names the message, the
  -- sender of the status as the acker, and the time of sending.
  pub extract-ack_iff :
      (message_uuid acker_uuid : String) (is_read : Bool) (t : T)
      → (extract_message_from_proto now proto peers ≡ some (ack message_uuid is_read t acker_uuid))
        ↔ ((d : DeliveryStatus) × (proto.content ≡ some (delivery d))
            × (i.of_millis proto.timestamp ≡ some t)
            × (d.message_uuid ≡ message_uuid)
            × (d.read ≡ is_read)
            × (proto.sender_uuid ≡ acker_uuid))
  unfolding extract_message_from_proto message_of
  extract-ack_iff u a r t = (
    λ e.
        let (x, t', c, d, s) = extract-some now proto peers (ack u r t a) e in
        message_of-ack now t' t proto _ x u a r c d s,
    λ (d, c, s, p, q, v). ground arith,
  )
