-- ===== src/Proto/RoundTrip.antt =====
-- Writing with src/utils/proto.rs and reading back, also through the framing of the transports.
use mathlib.Core.List.{append_assoc}
use dtchat.Prelude.{
  ℕ, zero, suc, ◌%◌, ◌<◌, ◌≡◌, refl, sym, ap, ◌∙◌, true, false, List, [], ◌∷◌, ◌++◌, none, some,
  length, length-append, replicate, arith,
}
use dtchat.Time.{Instant}
use dtchat.Config.{Peer}
use dtchat.Message.{ChatMessage, received, tx_time}
use dtchat.Proto.{
  Codec, ProtoMessage, Content, text, chat_message, is_letter, decode_adu_base64, decode_at,
  decode_proto_tolerant, find_peer_by_id, peer_or_default, construct_proto_message,
  serialize_message, extract_message_from_proto, deserialize_message,
}
use dtchat.Proto.Base64.{
  Stops, IsText, IsMisread, decode_at-IsMisread, decode_adu_base64-IsText, decode_adu_base64-none,
  decode_adu_base64-odd,
}

-- What `prost` and `base64` document, at one message: `base64_encode` writes letters, then at most
-- two `=` that complete the last quadruple, and each decoder undoes its encoder.
pub record OnWire (c : Codec) (p : ProtoMessage) : Type 0 where
  pub core : List ℕ
  pub pads : ℕ
  pub is_text : IsText core pads
  pub encoded : c.base64_encode (c.proto_encode p) ≡ core ++ replicate pads b'='
  pub decoded : c.base64_decode (c.base64_encode (c.proto_encode p)) ≡ some (c.proto_encode p)
  pub parsed : c.proto_decode (c.proto_encode p) ≡ some p

-- A byte that a transport puts in front: none; one that is no letter; a letter, in front of a whole
-- number of quadruples; or a letter with which the others are no message.
pub data Lead (c : Codec) (core : List ℕ) : Type 0 where
  bare : Lead c core
  stray : (b : ℕ) → is_letter b ≡ false → Lead c core
  counted : (b : ℕ) → is_letter b ≡ true → length core % 4 ≡ 0 → Lead c core
  misread : (b : ℕ) → is_letter b ≡ true → IsMisread c (b ∷ core) → Lead c core

abbrev pub bytes_of : {c : Codec} {core : List ℕ} → Lead c core → List ℕ
bytes_of bare = []
bytes_of (stray b h) = b ∷ []
bytes_of (counted b h e) = b ∷ []
bytes_of (misread b h e) = b ∷ []

Stops-pads : (k : ℕ) (rest : List ℕ) → Stops rest → Stops (replicate k b'=' ++ rest)
unfolding is_letter
Stops-pads zero rest h = h
Stops-pads (suc k) rest h = refl

-- What begins with two bytes that are no letters, or with one and ends, is no message.
pub deserialize-no_letters :
    {T : Type 0} ⦃i : Instant T⦄ (c : Codec) (now : T) (b : ℕ) (rest : List ℕ) (peers : List Peer)
    → Stops (b ∷ rest)
    → Stops rest
    → deserialize_message c now (b ∷ rest) peers ≡ none
unfolding deserialize_message decode_proto_tolerant decode_at
deserialize-no_letters c now b rest peers h k =
    ground (arith, decode_adu_base64-none c (b ∷ rest) h, decode_adu_base64-none c rest k)

module _ (c : Codec) (p : ProtoMessage) (x : Content) (e : p.content ≡ some x)
    (w : OnWire c p) where
  decode_at-core : (rest : List ℕ) → Stops rest → decode_at c (w.core ++ rest) ≡ some p
  unfolding decode_at
  decode_at-core rest h =
      let text = decode_adu_base64-IsText c w.core rest w.pads w.is_text h in
      let bytes = ap c.base64_decode (sym w.encoded) ∙ w.decoded in
      rw (text, decode_at) (rw (bytes, decode_at) (rw (w.parsed, decode_at) (rw e)))

  length-core : (rest : List ℕ) → 0 < length (w.core ++ rest)
  length-core rest = omega (arith, length-append w.core rest, w.is_text.some_letters)

  decode_proto-core :
      (rest : List ℕ) → Stops rest → decode_proto_tolerant c (w.core ++ rest) ≡ some p
  unfolding decode_proto_tolerant
  decode_proto-core rest h = ground (arith, decode_at-core rest h, length-core rest)

  decode_proto-after :
      (b : ℕ) (rest : List ℕ)
      → Stops rest
      → decode_at c (b ∷ (w.core ++ rest)) ≡ none
      → decode_proto_tolerant c (b ∷ (w.core ++ rest)) ≡ some p
  unfolding decode_proto_tolerant
  decode_proto-after b rest h miss = ground (arith, decode_at-core rest h, length-core rest)

  no_text :
      (b : ℕ) (rest : List ℕ)
      → decode_adu_base64 c (b ∷ (w.core ++ rest)) ≡ none
      → decode_at c (b ∷ (w.core ++ rest)) ≡ none
  unfolding decode_at
  no_text b rest miss = rw (miss, decode_at) refl

  pub decode_proto_tolerant-OnWire :
      (lead : Lead c w.core) (rest : List ℕ)
      → Stops rest
      → decode_proto_tolerant c (bytes_of lead ++ (w.core ++ rest)) ≡ some p
  decode_proto_tolerant-OnWire bare rest h = decode_proto-core rest h
  decode_proto_tolerant-OnWire (stray b n) rest h =
      decode_proto-after b rest h
        (no_text b rest (decode_adu_base64-none c (b ∷ (w.core ++ rest)) n))
  decode_proto_tolerant-OnWire (counted b l e) rest h = decode_proto-after b rest h (
      no_text b rest
        (decode_adu_base64-odd c (b ∷ w.core) rest (l, w.is_text.letters) h (omega arith)))
  decode_proto_tolerant-OnWire (misread b l e) rest h =
      decode_proto-after b rest h
        (decode_at-IsMisread c (b ∷ w.core) rest (l, w.is_text.letters) h e)

  module _ {T : Type 0} ⦃i : Instant T⦄ where
    -- The receiver reads the message that was written, whatever the transport put in front, dropped
    -- of the padding and added behind.
    pub deserialize_message-OnWire :
        (now : T) (peers : List Peer) (lead : Lead c w.core) (rest : List ℕ)
        → Stops rest
        → deserialize_message c now (bytes_of lead ++ (w.core ++ rest)) peers
          ≡ extract_message_from_proto now p peers
    unfolding deserialize_message
    deserialize_message-OnWire now peers lead rest h =
        rw (decode_proto_tolerant-OnWire lead rest h, deserialize_message)

    -- The same for the whole text that the encoder wrote, with or without junk behind it.
    pub deserialize_message-encoded :
        (now : T) (peers : List Peer) (rest : List ℕ)
        → Stops rest
        → deserialize_message c now (c.base64_encode (c.proto_encode p) ++ rest) peers
          ≡ extract_message_from_proto now p peers
    deserialize_message-encoded now peers rest h =
        rw (w.encoded, append_assoc w.core (replicate w.pads b'=') rest)
          (deserialize_message-OnWire now peers bare (replicate w.pads b'=' ++ rest)
            (Stops-pads w.pads rest h))

module _ {T : Type 0} ⦃i : Instant T⦄ where
  -- The message as a peer that knows `peers` receives it at `now`.
  abbrev pub inbound : ChatMessage T → List Peer → (tx now : T) → ChatMessage T
  inbound m peers tx now = record {
    uuid = m.uuid;
    response = m.response;
    sender = peer_or_default (find_peer_by_id peers m.sender.uuid);
    text = m.text;
    shipment_status = received tx now;
  }

  extract-construct :
      (m : ChatMessage T) (now tx : T) (peers : List Peer)
      → i.of_millis (i.millis (tx_time m.shipment_status)) ≡ some tx
      → extract_message_from_proto now (construct_proto_message m) peers
        ≡ some (chat_message (inbound m peers tx now))
  unfolding extract_message_from_proto construct_proto_message
  extract-construct m now tx peers e = rw e

  content-construct :
      (m : ChatMessage T)
      → (construct_proto_message m).content
        ≡ some (text (record { content = m.text; reply_to_uuid = m.response }))
  unfolding construct_proto_message
  content-construct m = refl

  module _ (c : Codec) (m : ChatMessage T) (w : OnWire c (construct_proto_message m)) (now tx : T)
      (peers : List Peer) (rest : List ℕ)
      (sent_at : i.of_millis (i.millis (tx_time m.shipment_status)) ≡ some tx)
      (stops : Stops rest) where
    -- A message survives the transports: with any of the padding of its base64 text lost, anything
    -- behind that does not go on with a letter, and at most one byte in front, the peer still reads its
    -- uuid, text, reply and time of sending (to the millisecond), and its sender where it knows the
    -- uuid. The byte in front is no letter of base64; or it is one, and the text has letters for whole
    -- quadruples, so that it had no padding to lose, or no message with content is decoded from the
    -- letters together with that byte.
    pub deserialize-framed :
        (lead : Lead c w.core)
        → deserialize_message c now (bytes_of lead ++ (w.core ++ rest)) peers
          ≡ some (chat_message (inbound m peers tx now))
    deserialize-framed lead =
        deserialize_message-OnWire c (construct_proto_message m) _ (content-construct m) w now peers
          lead rest stops
        ∙ extract-construct m now tx peers sent_at

    -- A message that is serialized and read back, with or without junk behind it, is the message as
    -- the peer receives it.
    pub deserialize-serialize :
        deserialize_message c now (serialize_message c m ++ rest) peers
        ≡ some (chat_message (inbound m peers tx now))
    unfolding serialize_message
    deserialize-serialize =
        deserialize_message-encoded c (construct_proto_message m) _ (content-construct m) w now
          peers rest stops
        ∙ extract-construct m now tx peers sent_at
