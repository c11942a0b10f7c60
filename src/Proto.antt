-- ===== src/Proto.antt =====
-- src/utils/proto.rs and src/proto/message.proto: messages on the wire.
pub mod Base64
pub mod Extract
pub mod RoundTrip
use Prim.Native.String.{String}
use dtchat.Prelude.{
  ℕ, zero, suc, ◌%◌, ℤ, Bool, true, false, ◌||◌, ◌&&◌, List, [], ◌∷◌, ◌++◌, Option, none, some,
  is_some, ℕ_eq, String_eq, ◌==◌, leb, if◌then◌else◌, find, take_while, length, drop,
}
use dtchat.Time.{Instant}
use dtchat.Config.{Peer, default_peer}
use dtchat.Message.{ChatMessage, MessageStatus, received, tx_time}

-- The messages of message.proto, as `prost` generates them. Bytes are numbers.
pub record TextMessage : Type 0 where
  pub content : String
  pub reply_to_uuid : Option String

pub record FileTransfer : Type 0 where
  pub filename : String
  pub mime_type : String
  pub file_size : ℕ
  pub chunk_data : List ℕ
  pub chunk_index : ℕ
  pub total_chunks : ℕ
  pub file_hash : String

pub record PresenceUpdate : Type 0 where
  pub status : ℤ

pub record DeliveryStatus : Type 0 where
  pub message_uuid : String
  pub received : Bool
  pub read : Bool

pub data Content : Type 0 where
  text : TextMessage → Content
  file : FileTransfer → Content
  presence : PresenceUpdate → Content
  delivery : DeliveryStatus → Content

pub record ProtoMessage : Type 0 where
  pub uuid : String
  pub sender_uuid : String
  pub timestamp : ℤ
  pub room_uuid : String
  pub content : Option Content

-- The crates `prost` and `base64`.
pub record Codec : Type 0 where
  pub proto_encode : ProtoMessage → List ℕ
  pub proto_decode : List ℕ → Option ProtoMessage
  pub base64_encode : List ℕ → List ℕ
  pub base64_decode : List ℕ → Option (List ℕ)

pub data DeserializedMessage (T : Type 0) : Type 0 where
  chat_message : ChatMessage T → DeserializedMessage T
  ack :
      (message_uuid : String) (is_read : Bool) (ack_time : T) (acker_uuid : String)
      → DeserializedMessage T

-- `is_ascii_alphanumeric`, `+` or `/`: the letters of base64.
unfoldable pub is_letter : ℕ → Bool
is_letter b =
    (leb b'0' b && leb b b'9')
    || (leb b'A' b && leb b b'Z')
    || (leb b'a' b && leb b b'z')
    || b == b'+'
    || b == b'/'

-- The loop `while normalised.len() % 4 != 0`, which takes at most three rounds.
unfoldable pub pad : ℕ → List ℕ → List ℕ
pad zero l = l
pad (suc fuel) l = let longer = pad fuel (l ++ b'=' ∷ []) in if length l % 4 == 0 then l else longer

-- The leading run of letters and padding, and its letters.
pub core_of : List ℕ → List ℕ
unfolding is_letter
core_of buf =
    take_while (λ b. if b == b'=' then false else true)
      (take_while (λ b. is_letter b || b == b'=') buf)

pub decode_adu_base64 : Codec → List ℕ → Option (List ℕ)
unfolding core_of pad
decode_adu_base64 c buf =
    let core = core_of buf in
    if length core == 0 || length core % 4 == 1 then none else c.base64_decode (pad 3 core)

-- One round of the loop: the message at this offset, if it decodes and has content.
pub decode_at : Codec → List ℕ → Option ProtoMessage
decode_at c buf = elim (decode_adu_base64 c buf) [
  | none ↦ none
  | some bytes ↦ elim (c.proto_decode bytes) [
    | none ↦ none
    | some msg ↦ if is_some msg.content then some msg else none
  ]
]

-- The loop over the offsets.
decode_from : Codec → List ℕ → List ℕ → Option ProtoMessage
decode_from c buf [] = none
decode_from c buf (start ∷ starts) =
    if leb (length buf) start then none else elim (decode_at c (drop start buf)) [
      | some msg ↦ some msg
      | none ↦ decode_from c buf starts
    ]

pub decode_proto_tolerant : Codec → List ℕ → Option ProtoMessage
unfolding decode_from
decode_proto_tolerant c buf = decode_from c buf (0 ∷ 1 ∷ [])

unfoldable pub find_peer_by_id : List Peer → String → Option Peer
find_peer_by_id peers id = find (λ p. p.uuid == id) peers

abbrev pub peer_or_default : Option Peer → Peer
peer_or_default none = default_peer
peer_or_default (some p) = p

module _ {T : Type 0} ⦃i : Instant T⦄ where
  unfoldable pub construct_proto_message : ChatMessage T → ProtoMessage
  unfolding tx_time
  construct_proto_message m = record {
    uuid = m.uuid;
    sender_uuid = m.sender.uuid;
    timestamp = i.millis (tx_time m.shipment_status);
    room_uuid = "default";
    content = some (text (record { content = m.text; reply_to_uuid = m.response }));
  }

  unfoldable pub serialize_message : Codec → ChatMessage T → List ℕ
  serialize_message c m = c.base64_encode (c.proto_encode (construct_proto_message m))

  unfoldable pub chat_of :
      T → ProtoMessage → Peer → String → Option String → T → DeserializedMessage T
  chat_of now proto sender shown reply_to tx = chat_message (record {
    uuid = proto.uuid;
    response = reply_to;
    sender = sender;
    text = shown;
    shipment_status = received tx now;
  })

  unfoldable pub message_of : T → ProtoMessage → Peer → Content → T → DeserializedMessage T
  unfolding chat_of
  message_of now proto sender (delivery d) t = ack d.message_uuid d.read t proto.sender_uuid
  message_of now proto sender (text x) t = chat_of now proto sender x.content x.reply_to_uuid t
  message_of now proto sender (file x) t =
      chat_of now proto sender "File transfer (not implemented for display)" none t
  message_of now proto sender (presence x) t =
      chat_of now proto sender "Presence update (not implemented for display)" none t

  -- `now` is what `Utc::now()` returns.
  unfoldable pub extract_message_from_proto :
      T → ProtoMessage → List Peer → Option (DeserializedMessage T)
  unfolding message_of find_peer_by_id
  extract_message_from_proto now proto peers = elim proto.content [
    | none ↦ none
    | some content ↦ elim (i.of_millis proto.timestamp) [
      | none ↦ none
      | some t ↦ some (
          message_of now proto (peer_or_default (find_peer_by_id peers proto.sender_uuid)) content
            t)
    ]
  ]

  unfoldable pub deserialize_message :
      Codec → T → List ℕ → List Peer → Option (DeserializedMessage T)
  deserialize_message c now buf peers = elim (decode_proto_tolerant c buf) [
    | none ↦ none
    | some proto ↦ extract_message_from_proto now proto peers
  ]
