-- ===== src/Tests/Wire.antt =====
-- Messages on the wire: the theorems at a message and a frame like those that src/utils/proto.rs
-- tests.
use dtchat.Tests.Codecs.{has_byte}
use dtchat.Prelude.{
  if◌then◌else◌, ℕ, ◌≡◌, refl, ◌⊎◌, ◌↔◌, false, true, [], ◌∷◌, none, some, pos, arith,
}
use dtchat.Message.{ChatMessage, tx_time}
use dtchat.Proto.{
  Codec, pad, ProtoMessage, DeliveryStatus, delivery, chat_message, ack, is_letter,
  construct_proto_message, deserialize_message, extract_message_from_proto,
}
use dtchat.Proto.RoundTrip.{OnWire, misread, inbound, deserialize-framed}
use dtchat.Proto.Extract.{IsInbound, extract-IsInbound, extract-ack_iff, extract-eq-none_iff}
use dtchat.Tests.Samples.{clock, earth, mars, outbound_at}

abbrev hello : ChatMessage ℕ
hello = outbound_at "m" 310 []

-- Crates that know one message: its bytes are 8, 1, and their base64 text is "CAE=".
abbrev one_message : Codec
one_message = record {
  proto_encode = λ p. 8 ∷ 1 ∷ [];
  proto_decode = λ bytes. some (construct_proto_message hello);
  base64_encode = λ bytes. b'C' ∷ b'A' ∷ b'E' ∷ b'=' ∷ [];
  base64_decode = λ text. if has_byte 0 b'C' text then some (8 ∷ 1 ∷ []) else none;
}

hello-OnWire : OnWire one_message (construct_proto_message hello)
unfolding is_letter
hello-OnWire = record {
  core = b'C' ∷ b'A' ∷ b'E' ∷ [];
  pads = 1;
  is_text = record {
    letters = (refl, (refl, (refl, tt)));
    some_letters = omega arith;
    few_pads = omega arith;
    whole = refl;
  };
  encoded = refl;
  decoded = refl;
  parsed = refl;
}

-- The padding is lost, a length byte stands in front, which reads as a letter, and a NUL behind.
deserialize-framed_example :
    deserialize_message one_message 900 (b'L' ∷ b'C' ∷ b'A' ∷ b'E' ∷ 0 ∷ []) (earth ∷ [])
    ≡ some (chat_message (inbound hello (earth ∷ []) 310 900))
unfolding is_letter tx_time hello-OnWire pad
deserialize-framed_example =
    deserialize-framed one_message hello hello-OnWire 900 310 (earth ∷ []) (0 ∷ []) refl refl
      (misread b'L' refl λ bytes p e d. cc)

-- A delivery status, as an ACK carries it.
abbrev status : ProtoMessage
status = record {
  uuid = "a";
  sender_uuid = "30";
  timestamp = pos 700;
  room_uuid = "default";
  content = some (delivery (record { message_uuid = "m"; received = true; read = false }));
}

abbrev empty : ProtoMessage
empty = record status { content = none }

extract-IsInbound_example :
    IsInbound 900 (construct_proto_message hello) (earth ∷ []) (inbound hello (earth ∷ []) 310 900)
unfolding extract_message_from_proto construct_proto_message
extract-IsInbound_example =
    extract-IsInbound 900 (construct_proto_message hello) (earth ∷ [])
      (inbound hello (earth ∷ []) 310 900) refl

extract-ack_iff_example :
    (extract_message_from_proto {T = ℕ} 900 status (mars ∷ []) ≡ some (ack "m" false 700 "30")) ↔ (
      (d : DeliveryStatus) × (status.content ≡ some (delivery d))
      × (clock.of_millis status.timestamp ≡ some 700)
      × (d.message_uuid ≡ "m")
      × (d.read ≡ false)
      × (status.sender_uuid ≡ "30"))
extract-ack_iff_example = extract-ack_iff 900 status (mars ∷ []) "m" "30" false 700

extract-eq-none_iff_example :
    (extract_message_from_proto {T = ℕ} 900 empty [] ≡ none)
    ↔ ((empty.content ≡ none) ⊎ (clock.of_millis empty.timestamp ≡ none))
extract-eq-none_iff_example = extract-eq-none_iff 900 empty []
