-- ===== src/Suite.antt =====
-- The tests that src/app.rs and src/utils/proto.rs carry, as functions of the clock's reading: each
-- gives what the test compares. Seconds are added to and taken from an instant by `after` and `before`.
pub mod Orders
pub mod Wires
use Prim.Native.Char.{code}
use Prim.Native.String.{String, [], ◌∷◌}
use dtchat.Prelude.{
  ℕ, Ordering, Bool, false, not, is_some, all, ◌==◌, ℕ_eq, List, [], ◌∷◌, ◌++◌, Option, none, some,
  map,
}
use dtchat.Time.{Instant}
use dtchat.Config.{Peer}
use dtchat.Message.{ChatMessage, Delivery, sent, received}
use dtchat.Model.{
  World, MessageDirection, new_model, new_handler, add_message, update_message_with_ack,
}
use dtchat.Model.Order.{relative_cmp}
use dtchat.Proto.{
  Codec, DeserializedMessage, chat_message, ack, serialize_message, deserialize_message,
}

-- src/app.rs: `peer`, `model`, `received`, `sent` and `order`.
abbrev pub peer : String → String → Peer
peer uuid name = record { uuid = uuid; name = name; endpoints = []; color = 0 }

abbrev pub test_model : {T : Type 0} → World T Unit
test_model = record {
  model = new_model (peer "10" "earth" ∷ peer "30" "mars" ∷ []) (peer "10" "earth") [] none;
  handlers = λ j. new_handler;
}

abbrev pub received_from : {T : Type 0} → String → Peer → T → T → ChatMessage T
received_from uuid sender tx rx = record {
  uuid = uuid;
  response = none;
  sender = sender;
  text = "hi";
  shipment_status = received tx rx;
}

abbrev pub sent_by : {T : Type 0} → String → Peer → T → ChatMessage T
sent_by uuid local tx = record {
  uuid = uuid;
  response = none;
  sender = local;
  text = "hi";
  shipment_status = sent tx [];
}

abbrev pub order : {T : Type 0} → World T Unit → List String
order w = map (λ m. m.uuid) w.model.messages

module _ {T : Type 0} ⦃i : Instant T⦄ (before after : T → ℕ → T) where
  pub delayed_arrival_sorts_to_bottom : T → List String
  unfolding add_message
  delayed_arrival_sorts_to_bottom now =
      let mars = peer "30" "mars" in
      let w =
        add_message (received_from "fast" mars now now) MessageDirection.received test_model in
      order (
        add_message (received_from "delayed" mars (before now 240) (after now 1))
          MessageDirection.received w)

  pub sent_and_received_interleave_by_local_time : T → List String
  unfolding add_message
  sent_and_received_interleave_by_local_time now =
      let earth = peer "10" "earth" in
      let mars = peer "30" "mars" in
      let w = add_message (sent_by "s1" earth now) MessageDirection.sent test_model in
      let w =
        add_message (received_from "r1" mars (before now 100) (after now 5))
          MessageDirection.received w in
      order (add_message (sent_by "s2" earth (after now 10)) MessageDirection.sent w)

  pub relative_local_anchors_received_on_rx : T → Ordering
  unfolding relative_cmp
  relative_local_anchors_received_on_rx now =
      let local = peer "10" "earth" in
      let early_tx_late_rx = received_from "a" (peer "30" "mars") (before now 240) (after now 1) in
      let our_send = sent_by "b" local now in relative_cmp local.uuid our_send early_tx_late_rx

module _ {T : Type 0} ⦃i : Instant T⦄ where
  pub ack_marks_only_matching_delivery : T → Bool × Bool
  unfolding add_message update_message_with_ack
  ack_marks_only_matching_delivery now =
      let delivery : Delivery T = record {
        peer_uuid = "30";
        peer_name = "mars";
        predicted_arrival = none;
        acked_at = none;
      } in
      let msg = record (sent_by "m" (peer "10" "earth") now) {
        shipment_status = sent now (delivery ∷ []);
      } in
      let w = add_message msg MessageDirection.sent test_model in
      let (m, first) = update_message_with_ack "m" "21" false now w.model in
      (first, (update_message_with_ack "m" "30" false now m).1)

-- src/utils/proto.rs: a byte string.
abbrev pub byte_string : String → List ℕ
byte_string [] = []
byte_string (c ∷ s) = code c ∷ byte_string s

abbrev pub moon_20 : Peer
moon_20 = record { uuid = "20"; name = "moon"; endpoints = []; color = 1 }

abbrev pub sample_peer : Peer
sample_peer = record { uuid = "10"; name = "earth"; endpoints = []; color = 2 }

abbrev pub sample : {T : Type 0} → String → String → T → ChatMessage T
sample uuid text tx = record {
  uuid = uuid;
  response = none;
  sender = sample_peer;
  text = text;
  shipment_status = sent tx [];
}

-- What the tests look at in a message that was read: its text, its uuid and its sender's.
abbrev pub seen : {T : Type 0} → Option (DeserializedMessage T) → Option (String × String × String)
seen none = none
seen (some (chat_message m)) = some (m.text, m.uuid, m.sender.uuid)
seen (some (ack u r t a)) = none

-- The ADUs that were captured.
abbrev pub jo_letters : List ℕ
jo_letters =
    byte_string
      "CiQ2NGIyNWQ1OS1kMTA3LTRmMWEtOGYyMy00NWUxN2Q3MTdlNzgSAjIwGIL3pr7nMyIHZGVmYXVsdCoECgJqbw"

abbrev pub check_letters : List ℕ
check_letters =
    byte_string
      "CiQ0YTNiZjQ3ZS00MDFiLTQ1ZDEtOGIxYi1hMjNlNDQzMjEwNjUSAjEwGL/n5b/nMyIHZGVmYXVsdCoHCgVjaGVjaw"

module _ {T : Type 0} ⦃i : Instant T⦄ (c : Codec) (now : T) where
  pub base64_round_trip_preserves_unicode : T → Bool × Option (String × String × String)
  unfolding serialize_message
  base64_round_trip_preserves_unicode tx =
      let wire = serialize_message c (sample "msg-1" "héllo 😀 мир" tx) in
      (all (λ b. not (b == 0)) wire, seen (deserialize_message c now wire (sample_peer ∷ [])))

  pub non_base64_input_is_rejected : Bool
  non_base64_input_is_rejected =
      not (is_some (deserialize_message c now (0 ∷ 255 ∷ 16 ∷ []) (sample_peer ∷ [])))

  pub bp_socket_trailing_junk_after_padding_is_recovered : Option (String × String × String)
  bp_socket_trailing_junk_after_padding_is_recovered =
      seen (deserialize_message c now (jo_letters ++ (byte_string "==U" ++ 0 ∷ [])) (moon_20 ∷ []))

  pub af_bp_send_leg_length_prefix_and_lost_pad_is_recovered : Option (String × String × String)
  af_bp_send_leg_length_prefix_and_lost_pad_is_recovered =
      seen (deserialize_message c now (92 ∷ (check_letters ++ byte_string "=")) (sample_peer ∷ []))

  pub trailing_nul_and_newline_are_tolerated : T → Option (String × String × String)
  unfolding serialize_message
  trailing_nul_and_newline_are_tolerated tx = seen (
      deserialize_message c now
        (serialize_message c (sample "msg-2" "hello over bp" tx) ++ 10 ∷ 0 ∷ []) (sample_peer ∷ []))
