-- ===== src/Suite/Wires.antt =====
-- What the tests of src/utils/proto.rs give, with any crates that work for their messages.
use mathlib.Core.List.{append-nil}
use dtchat.Prelude.{
  ℕ, ◌≡◌, refl, ap, sym, ◌∙◌, true, not, all, List, [], ◌∷◌, ◌++◌, replicate, zero, suc, some, ℕ_eq,
  ◌==◌, arith,
}
use dtchat.Time.{Instant}
use dtchat.Message.{ChatMessage, tx_time}
use dtchat.Proto.{
  Codec, is_letter, construct_proto_message, serialize_message, deserialize_message,
  find_peer_by_id,
}
use dtchat.Proto.Base64.{Letters}
use dtchat.Proto.RoundTrip.{
  OnWire, stray, bare, deserialize-framed, deserialize-serialize, deserialize-no_letters,
}
use dtchat.Suite.{
  byte_string, moon_20, sample_peer, sample, seen, jo_letters, check_letters,
  base64_round_trip_preserves_unicode, non_base64_input_is_rejected,
  bp_socket_trailing_junk_after_padding_is_recovered,
  af_bp_send_leg_length_prefix_and_lost_pad_is_recovered, trailing_nul_and_newline_are_tolerated,
}

-- Neither a letter nor padding is a zero byte.
all-letters :
    (core : List ℕ) (k : ℕ)
    → Letters core
    → all (λ b. not (b == 0)) (core ++ replicate k b'=') ≡ true
unfolding is_letter
all-letters [] zero h = refl
all-letters [] (suc k) h = all-letters [] k tt
all-letters (b ∷ core) k h = ground (arith, all-letters core k h.1, h.0)

module _ {T : Type 0} ⦃i : Instant T⦄ (c : Codec) (now : T) where
  trailing_nul_and_newline-passes :
      (tx t : T)
      → OnWire c (construct_proto_message (sample "msg-2" "hello over bp" tx))
      → i.of_millis (i.millis tx) ≡ some t
      → trailing_nul_and_newline_are_tolerated c now tx ≡ some ("hello over bp", "msg-2", "10")
  unfolding trailing_nul_and_newline_are_tolerated is_letter tx_time find_peer_by_id
  trailing_nul_and_newline-passes tx t w e = ap seen (
      deserialize-serialize c (sample "msg-2" "hello over bp" tx) w now t (sample_peer ∷ [])
        (10 ∷ 0 ∷ []) e refl)

  -- A captured ADU is read if its letters are those of the message that was sent.
  bp_socket_trailing_junk-passes :
      (m : ChatMessage T) (w : OnWire c (construct_proto_message m)) (t : T)
      → w.core ≡ jo_letters
      → m.text ≡ "jo"
      → m.sender.uuid ≡ "20"
      → i.of_millis (i.millis (tx_time m.shipment_status)) ≡ some t
      → bp_socket_trailing_junk_after_padding_is_recovered c now ≡ some ("jo", m.uuid, "20")
  unfolding bp_socket_trailing_junk_after_padding_is_recovered is_letter find_peer_by_id
  bp_socket_trailing_junk-passes m w t core text from e =
      let read =
        deserialize-framed c m w now t (moon_20 ∷ []) (byte_string "==U" ++ 0 ∷ []) e refl bare in
      ap (λ l. seen (deserialize_message c now (l ++ (byte_string "==U" ++ 0 ∷ [])) (moon_20 ∷ [])))
        (sym core)
      ∙ ap seen read
      ∙ rw (text, from) refl

  af_bp_length_prefix-passes :
      (m : ChatMessage T) (w : OnWire c (construct_proto_message m)) (t : T)
      → w.core ≡ check_letters
      → m.text ≡ "check"
      → m.sender.uuid ≡ "10"
      → i.of_millis (i.millis (tx_time m.shipment_status)) ≡ some t
      → af_bp_send_leg_length_prefix_and_lost_pad_is_recovered c now ≡ some ("check", m.uuid, "10")
  unfolding af_bp_send_leg_length_prefix_and_lost_pad_is_recovered is_letter find_peer_by_id
  af_bp_length_prefix-passes m w t core text from e =
      let read =
        deserialize-framed c m w now t (sample_peer ∷ []) (byte_string "=") e refl
          (stray 92 refl) in
      ap (λ l. seen (deserialize_message c now (92 ∷ (l ++ byte_string "=")) (sample_peer ∷ [])))
        (sym core)
      ∙ ap seen read
      ∙ rw (text, from) refl

  non_base64-passes : non_base64_input_is_rejected c now ≡ true
  unfolding non_base64_input_is_rejected is_letter
  non_base64-passes =
      rw (deserialize-no_letters c now 0 (255 ∷ 16 ∷ []) (sample_peer ∷ []) refl refl) refl

  base64_round_trip-passes :
      (tx t : T)
      → OnWire c (construct_proto_message (sample "msg-1" "héllo 😀 мир" tx))
      → i.of_millis (i.millis tx) ≡ some t
      → base64_round_trip_preserves_unicode c now tx ≡ (true, some ("héllo 😀 мир", "msg-1", "10"))
  unfolding base64_round_trip_preserves_unicode is_letter tx_time find_peer_by_id serialize_message
  base64_round_trip-passes tx t w e =
      let msg = sample "msg-1" "héllo 😀 мир" tx in
      let clean =
        ap (all (λ b. not (b == 0))) w.encoded ∙ all-letters w.core w.pads w.is_text.letters in
      let read =
        ap (λ wire. deserialize_message c now wire (sample_peer ∷ []))
          (sym (append-nil (serialize_message c msg)))
        ∙ deserialize-serialize c msg w now t (sample_peer ∷ []) [] e tt in
      ap (λ b. (b, seen (deserialize_message c now (serialize_message c msg) (sample_peer ∷ []))))
        clean
      ∙ ap (λ r. (true, seen r)) read
