-- ===== src/Listener/Rounds/News.antt =====
-- What payloads say to the chat models (src/utils/proto.rs and src/utils/socket.rs).

use dtchat.Prelude.{ℕ, ◌≡◌, refl, List, [], ◌∷◌, Option, none, some}
use dtchat.Time.{Instant}
use dtchat.Config.{Peer}
use dtchat.Proto.{
  ProtoMessage, Content, text, delivery, file, presence, DeserializedMessage, chat_message, ack,
  find_peer_by_id, peer_or_default, chat_of, message_of, decode_proto_tolerant,
  extract_message_from_proto, deserialize_message,
}
use dtchat.Model.History.{Said, said}
use dtchat.Controller.{SocketController, Env, model_observer}

-- What the decoded messages say.
abbrev pub says : {T : Type 0} → Option (DeserializedMessage T) → List Said
says none = []
says (some (chat_message m)) = said m ∷ []
says (some (ack message_uuid is_read ack_time acker_uuid)) = []

module _ {T : Type 0} ⦃i : Instant T⦄ where
  message_of-says :
      (t t' : T) (proto : ProtoMessage) (sender : Peer) (content : Content) (tx : T)
      → says (some (message_of t proto sender content tx))
        ≡ says (some (message_of t' proto sender content tx))
  unfolding message_of chat_of
  message_of-says t t' proto sender (delivery d) tx = refl
  message_of-says t t' proto sender (text x) tx = refl
  message_of-says t t' proto sender (file x) tx = refl
  message_of-says t t' proto sender (presence x) tx = refl

  extract-says :
      (t t' : T) (proto : ProtoMessage) (peers : List Peer)
      → says (extract_message_from_proto t proto peers)
        ≡ says (extract_message_from_proto t' proto peers)
  unfolding extract_message_from_proto
  extract-says t t' proto peers =
      let sender = peer_or_default (find_peer_by_id peers proto.sender_uuid) in
      elim proto.content
        as (λ x.
          says (elim x [
            | none ↦ none
            | some content ↦ elim (i.of_millis proto.timestamp) [
              | none ↦ none
              | some tx ↦ some (message_of t proto sender content tx)
            ]
          ])
          ≡ says (elim x [
            | none ↦ none
            | some content ↦ elim (i.of_millis proto.timestamp) [
              | none ↦ none
              | some tx ↦ some (message_of t' proto sender content tx)
            ]
          ])) [
            | none ↦ refl
            | some content ↦
                elim (i.of_millis proto.timestamp)
                  as (λ y.
                    says (elim y [
                      | none ↦ none
                      | some tx ↦ some (message_of t proto sender content tx)
                    ])
                    ≡ says (elim y [
                      | none ↦ none
                      | some tx ↦ some (message_of t' proto sender content tx)
                    ])) [ none ↦ refl | some tx ↦ message_of-says t t' proto sender content tx ]
          ]

  -- What a payload says, whenever it is read.
  abbrev pub news : Env → SocketController → T → List ℕ → List Said
  news env c t payload = says (deserialize_message env.codec t payload c.peers)

  pub news-any :
      (env : Env) (c : SocketController) (t t' : T) (payload : List ℕ)
      → news env c t payload ≡ news env c t' payload
  unfolding deserialize_message
  news-any env c t t' payload =
      elim (decode_proto_tolerant env.codec payload)
        as (λ x.
          says (elim x [ none ↦ none | some proto ↦ extract_message_from_proto t proto c.peers ])
          ≡ says
              (elim x [ none ↦ none | some proto ↦ extract_message_from_proto t' proto c.peers ])) [
                | none ↦ refl
                | some proto ↦ extract-says t t' proto c.peers
              ]
