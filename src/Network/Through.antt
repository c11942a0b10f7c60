-- ===== src/Network/Through.antt =====
-- What a network can still do for a message that was sent (src/layout/rooms/message_prompt.rs,
-- src/utils/socket.rs and src/app.rs).
use Prim.Native.String.{String}
use dtchat.Endpoint.{Endpoint}
use dtchat.Socket.{Net}
use dtchat.Prompt.Copies.{Copies, done, sends, fails}
use dtchat.Network.Sound.{IsSent-of_some}
use dtchat.Model.{AppEvent}
use dtchat.Prelude.{refl, ℕ, ◌≡◌, ◌≢◌, length, Bool, false, List, [], ◌∷◌, some, ℕ_eq, All}
use dtchat.Text.{starts_with}
use dtchat.Time.{Instant}
use dtchat.Config.{Peer}
use dtchat.Message.{ChatMessage, Delivery, sent, tx_time, acked}
use dtchat.Proto.{construct_proto_message}
use dtchat.Proto.RoundTrip.{OnWire}
use dtchat.Controller.{model_observer, SocketController, Env}
use dtchat.Model.{World}
use dtchat.Prompt.{Predict, SendTask, recipients_of, manage_send}
use dtchat.Prompt.Acked.{HasDistinctUuids}
use dtchat.Prompt.Answered.{with_uuid, IsOther}
use dtchat.Network.{Network, Reaches, start}
use dtchat.Network.Heard.{calls_along}
use dtchat.Network.Live.{IsAcked, Reaches-acked}
use dtchat.Network.Carried.{onwards, onwards-AreCarried, CanAnswer, IsFlying, AreCarried}
use dtchat.Network.Answering.{extend}

module _ {T P : Type 0} ⦃i : Instant T⦄ (env : Env) (controllers : ℕ → SocketController)
    (predict : Predict T P) (listens : ℕ → List Endpoint) (tasks : List (SendTask T)) (n : ℕ)
    (m : ChatMessage T) where
  -- A run that goes on until the ACKs of these peers have arrived.
  record ExtendedAll (ps : List Peer) (s u : Network T P) (r : Reaches env controllers predict s u)
      : Type 0 where
    after : Network T P
    onward : Reaches env controllers predict u after
    carried : AreCarried env controllers predict listens tasks u after onward
    run : Reaches env controllers predict s after
    others : All (IsOther m.uuid) (calls_along env controllers predict n s after run)
    are_acked : All (λ p. IsAcked env controllers predict n m.uuid p.uuid s after run) ps
    keeps :
        (v : String)
        → IsAcked env controllers predict n m.uuid v s u r
        → IsAcked env controllers predict n m.uuid v s after run

  Copies-are :
      (net : Net) (ds : List (Delivery T)) (ps : List Peer) (ts : List (SendTask T))
      (es : List AppEvent)
      → Copies net (record m { shipment_status = sent (tx_time m.shipment_status) ds }) ps ts es
      → All (λ t. construct_proto_message t.message ≡ construct_proto_message m) ts
  unfolding construct_proto_message tx_time
  Copies-are net ds _ _ _ done = tt
  Copies-are net ds _ _ _ (sends p e eps s ps ts es h k c) = (refl, Copies-are net ds ps ts es c)
  Copies-are net ds _ _ _ (fails p e eps x ps ts es h k c) = Copies-are net ds ps ts es c

  module _ (plain : starts_with m.text "[ACK]" ≡ false)
      (works : OnWire env.codec (construct_proto_message m)) (tx : T)
      (sent_at : i.of_millis (i.millis (tx_time m.shipment_status)) ≡ some tx)
      (copies : All
        (λ t. construct_proto_message t.message ≡ construct_proto_message m)
        tasks) where
    extend_all :
        (ps : List Peer)
        → All (λ p. CanAnswer env controllers listens tasks n m p.uuid) ps
        → (s u : Network T P) (r : Reaches env controllers predict s u)
        → All (IsOther m.uuid) (calls_along env controllers predict n s u r)
        → IsFlying m u
        → ExtendedAll ps s u r
    extend_all [] can s u r others flying = record {
      after = u;
      onward = start;
      carried = tt;
      run = r;
      others = others;
      are_acked = tt;
      keeps = λ v h. h;
    }
    extend_all (p ∷ ps) can s u r others flying =
        let e =
          extend env controllers predict listens tasks n m plain works tx sent_at p.uuid can.0
            copies s u r others flying in
        let rest = extend_all ps can.1 s e.after e.run e.others e.flying in
        record {
          after = rest.after;
          onward = onwards env controllers predict listens tasks e.onward rest.onward;
          carried =
              onwards-AreCarried env controllers predict listens tasks e.onward rest.onward
                e.carried rest.carried;
          run = rest.run;
          others = rest.others;
          are_acked = (rest.keeps p.uuid e.is_acked, rest.are_acked);
          keeps = λ v h. rest.keeps v (e.keeps v h);
        }

module _ {T P : Type 0} ⦃i : Instant T⦄ (env : Env) (controllers : ℕ → SocketController)
    (predict : Predict T P) (listens : ℕ → List Endpoint) (n : ℕ) (m : ChatMessage T)
    (plain : starts_with m.text "[ACK]" ≡ false)
    (works : OnWire env.codec (construct_proto_message m)) (tx : T)
    (sent_at : i.of_millis (i.millis (tx_time m.shipment_status)) ≡ some tx)
    (own : (k : ℕ) → (controllers k).observers ≡ k ∷ []) where
  -- A message can still get through: whatever has been sent, lost, delivered late, twice or to the
  -- wrong node since a node sent it, if its text is on the wire, there are steps after which the
  -- node's list holds the message once and unchanged, with one delivery for each recipient, all
  -- acknowledged; and in these steps nothing comes in but copies at nodes that listen on the endpoints
  -- that the tasks of the message send them to, and ACKs at nodes that listen on the endpoints that
  -- these go to, each as the listener there handles it, and none of them longer than the 1024 bytes of
  -- a datagram listener unless it comes through TCP. The message's uuid is new to the list, nothing
  -- else was added there under it, no two peers share one, and its text does not begin with "[ACK]";
  -- each node has one model; and for each recipient there is another node with that uuid, to which a
  -- task sends a copy, which knows the sender and whose ACK goes to an endpoint that the sender
  -- listens on, and the crates work for the message and its ACK, which are as short as said.
  pub Reaches-can_be_acked :
      (s : Network T P) (pbat : Bool) (w : World T P) (tasks : List (SendTask T))
      → manage_send env.net predict m pbat (s.models n) ≡ some (w, tasks)
      → All (λ x. x.uuid ≢ m.uuid) (s.models n).model.messages
      → HasDistinctUuids (s.models n).model.peers
      → All
          (λ p. CanAnswer env controllers listens tasks n m p.uuid)
          (recipients_of (s.models n).model)
      → (t u : Network T P) → t.models n ≡ w
      → (r : Reaches env controllers predict t u)
      → All (IsOther m.uuid) (calls_along env controllers predict n t u r)
      → IsFlying m u
      → (v : Network T P) × (q : Reaches env controllers predict u v) × (ds : List (Delivery T))
        × AreCarried env controllers predict listens tasks u v q
        × (with_uuid m.uuid (v.models n).model.messages
            ≡ record m { shipment_status = sent (tx_time m.shipment_status) ds } ∷ [])
        × (length ds ≡ length (recipients_of (s.models n).model))
        × (acked ds ≡ length ds)
  Reaches-can_be_acked s pbat w tasks made new distinct can t u at r others flying =
      let z = IsSent-of_some env controllers predict m (s.models n) w tasks pbat made in
      let copies =
        Copies-are env controllers predict listens tasks n m env.net z.deliveries _ _ _ z.copies in
      let x =
        extend_all env controllers predict listens tasks n m plain works tx sent_at copies
          (recipients_of (s.models n).model) can t u r others flying in
      let (ds, held, each, all) =
        Reaches-acked env controllers predict n own s m pbat w tasks made new distinct t x.after at
          x.run x.others x.are_acked in
      (x.after, x.onward, ds, x.carried, held, each, all)
