-- ===== src/Network/Answering.antt =====
-- A peer answers a message that was sent, and its ACK arrives (src/layout/rooms/message_prompt.rs,
-- src/utils/socket.rs and src/app.rs).
use Prim.Native.String.{String}
use mathlib.Core.Option
use dtchat.Prelude.{
  ℕ, zero, suc, ◌≡◌, refl, sym, ap, subst, ◌∙◌, inl, inr, true, false, List, [], ◌∷◌, ◌++◌, Option,
  none, some, get_elem?, ℕ_eq, nat_eq_iff, All, All-append,
}
use dtchat.Text.{starts_with}
use dtchat.Time.{Instant}
use dtchat.Endpoint.{Endpoint}
use dtchat.Message.{ChatMessage, tx_time}
use dtchat.Proto.{
  ProtoMessage, DeserializedMessage, chat_message, construct_proto_message, serialize_message,
  deserialize_message,
}
use dtchat.Proto.RoundTrip.{OnWire, deserialize-serialize}
use dtchat.Controller.{
  model_observer, SocketController, Outgoing, Draws, Env, create_ack_message, send_ack_message,
  handle_payload,
}
use dtchat.Controller.Handling.{
  IsAnswer, handle_payload-IsAnswer, handle_payload-acked, handle_payload-answers,
  deserialize-create_ack,
}
use dtchat.Controller.Steps.{calls_of}
use dtchat.Prompt.{Predict, SendTask}
use dtchat.Prompt.Answered.{IsOther}
use dtchat.Network.{Network, payload_of, ack_of, Step, arrives, is_answered, Reaches, start, next}
use dtchat.Network.Heard.{calls_at, calls_along}
use dtchat.Network.Live.{IsAckOf, IsAcked}
use dtchat.Network.Carried.{Hears-IsHandled, Hears, CanAnswer, IsFlying, IsCarried, AreCarried}

All-get_elem? {ℓ κ} :
    {A : Type ℓ} (Q : A → Type κ) (xs : List A) (k : ℕ) (x : A)
    → All Q xs
    → get_elem? xs k ≡ some x
    → Q x
All-get_elem? Q [] k x h e = cc
All-get_elem? Q (y ∷ ys) zero x h e = subst Q (Option.some-injective y x e) h.0
All-get_elem? Q (y ∷ ys) (suc k) x h e = All-get_elem? Q ys k x h.1 e

abbrev chat_uuid : {T : Type 0} → Option (DeserializedMessage T) → String
chat_uuid (some (chat_message m)) = m.uuid
chat_uuid _ = ""

module _ {T P : Type 0} ⦃i : Instant T⦄ (env : Env) (controllers : ℕ → SocketController)
    (predict : Predict T P) (listens : ℕ → List Endpoint) (tasks : List (SendTask T)) (n : ℕ)
    (m : ChatMessage T) where
  -- A run that goes on until the peer's ACK has arrived.
  pub record Extended (uuid : String) (s u : Network T P) (r : Reaches env controllers predict s u)
      : Type 0 where
    pub after : Network T P
    pub onward : Reaches env controllers predict u after
    pub carried : AreCarried env controllers predict listens tasks u after onward
    pub run : Reaches env controllers predict s after
    pub others : All (IsOther m.uuid) (calls_along env controllers predict n s after run)
    pub flying : IsFlying m after
    pub is_acked : IsAcked env controllers predict n m.uuid uuid s after run
    pub keeps :
        (v : String)
        → IsAcked env controllers predict n m.uuid v s u r
        → IsAcked env controllers predict n m.uuid v s after run

  module _ (plain : starts_with m.text "[ACK]" ≡ false)
      (works : OnWire env.codec (construct_proto_message m)) (tx : T)
      (sent_at : i.of_millis (i.millis (tx_time m.shipment_status)) ≡ some tx) (uuid : String)
      (can : CanAnswer env controllers listens tasks n m uuid)
      (sends_copies : All
        (λ t. construct_proto_message t.message ≡ construct_proto_message m)
        tasks) where
    abbrev payload : List ℕ
    payload = payload_of env.codec (construct_proto_message m) []

    abbrev reply : ProtoMessage
    reply = create_ack_message can.draws m can.me.uuid false

    answers :
        (u : Network T P)
        → (handle_payload env can.draws (controllers can.node) can.on payload u.models).0
          ≡ some (send_ack_message env.codec can.draws can.socket m can.me.uuid false)
    unfolding serialize_message
    answers u =
        ap (λ x. x.0)
          (handle_payload-answers env can.draws (controllers can.node) m can.me can.sender can.on
            can.target can.socket can.is_local can.is_known plain can.is_chosen can.opens tx
            can.time [] [] works can.on_wire sent_at can.in_range tt tt u.models u.models can.draws
            (controllers n) none).0

    abbrev answer :
        (u : Network T P)
        → IsAnswer env can.draws
            (controllers can.node)
            can.on
            payload
            (send_ack_message env.codec can.draws can.socket m can.me.uuid false)
    answer u =
        handle_payload-IsAnswer env can.draws (controllers can.node) can.on payload u.models
          (send_ack_message env.codec can.draws can.socket m can.me.uuid false) (answers u)

    same_reply :
        (o : Outgoing) (a : IsAnswer env can.draws (controllers can.node) can.on payload o)
        → ack_of can.draws a ≡ reply
    unfolding create_ack_message serialize_message
    same_reply o a =
        let me : a.me ≡ can.me =
          Option.some-injective a.me can.me (sym a.is_local ∙ can.is_local) in
        let read =
          deserialize-serialize env.codec m works can.draws.rx_time tx (controllers can.node).peers
            [] sent_at tt in
        let named : a.message.uuid ≡ m.uuid = ap chat_uuid (sym a.is_chat ∙ read) in
        rw (me, named) refl

    -- The ACK that is put on the wire.
    answer_lem : (u : Network T P) → ack_of can.draws (answer u) ≡ reply
    answer_lem u = same_reply _ (answer u)

    abbrev answered : Network T P → Network T P
    answered u = record {
      models = (handle_payload env can.draws (controllers can.node) can.on payload u.models).1;
      wire = ack_of can.draws (answer u) ∷ u.wire;
    }

    abbrev answers-Step :
        (u : Network T P) → IsFlying m u → Step env controllers predict u (answered u)
    answers-Step u (k, found) =
        is_answered can.node can.draws can.on k (construct_proto_message m) []
          (send_ack_message env.codec can.draws can.socket m can.me.uuid false) found tt (answers u)

    reply-IsAckOf : IsAckOf T env.codec m.uuid uuid reply
    unfolding create_ack_message
    reply-IsAckOf = record {
      status = record { message_uuid = m.uuid; received = true; read = false };
      is_delivery = refl;
      names = refl;
      from = can.named;
      time = can.time;
      in_range = can.in_range;
      on_wire = can.on_wire;
    }

    -- The sender takes the ACK, and answers nothing.
    module _ (d : Draws T) (p : ProtoMessage) (same : p ≡ reply) where
      takes :
          (u : Network T P)
          → (handle_payload env d
              (controllers n)
              can.on_back
              (payload_of env.codec p [])
              u.models).0
            ≡ none
      unfolding send_ack_message
      takes u =
          subst
            (λ q.
              (handle_payload env d (controllers n) can.on_back (payload_of env.codec q [])
                u.models).0
              ≡ none)
            (sym same)
            (ap (λ x. x.0)
              (handle_payload-acked env can.draws m can.me.uuid can.socket can.time [] can.on_wire
                can.in_range tt u.models d (controllers n) can.on_back))

      abbrev taken : Network T P → Network T P
      taken u = record {
        models =
            (handle_payload env d (controllers n) can.on_back (payload_of env.codec p [])
              u.models).1;
        wire = u.wire;
      }

      abbrev takes-Step :
          (u : Network T P) → get_elem? u.wire 0 ≡ some p → Step env controllers predict u (taken u)
      takes-Step u found = arrives n d can.on_back 0 p [] found tt (takes u)

      reads-IsOther : All (IsOther m.uuid) (
          calls_of (
            deserialize_message env.codec d.rx_time
              (payload_of env.codec p [])
              (controllers n).peers))
      unfolding send_ack_message
      reads-IsOther =
          subst
            (λ q. All (IsOther m.uuid) (
              calls_of (
                deserialize_message env.codec d.rx_time (payload_of env.codec q [])
                  (controllers n).peers)))
            (sym same)
            (rw
              (deserialize-create_ack env can.draws m can.me.uuid can.socket can.time d.rx_time
                (controllers n).peers [] can.on_wire can.in_range tt)
              (tt, tt))

    -- Both are carried from endpoint to endpoint.
    answers-IsCarried :
        (u : Network T P) (flying : IsFlying m u)
        → IsCarried env controllers predict listens tasks u (answered u) (answers-Step u flying)
    answers-IsCarried u (k, found) = record {
      task = can.task;
      number = can.number;
      is_task = can.is_task;
      is_copy = sym (All-get_elem? _ tasks can.number can.task sends_copies can.is_task);
      comes = can.comes;
      handled =
          Hears-IsHandled env can.draws (controllers can.node) listens can.node
            can.task.socket.eidpoint can.on payload u.models can.comes;
    }

    back_again :
        (u : Network T P)
        → Hears listens n can.socket.eidpoint can.on_back
            (payload_of env.codec (ack_of can.draws (answer u)) [])
    back_again u =
        subst (λ q. Hears listens n can.socket.eidpoint can.on_back (payload_of env.codec q []))
          (sym (answer_lem u)) can.comes_back

    takes-IsCarried :
        (u : Network T P)
        → let p = ack_of can.draws (answer u) in
          IsCarried env controllers predict listens tasks
            (answered u)
            (taken can.draws p (answer_lem u) (answered u))
            (takes-Step can.draws p (answer_lem u) (answered u) refl)
    unfolding send_ack_message
    takes-IsCarried u = record {
      node = can.node;
      draws = can.draws;
      by = can.on;
      payload = payload;
      outgoing = send_ack_message env.codec can.draws can.socket m can.me.uuid false;
      answer = answer u;
      is_ack = refl;
      comes = back_again u;
      handled =
          Hears-IsHandled env can.draws (controllers n) listens n can.socket.eidpoint can.on_back
            (payload_of env.codec (ack_of can.draws (answer u)) []) (answered u).models
            (back_again u);
    }

    pub extend :
        (s u : Network T P) (r : Reaches env controllers predict s u)
        → All (IsOther m.uuid) (calls_along env controllers predict n s u r)
        → IsFlying m u
        → Extended uuid s u r
    unfolding calls_along calls_at
    extend s u r others (k, found) =
        let u' = answered u in
        let p = ack_of can.draws (answer u) in
        let same = answer_lem u in
        record {
          after = taken can.draws p same u';
          onward =
              next u' _ (next u u' start (answers-Step u (k, found)))
                (takes-Step can.draws p same u' refl);
          carried = ((tt, answers-IsCarried u (k, found)), takes-IsCarried u);
          run =
              next u' _ (next u u' r (answers-Step u (k, found)))
                (takes-Step can.draws p same u' refl);
          others =
              All-append (IsOther m.uuid) (calls_along env controllers predict n s u r ++ _) _
                (All-append (IsOther m.uuid) (calls_along env controllers predict n s u r) _ others
                  (rw can.elsewhere tt))
                (rw ((nat_eq_iff n n).1 refl) (reads-IsOther can.draws p same));
          flying = (suc k, found);
          is_acked = inr (refl, subst (IsAckOf T env.codec m.uuid uuid) (sym same) reply-IsAckOf);
          keeps = λ v h. inl (inl h);
        }
