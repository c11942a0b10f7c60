-- ===== src/Network/Truth.antt =====
-- What the marks in a node's list mean when something arrives (src/utils/socket.rs).
use mathlib.Core.List.{Mem, mem-cons_self}
use mathlib.Core.List.Perm
use dtchat.Prelude.{
  ℕ, ◌≡◌, refl, sym, subst, ap, ◌∙◌, List, [], ◌∷◌, Option, none, some, get_elem?, ℕ_eq, nat_eq_iff,
  All, All-imp, arith,
}
use dtchat.Time.{Instant}
use dtchat.Endpoint.{Endpoint}
use dtchat.Config.{Peer}
use dtchat.Message.{ChatMessage}
use dtchat.Proto.{
  Codec, ProtoMessage, Content, DeliveryStatus, delivery, DeserializedMessage, chat_message, ack,
  extract_message_from_proto, deserialize_message,
}
use dtchat.Proto.Base64.{Stops}
use dtchat.Proto.RoundTrip.{OnWire, deserialize_message-encoded}
use dtchat.Proto.Extract.{extract-IsInbound, extract-ack_iff}
use dtchat.Model.{World, MessageDirection}
use dtchat.Model.Events.{count}
use dtchat.Model.Runs.{adds, run, uuids, run-perm}
use dtchat.Model.Justified.{Justified, CallJustified, run-Justified}
use dtchat.Controller.{
  model_observer, SocketController, Outgoing, Draws, Env, Models, create_ack_message,
  handle_payload,
}
use dtchat.Controller.Handling.{IsAnswer}
use dtchat.Controller.Steps.{calls_of, repeat, handle_payload-run}
use dtchat.Network.{Network, payload_of, ack_of}
use dtchat.Network.Grows.{
  Has, Grows, Has-Grows, mem-run, Justified-imp, repeat-Justified, All-get_elem?,
}

pub count_self : (n : ℕ) → count n (n ∷ []) ≡ 1
count_self n = rw ((nat_eq_iff n n).1 refl) refl

-- The crates work for a message.
abbrev pub Works : Codec → ProtoMessage → Type 0
Works codec p = ((x : Content) × (p.content ≡ some x)) × OnWire codec p

module _ {T P : Type 0} (controllers : ℕ → SocketController) where
  -- A message that reports a delivery comes from a node that has the message.
  abbrev pub Speaks : Models T P → ProtoMessage → Type 0
  Speaks models p =
      (x : DeliveryStatus)
      → p.content ≡ some (delivery x)
      → Has controllers models p.sender_uuid x.message_uuid

  -- Every mark and every ACK on the way stands for a message that the peer has.
  pub record IsTrue (s : Network T P) : Type 0 where
    pub marks :
        (n : ℕ)
        → All (Justified (λ u a t. Has controllers s.models a u)) (s.models n).model.messages
    pub speaks : All (Speaks s.models) s.wire

  pub Speaks-Grows :
      (models models' : Models T P) (ps : List ProtoMessage)
      → Grows controllers models models'
      → All (Speaks models) ps
      → All (Speaks models') ps
  Speaks-Grows models models' ps g h =
      All-imp {P = Speaks models} {Q = Speaks models'}
        (λ p f x e. Has-Grows controllers models models' p.sender_uuid x.message_uuid g (f x e)) ps
        h

  pub marks-Grows :
      (models models' : Models T P) (ms : List (ChatMessage T))
      → Grows controllers models models'
      → All (Justified (λ u a t. Has controllers models a u)) ms
      → All (Justified (λ u a t. Has controllers models' a u)) ms
  marks-Grows models models' ms g h =
      Justified-imp _ _ (λ u a t. Has-Grows controllers models models' a u g) ms h

module _ {T P : Type 0} ⦃i : Instant T⦄ where
  mem-adds :
      (m : ChatMessage T) (w : World T P)
      → Mem m.uuid (uuids (run (repeat 1 (adds m MessageDirection.received ∷ [])) w).model.messages)
  mem-adds m w =
      (Perm.mem_iff (run-perm (repeat 1 (adds m MessageDirection.received ∷ [])) w)).1 mem-cons_self

  module _ (env : Env) (controllers : ℕ → SocketController)
      (own : (n : ℕ) → (controllers n).observers ≡ n ∷ []) where
    calls-extract :
        (models : Models T P) (p : ProtoMessage) (now : T) (peers : List Peer)
        (r : Option (DeserializedMessage T))
        → Speaks controllers models p
        → extract_message_from_proto now p peers ≡ r
        → All (CallJustified (λ u a t. Has controllers models a u)) (calls_of r)
    calls-extract models p now peers none h e = tt
    calls-extract models p now peers (some (chat_message m)) h e =
        (rw ((extract-IsInbound now p peers m e).status) tt, tt)
    calls-extract models p now peers (some (ack u r t a)) h e =
        let (x, c, _, q, _, z) = (extract-ack_iff now p peers u a r t).0 e in
        (rw (← q, ← z) (h x c), tt)

    module _ (s : Network T P) (true' : IsTrue controllers s) (n : ℕ) (d : Draws T)
        (on : Option Endpoint) (k : ℕ) (p : ProtoMessage) (rest : List ℕ)
        (found : get_elem? s.wire k ≡ some p) (stops : Stops rest)
        (works : All (Works env.codec) s.wire) where
      abbrev pub arrived : Models T P
      arrived = (handle_payload env d (controllers n) on (payload_of env.codec p rest) s.models).1

      pub arrived-Grows : Grows controllers s.models arrived
      arrived-Grows j u h =
          subst (λ w. Mem u (uuids w.model.messages))
            (sym
              (handle_payload-run env d (controllers n) on (payload_of env.codec p rest) s.models
                j).0)
            (mem-run _ (s.models j) u h)

      arrived-calls : All (CallJustified (λ u a t. Has controllers s.models a u)) (
          calls_of (
            deserialize_message env.codec d.rx_time
              (payload_of env.codec p rest)
              (controllers n).peers))
      arrived-calls =
          let ((x, e), w) = All-get_elem? (Works env.codec) s.wire k p works found in
          let speaks = All-get_elem? (Speaks controllers s.models) s.wire k p true'.speaks found in
          calls-extract s.models p d.rx_time (controllers n).peers _ speaks (
            sym (
              deserialize_message-encoded env.codec p x e w d.rx_time (controllers n).peers rest
                stops))

      pub arrived-marks :
          (j : ℕ)
          → All (Justified (λ u a t. Has controllers arrived a u)) (arrived j).model.messages
      arrived-marks j = marks-Grows controllers s.models arrived _ arrived-Grows (
          subst (λ w. All (Justified (λ u a t. Has controllers s.models a u)) w.model.messages)
            (sym
              (handle_payload-run env d (controllers n) on (payload_of env.codec p rest) s.models
                j).0)
            (run-Justified (λ u a t. Has controllers s.models a u) _ (s.models j)
              (repeat-Justified _ (count j (controllers n).observers) _ arrived-calls)
              (true'.marks j)))

      -- A node that answers a message has it.
      answered-Has :
          (o : Outgoing) (a : IsAnswer env d (controllers n) on (payload_of env.codec p rest) o)
          → Has controllers arrived a.me.uuid a.message.uuid
      answered-Has o a = record {
        node = n;
        me = a.me;
        local = a.is_local;
        named = refl;
        member =
            subst (λ w. Mem a.message.uuid (uuids w.model.messages))
              (sym (
                (handle_payload-run env d (controllers n) on (payload_of env.codec p rest) s.models
                  n).0
                ∙ ap
                    (λ r.
                      run (repeat (count n (controllers n).observers) (calls_of r)) (s.models n))
                    a.is_chat
                ∙ ap
                    (λ os.
                      run (repeat (count n os) (calls_of (some (chat_message a.message))))
                        (s.models n))
                    (own n)
                ∙ ap (λ m. run (repeat m (calls_of (some (chat_message a.message)))) (s.models n))
                    (count_self n)))
              (mem-adds a.message (s.models n));
      }

      pub answered-Speaks :
          (o : Outgoing) (a : IsAnswer env d (controllers n) on (payload_of env.codec p rest) o)
          → Speaks controllers arrived (ack_of d a)
      unfolding create_ack_message
      answered-Speaks o a x e =
          let same : a.message.uuid ≡ x.message_uuid = ground arith in
          rw (← same) (answered-Has o a)
