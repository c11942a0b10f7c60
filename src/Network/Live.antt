-- ===== src/Network/Live.antt =====
-- The ACKs that reach the sender of a message, among all that the nodes and the network do
-- (src/layout/rooms/message_prompt.rs, src/utils/socket.rs and src/app.rs).
use Prim.Native.String.{String}
use text.Mathlib.TextEquality.{eq_iff}
use dtchat.Prelude.{
  ℕ, ◌≡◌, ◌≢◌, ◌⊎◌, refl, sym, ap, subst, ◌∙◌, inl, inr, Bool, Bool-cases, List, [], ◌∷◌, ◌++◌,
  some, ℕ_eq, ◌==◌, String_eq, nat_eq_iff, length, All, All-imp,
}
use dtchat.Time.{Instant}
use dtchat.Message.{ChatMessage, Delivery, sent, tx_time, acked}
use dtchat.Message.Complete.{Answers, mark_each}
use dtchat.Proto.{Codec, ProtoMessage, DeliveryStatus, delivery}
use dtchat.Proto.Base64.{Stops}
use dtchat.Proto.RoundTrip.{OnWire, deserialize_message-encoded}
use dtchat.Proto.Extract.{extract-ack_iff}
use dtchat.Model.{World}
use dtchat.Model.Runs.{Call, adds, sorts, acks, observes, notifies}
use dtchat.Controller.{model_observer, SocketController, Draws, Env}
use dtchat.Prompt.{Predict, SendTask, recipients_of, manage_send}
use dtchat.Prompt.Answered.{with_uuid, IsOther, acks_for, Holds, IsSent-Holds, IsSent-acked}
use dtchat.Prompt.Acked.{HasDistinctUuids}
use dtchat.Network.{Network, Step, posts, arrives, is_answered, Reaches, start, next}
use dtchat.Network.Sound.{IsSent-of_some}
use dtchat.Network.Heard.{read, calls_at, calls_along, Reaches-Holds}

Answers-left :
    {T : Type 0} (a : String) (xs ys : List (String × T)) → Answers xs a → Answers (xs ++ ys) a
Answers-left a (x ∷ xs) ys (inl e) = inl e
Answers-left a (x ∷ xs) ys (inr h) = inr (Answers-left a xs ys h)
Answers-left a [] ys h = absurd h

Answers-right :
    {T : Type 0} (a : String) (xs ys : List (String × T)) → Answers ys a → Answers (xs ++ ys) a
Answers-right a [] ys h = h
Answers-right a (x ∷ xs) ys h = inr (Answers-right a xs ys h)

acks_for-append :
    {T : Type 0} (u : String) (cs es : List (Call T))
    → acks_for u (cs ++ es) ≡ acks_for u cs ++ acks_for u es
acks_for-append u [] es = refl
acks_for-append u (adds m direction ∷ cs) es = acks_for-append u cs es
acks_for-append u (sorts s ∷ cs) es = acks_for-append u cs es
acks_for-append u (acks v a r t ∷ cs) es = elim (Bool-cases (v == u)) [
  | inl mine ↦ rw mine (ap (◌∷◌ (a, t)) (acks_for-append u cs es))
  | inr other ↦ rw other (acks_for-append u cs es)
]
acks_for-append u (observes o ∷ cs) es = acks_for-append u cs es
acks_for-append u (notifies e ∷ cs) es = acks_for-append u cs es

acks_for-parts :
    {T : Type 0} (u a : String) (cs es : List (Call T))
    → Answers (acks_for u cs ++ acks_for u es) a
    → Answers (acks_for u (cs ++ es)) a
acks_for-parts u a cs es = subst (λ xs. Answers xs a) (sym (acks_for-append u cs es))

-- A message on the wire by which a peer acknowledges another.
pub record IsAckOf (T : Type 0) ⦃i : Instant T⦄ (codec : Codec) (u acker : String)
    (p : ProtoMessage) : Type 0 where
  pub status : DeliveryStatus
  pub is_delivery : p.content ≡ some (delivery status)
  pub names : status.message_uuid ≡ u
  pub from : p.sender_uuid ≡ acker
  pub time : T
  pub in_range : i.of_millis p.timestamp ≡ some time
  pub on_wire : OnWire codec p

module _ {T P : Type 0} ⦃i : Instant T⦄ (env : Env) (controllers : ℕ → SocketController)
    (predict : Predict T P) (n : ℕ) where
  -- The step is the arrival of such an ACK at the node.
  abbrev AcksAt :
      String → String → (s s' : Network T P) → Step env controllers predict s s' → Type 0
  AcksAt u a s s' (posts k m pbat w tasks e) = ⊥
  AcksAt u a s s' (arrives k d on j p rest found stops e) = (n ≡ k) × IsAckOf T env.codec u a p
  AcksAt u a s s' (is_answered k d on j p rest o found stops e) =
      (n ≡ k) × IsAckOf T env.codec u a p

  -- An ACK of the message by the peer arrives at the node in the run.
  abbrev pub IsAcked :
      String → String → (s s' : Network T P) → Reaches env controllers predict s s' → Type 0
  IsAcked u a s s' start = ⊥
  IsAcked u a s s' (next t v r step) = IsAcked u a s t r ⊎ AcksAt u a t v step

  module _ (own : (k : ℕ) → (controllers k).observers ≡ k ∷ []) where
    -- The payload of an ACK at the node is a call that acknowledges.
    read-acks :
        (u a : String) (k : ℕ) (d : Draws T) (p : ProtoMessage) (rest : List ℕ)
        → n ≡ k
        → Stops rest
        → IsAckOf T env.codec u a p
        → Answers (acks_for u (read env controllers predict n k d p rest)) a
    read-acks u a k d p rest here stops h =
        let e =
          deserialize_message-encoded env.codec p _ h.is_delivery h.on_wire d.rx_time
            (controllers k).peers rest stops
          ∙ (extract-ack_iff d.rx_time p (controllers k).peers u a h.status.read h.time).1
              (h.status, h.is_delivery, h.in_range, h.names, refl, h.from) in
        rw ((nat_eq_iff n k).1 here) (rw e (rw ((eq_iff u u).1 refl) (inl refl)))

    AcksAt-Answers :
        (u a : String) (s s' : Network T P) (step : Step env controllers predict s s')
        → AcksAt u a s s' step
        → Answers (acks_for u (calls_at env controllers predict n s s' step)) a
    unfolding calls_at
    AcksAt-Answers u a s s' (posts k m pbat w tasks e) h = absurd h
    AcksAt-Answers u a s s' (arrives k d on j p rest found stops e) h =
        read-acks u a k d p rest h.0 stops h.1
    AcksAt-Answers u a s s' (is_answered k d on j p rest o found stops e) h =
        read-acks u a k d p rest h.0 stops h.1

    IsAcked-Answers :
        (u a : String) (s s' : Network T P) (r : Reaches env controllers predict s s')
        → IsAcked u a s s' r
        → Answers (acks_for u (calls_along env controllers predict n s s' r)) a
    unfolding calls_along
    IsAcked-Answers u a s s' start h = absurd h
    IsAcked-Answers u a s s' (next t v r step) h =
        acks_for-parts u a (calls_along env controllers predict n s t r)
          (calls_at env controllers predict n t v step)
          (elim h [
            | inl before ↦ Answers-left a _ _ (IsAcked-Answers u a s t r before)
            | inr here ↦ Answers-right a _ _ (AcksAt-Answers u a t v step here)
          ])

    -- A message gets through the network: if a node sends a message whose uuid is new to its list and no
    -- two of its peers share one, then whatever is sent, lost, delivered late, twice or to the wrong node
    -- after that, once an ACK of the message by each recipient has arrived at the node and if nothing
    -- else was added there under the uuid, the node's list holds the message once and unchanged, with one
    -- delivery for each recipient, all acknowledged. Each node has one model, and the crates work for
    -- these ACKs.
    pub Reaches-acked :
        (s : Network T P) (m : ChatMessage T) (pbat : Bool) (w : World T P)
        (tasks : List (SendTask T))
        → manage_send env.net predict m pbat (s.models n) ≡ some (w, tasks)
        → All (λ x. x.uuid ≢ m.uuid) (s.models n).model.messages
        → HasDistinctUuids (s.models n).model.peers
        → (t s' : Network T P) → t.models n ≡ w
        → (r : Reaches env controllers predict t s')
        → All (IsOther m.uuid) (calls_along env controllers predict n t s' r)
        → All (λ p. IsAcked m.uuid p.uuid t s' r) (recipients_of (s.models n).model)
        → (ds : List (Delivery T)) × (with_uuid m.uuid (s'.models n).model.messages
            ≡ record m { shipment_status = sent (tx_time m.shipment_status) ds } ∷ [])
          × (length ds ≡ length (recipients_of (s.models n).model))
          × (acked ds ≡ length ds)
    Reaches-acked s m pbat w tasks e new distinct t s' at r others heard =
        let answered = All-imp (λ p. IsAcked-Answers m.uuid p.uuid t s' r) _ heard in
        let z = IsSent-of_some env controllers predict m (s.models n) w tasks pbat e in
        let arrived = acks_for m.uuid (calls_along env controllers predict n t s' r) in
        let tx = tx_time m.shipment_status in
        let (each, all) =
          IsSent-acked env.net predict m (s.models n) w tasks z arrived distinct answered in
        let held = IsSent-Holds env.net predict m (s.models n) w tasks z new in
        (
          mark_each arrived z.deliveries,
          Reaches-Holds env controllers predict n own m tx t s' r z.deliveries others
              (subst (Holds m tx z.deliveries) (sym at) held),
          each,
          all,
        )
