-- ===== src/Prompt/Answered.antt =====
-- A message that was sent from the prompt, among all that may happen to the chat model until its ACKs
-- have come back: src/layout/rooms/message_prompt.rs, src/app.rs and src/utils/message.rs.
use Prim.Native.String.{String}
use package.text.Mathlib.TextEquality.{eq_iff}
use dtchat.Prelude.{
  ◌≡◌, refl, sym, ap, subst, ◌∙◌, ◌≢◌, Bool, false, Bool-cases, inl, inr, List, [], ◌∷◌, some,
  String_eq, ◌==◌, if◌then◌else◌, length, filter, All, arith,
}
use dtchat.Time.{Instant}
use dtchat.Slice.Singles.{filter-insert, filter-insert_first, filter-sort_by}
use dtchat.Message.{ChatMessage, Delivery, sent, tx_time, acked, mark_ack}
use dtchat.Message.Complete.{Answers, mark_each, acked-mark_each}
use dtchat.Socket.{Net}
use dtchat.Model.{World, ack_first, inserted}
use dtchat.Model.Order.{strategy_cmp}
use dtchat.Model.Runs.{Call, adds, sorts, acks, observes, notifies, step, run}
use dtchat.Prompt.{Predict, SendTask, is_recipient, recipients_of, manage_send}
use dtchat.Prompt.Sends.{IsSent, manage_send-IsSent}
use dtchat.Prompt.Acked.{
  HasDistinctUuids, HasDistinctUuids-filter, Addressed-HasDistinctPeers, Addressed-Answers,
  length-Addressed, length-mark_each, messages-on_ack_received,
}

-- The messages that a uuid names.
abbrev pub with_uuid : {T : Type 0} → String → List (ChatMessage T) → List (ChatMessage T)
with_uuid u = filter (λ m. m.uuid == u)

-- A call that adds no message with the uuid.
abbrev pub IsOther : {T : Type 0} → String → Call T → Type 0
IsOther u (adds m direction) = m.uuid ≢ u
IsOther u _ = Unit

-- The ACKs for the message among calls.
abbrev pub acks_for : {T : Type 0} → String → List (Call T) → List (String × T)
acks_for u [] = []
acks_for u (acks v a r t ∷ cs) = if v == u then (a, t) ∷ acks_for u cs else acks_for u cs
acks_for u (_ ∷ cs) = acks_for u cs

pub other_uuid : (u v : String) → u ≢ v → (u == v) ≡ false
other_uuid u v n = ground (arith, eq_iff u v)

module _ {T : Type 0} where
  pub with_uuid-none :
      (u : String) (ms : List (ChatMessage T)) → All (λ x. x.uuid ≢ u) ms → with_uuid u ms ≡ []
  with_uuid-none u [] h = refl
  with_uuid-none u (x ∷ ms) h = rw (other_uuid x.uuid u h.0) (with_uuid-none u ms h.1)

  with_uuid-ack_first_other :
      (u v a : String) (t : T) (ms : List (ChatMessage T))
      → (v == u) ≡ false
      → with_uuid u (ack_first v a t ms).0 ≡ with_uuid u ms
  unfolding ack_first mark_ack
  with_uuid-ack_first_other u v a t [] n = refl
  with_uuid-ack_first_other u v a t (x ∷ ms) n = elim (Bool-cases (x.uuid == v)) [
    | inl mine ↦
        let e : x.uuid ≡ v = (eq_iff _ _).0 mine in
        let no : (x.uuid == u) ≡ false = rw e n in rw mine (rw no refl)
    | inr other ↦ rw other (ground (arith, with_uuid-ack_first_other u v a t ms n))
  ]

  with_uuid-ack_first :
      (u a : String) (t : T) (x : ChatMessage T) (ms : List (ChatMessage T))
      → with_uuid u ms ≡ x ∷ []
      → with_uuid u (ack_first u a t ms).0 ≡ (mark_ack x a t).0 ∷ []
  unfolding ack_first mark_ack
  with_uuid-ack_first u a t x [] e = cc
  with_uuid-ack_first u a t x (y ∷ ms) e = elim (Bool-cases (y.uuid == u)) [
    | inl mine ↦
        let same : y ∷ with_uuid u ms ≡ x ∷ [] = rw mine at e in
        let here : y ≡ x = cc in
        let rest : with_uuid u ms ≡ [] = cc in
        rw mine
          (rw mine (ap (λ l. (mark_ack y a t).0 ∷ l) rest ∙ ap (λ z. (mark_ack z a t).0 ∷ []) here))
    | inr other ↦ rw other (rw other (with_uuid-ack_first u a t x ms (rw other at e)))
  ]

  -- The ACKs of a run are those of its first call, then those of the others.
  pub mark_each-acks_for :
      (u : String) (c : Call T) (cs : List (Call T)) (ds : List (Delivery T))
      → mark_each (acks_for u cs) (mark_each (acks_for u (c ∷ [])) ds)
        ≡ mark_each (acks_for u (c ∷ cs)) ds
  unfolding mark_each
  mark_each-acks_for u (adds m direction) cs ds = refl
  mark_each-acks_for u (sorts s) cs ds = refl
  mark_each-acks_for u (acks v a r t) cs ds = elim (Bool-cases (v == u)) [
    | inl mine ↦ rw mine refl
    | inr other ↦ rw other refl
  ]
  mark_each-acks_for u (observes o) cs ds = refl
  mark_each-acks_for u (notifies e) cs ds = refl

module _ {T P : Type 0} ⦃i : Instant T⦄ (m : ChatMessage T) (tx : T) where
  -- The message with its deliveries is the only one of its uuid.
  abbrev pub Holds : List (Delivery T) → World T P → Type 0
  Holds ds w = with_uuid m.uuid w.model.messages ≡ record m { shipment_status = sent tx ds } ∷ []

  step-Holds :
      (c : Call T) (w : World T P) (ds : List (Delivery T))
      → IsOther m.uuid c
      → Holds ds w
      → Holds (mark_each (acks_for m.uuid (c ∷ [])) ds) (step c w)
  unfolding step inserted mark_each mark_ack
  step-Holds (adds x direction) w ds n h =
      filter-insert (λ y. y.uuid == m.uuid) _ x w.model.messages (other_uuid x.uuid m.uuid n) ∙ h
  step-Holds (sorts s) w ds n h =
      filter-sort_by (λ y. y.uuid == m.uuid) (strategy_cmp s) _ w.model.messages h
  step-Holds (acks v a r t) w ds n h = elim (Bool-cases (v == m.uuid)) [
    | inl mine ↦
        let e : v ≡ m.uuid = (eq_iff _ _).0 mine in
        let hit = with_uuid-ack_first m.uuid a t _ w.model.messages h in
        rw mine (ap (with_uuid m.uuid) (messages-on_ack_received v a r t w) ∙ rw e hit)
    | inr other ↦ rw other (
        ap (with_uuid m.uuid) (messages-on_ack_received v a r t w)
        ∙ with_uuid-ack_first_other m.uuid v a t w.model.messages other
        ∙ h)
  ]
  step-Holds (observes o) w ds n h = h
  step-Holds (notifies e) w ds n h = h

  pub run-Holds :
      (cs : List (Call T)) (w : World T P) (ds : List (Delivery T))
      → All (IsOther m.uuid) cs
      → Holds ds w
      → Holds (mark_each (acks_for m.uuid cs) ds) (run cs w)
  unfolding run mark_each
  run-Holds [] w ds n h = h
  run-Holds (c ∷ cs) w ds n h =
      subst (λ ds'. Holds ds' (run (c ∷ cs) w)) (mark_each-acks_for m.uuid c cs ds)
        (run-Holds cs (step c w) _ n.1 (step-Holds c w ds n.0 h))

module _ {T P : Type 0} ⦃i : Instant T⦄ (net : Net) (predict : Predict T P) (m : ChatMessage T)
    (w : World T P) where
  module _ (w' : World T P) (tasks : List (SendTask T)) (z : IsSent net m w w' tasks) where
    pub IsSent-Holds :
        All (λ x. x.uuid ≢ m.uuid) w.model.messages
        → Holds m (tx_time m.shipment_status) z.deliveries w'
    unfolding inserted
    IsSent-Holds new =
        let m' = record m { shipment_status = sent (tx_time m.shipment_status) z.deliveries } in
        ap (with_uuid m.uuid) z.messages
        ∙ filter-insert_first (λ y. y.uuid == m.uuid) _ m' w.model.messages
            ((eq_iff m.uuid m.uuid).1 refl) (with_uuid-none m.uuid w.model.messages new)

    -- Once all recipients are among those that acknowledged.
    pub IsSent-acked :
        (arrived : List (String × T))
        → HasDistinctUuids w.model.peers
        → All (λ p. Answers arrived p.uuid) (recipients_of w.model)
        → (length (mark_each arrived z.deliveries) ≡ length (recipients_of w.model))
          × (acked (mark_each arrived z.deliveries) ≡ length (mark_each arrived z.deliveries))
    unfolding recipients_of
    IsSent-acked arrived distinct answered =
        let peers =
          HasDistinctUuids-filter (is_recipient w.model.localpeer.uuid) w.model.peers distinct in
        (
          length-mark_each arrived z.deliveries ∙ length-Addressed z.addressed,
          acked-mark_each arrived z.deliveries (Addressed-HasDistinctPeers z.addressed peers)
                (Addressed-Answers arrived z.addressed answered)
              ∙ sym (length-mark_each arrived z.deliveries),
        )

  -- A sent message gets through: if its uuid is new to the list and no two peers have one uuid, then
  -- whatever is received, sent, sorted, acknowledged and announced after it, in any order, once an ACK
  -- of every recipient is among that and if nothing else is added under the uuid, the list holds the
  -- message once and unchanged, with one delivery for each recipient, all acknowledged.
  pub run-manage_send :
      (pbat : Bool) (cs : List (Call T))
      → All (λ x. x.uuid ≢ m.uuid) w.model.messages
      → HasDistinctUuids w.model.peers
      → All (IsOther m.uuid) cs
      → All (λ p. Answers (acks_for m.uuid cs) p.uuid) (recipients_of w.model)
      → (w' : World T P) × (tasks : List (SendTask T)) × (ds : List (Delivery T)) × (manage_send net
            predict m pbat w
          ≡ some (w', tasks))
        × (with_uuid m.uuid (run cs w').model.messages
            ≡ record m { shipment_status = sent (tx_time m.shipment_status) ds } ∷ [])
        × (length ds ≡ length (recipients_of w.model))
        × (acked ds ≡ length ds)
  run-manage_send pbat cs new distinct others answered =
      let (w', tasks, e, z) = manage_send-IsSent net m w predict pbat in
      let arrived = acks_for m.uuid cs in
      let (each, all) = IsSent-acked w' tasks z arrived distinct answered in
      (
        w',
        tasks,
        mark_each arrived z.deliveries,
        e,
        run-Holds m (tx_time m.shipment_status) cs w' z.deliveries others
            (IsSent-Holds w' tasks z new),
        each,
        all,
      )
