-- ===== src/Prompt/Acked.antt =====
-- A message that was sent from the prompt, and the ACKs that come back for it: how
-- src/layout/rooms/message_prompt.rs, src/app.rs and src/utils/message.rs work together.
use Prim.Native.String.{String}
use package.text.Mathlib.TextEquality.{eq_iff}
use mathlib.Core.Option
use dtchat.Prelude.{
  ℕ, zero, suc, ◌≡◌, refl, sym, ap, ◌∙◌, ◌≢◌, Bool, Bool-cases, inl, inr, List, [], ◌∷◌, Option,
  some, String_eq, ◌==◌, length, find, filter, All, arith,
}
use dtchat.Time.{Instant}
use dtchat.Config.{Peer}
use dtchat.Slice.{insert}
use dtchat.Message.{ChatMessage, Delivery, sent, tx_time, acked, mark_first, mark_ack}
use dtchat.Message.Marks.{Others}
use dtchat.Message.Complete.{Answers, HasDistinctPeers, mark_each, acked-mark_each}
use dtchat.Socket.{Net}
use dtchat.Model.{World, ack_first, inserted, on_ack_received}
use dtchat.Prompt.{Predict, SendTask, is_recipient, recipients_of, manage_send}
use dtchat.Prompt.Copies.{Addressed, nobody, also}
use dtchat.Prompt.Sends.{manage_send-IsSent}

-- No two peers have one uuid.
abbrev pub HasDistinctUuids : List Peer → Type 0
HasDistinctUuids [] = Unit
HasDistinctUuids (p ∷ ps) = All (λ q. q.uuid ≢ p.uuid) ps × HasDistinctUuids ps

All-filter : (Q : Peer → Type 0) (t : Peer → Bool) (ps : List Peer) → All Q ps → All Q (filter t ps)
All-filter Q t [] a = tt
All-filter Q t (p ∷ ps) a = elim (Bool-cases (t p)) [
  | inl keep ↦ rw keep (a.0, All-filter Q t ps a.1)
  | inr drop ↦ rw drop (All-filter Q t ps a.1)
]

pub HasDistinctUuids-filter :
    (t : Peer → Bool) (ps : List Peer) → HasDistinctUuids ps → HasDistinctUuids (filter t ps)
HasDistinctUuids-filter t [] a = tt
HasDistinctUuids-filter t (p ∷ ps) a = elim (Bool-cases (t p)) [
  | inl keep ↦
      rw keep (All-filter (λ q. q.uuid ≢ p.uuid) t ps a.0, HasDistinctUuids-filter t ps a.1)
  | inr drop ↦ rw drop (HasDistinctUuids-filter t ps a.1)
]

module _ {T : Type 0} where
  Addressed-Others :
      (u : String) {ps : List Peer} {ds : List (Delivery T)}
      → Addressed ps ds
      → All (λ q. q.uuid ≢ u) ps
      → Others u ds
  Addressed-Others u nobody h = tt
  Addressed-Others u (also p ps d ds e _ _ a) h = (rw e h.0, Addressed-Others u a h.1)

  pub Addressed-HasDistinctPeers :
      {ps : List Peer} {ds : List (Delivery T)}
      → Addressed ps ds
      → HasDistinctUuids ps
      → HasDistinctPeers ds
  Addressed-HasDistinctPeers nobody h = tt
  Addressed-HasDistinctPeers (also p ps d ds e _ _ a) h =
      (rw e (Addressed-Others p.uuid a h.0), Addressed-HasDistinctPeers a h.1)

  pub Addressed-Answers :
      (acks : List (String × T)) {ps : List Peer} {ds : List (Delivery T)}
      → Addressed ps ds
      → All (λ p. Answers acks p.uuid) ps
      → All (λ d. Answers acks d.peer_uuid) ds
  Addressed-Answers acks nobody h = tt
  Addressed-Answers acks (also p ps d ds e _ _ a) h = (rw e h.0, Addressed-Answers acks a h.1)

  pub length-Addressed :
      {ps : List Peer} {ds : List (Delivery T)} → Addressed ps ds → length ds ≡ length ps
  length-Addressed nobody = refl
  length-Addressed (also p ps d ds _ _ _ a) = ap suc (length-Addressed a)

  length-mark_first :
      (u : String) (t : T) (ds : List (Delivery T)) → length (mark_first u t ds).0 ≡ length ds
  unfolding mark_first
  length-mark_first u t [] = refl
  length-mark_first u t (d ∷ ds) = ground (arith, length-mark_first u t ds)

  pub length-mark_each :
      (acks : List (String × T)) (ds : List (Delivery T)) → length (mark_each acks ds) ≡ length ds
  unfolding mark_each
  length-mark_each [] ds = refl
  length-mark_each ((u, t) ∷ acks) ds =
      length-mark_each acks (mark_first u t ds).0 ∙ length-mark_first u t ds

  -- The message that a uuid names: the first one.
  abbrev pub named : String → List (ChatMessage T) → Option (ChatMessage T)
  named u ms = find (λ m. m.uuid == u) ms

  named-insert :
      (k : ℕ) (m : ChatMessage T) (ms : List (ChatMessage T))
      → All (λ x. x.uuid ≢ m.uuid) ms
      → named m.uuid (insert k m ms) ≡ some m
  unfolding insert
  named-insert zero m ms h = rw ((eq_iff m.uuid m.uuid).1 refl) refl
  named-insert (suc k) m [] h = rw ((eq_iff m.uuid m.uuid).1 refl) refl
  named-insert (suc k) m (x ∷ ms) h =
      ground (arith, eq_iff x.uuid m.uuid, named-insert k m ms h.1, h.0)

  named-ack_first :
      (u a : String) (t : T) (ms : List (ChatMessage T)) (m : ChatMessage T)
      → named u ms ≡ some m
      → named u (ack_first u a t ms).0 ≡ some (mark_ack m a t).0
  unfolding ack_first mark_ack
  named-ack_first u a t [] m e = cc
  named-ack_first u a t (x ∷ ms) m e = elim (Bool-cases (x.uuid == u)) [
    | inl same ↦
        let found : some x ≡ some m = rw same at e in
        rw same (rw same (ap (Option.map (λ y. (mark_ack y a t).0)) found))
    | inr other ↦ rw other (rw other (named-ack_first u a t ms m (rw other at e)))
  ]

  -- The status of a message that was sent, after a sequence of ACKs.
  abbrev pub after : List (String × T) → T → List (Delivery T) → ChatMessage T → ChatMessage T
  after acks tx ds m = record m { shipment_status = sent tx (mark_each acks ds) }

module _ {T P : Type 0} where
  -- ACKs for one message, one after the other.
  pub ack_each : String → Bool → List (String × T) → World T P → World T P
  ack_each u r [] w = w
  ack_each u r ((a, t) ∷ acks) w = ack_each u r acks (on_ack_received u a r t w)

  pub messages-on_ack_received :
      (u a : String) (r : Bool) (t : T) (w : World T P)
      → (on_ack_received u a r t w).model.messages ≡ (ack_first u a t w.model.messages).0
  unfolding on_ack_received
  messages-on_ack_received u a r t w = elim (Bool-cases (ack_first u a t w.model.messages).1) [
    | inl done ↦ rw done refl
    | inr lost ↦ rw lost refl
  ]

  named-ack_each :
      (u : String) (r : Bool) (acks : List (String × T)) (w : World T P) (m : ChatMessage T)
      (tx : T) (ds : List (Delivery T))
      → named u w.model.messages ≡ some (record m { shipment_status = sent tx ds })
      → named u (ack_each u r acks w).model.messages ≡ some (after acks tx ds m)
  unfolding ack_each mark_each mark_ack
  named-ack_each u r [] w m tx ds e = e
  named-ack_each u r ((a, t) ∷ acks) w m tx ds e =
      named-ack_each u r acks (on_ack_received u a r t w) m tx (mark_first a t ds).0 (
        ap (named u) (messages-on_ack_received u a r t w)
        ∙ named-ack_first u a t w.model.messages _ e)

module _ {T P : Type 0} ⦃i : Instant T⦄ (net : Net) (predict : Predict T P) (m : ChatMessage T)
    (w : World T P) where
  -- A sent message gets through: if its uuid is new to the list and no two peers have one uuid, then
  -- once every recipient's ACK has come in, in whatever order and however often, the list still has
  -- the message with its text and sender, with one delivery for each recipient, all acknowledged.
  pub acked-manage_send :
      (pbat r : Bool) (acks : List (String × T))
      → All (λ x. x.uuid ≢ m.uuid) w.model.messages
      → HasDistinctUuids w.model.peers
      → All (λ p. Answers acks p.uuid) (recipients_of w.model)
      → (w' : World T P) × (tasks : List (SendTask T)) × (ds : List (Delivery T)) × (manage_send net
            predict m pbat w
          ≡ some (w', tasks))
        × (named m.uuid (ack_each m.uuid r acks w').model.messages
            ≡ some (record m { shipment_status = sent (tx_time m.shipment_status) ds }))
        × (length ds ≡ length (recipients_of w.model))
        × (acked ds ≡ length ds)
  unfolding recipients_of inserted
  acked-manage_send pbat r acks new distinct answered =
      let (w', tasks, e, s) = manage_send-IsSent net m w predict pbat in
      let tx = tx_time m.shipment_status in
      let m' = record m { shipment_status = sent tx s.deliveries } in
      let peers =
        HasDistinctUuids-filter (is_recipient w.model.localpeer.uuid) w.model.peers distinct in
      let added = ap (named m.uuid) s.messages ∙ named-insert _ m' w.model.messages new in
      (
        w',
        tasks,
        mark_each acks s.deliveries,
        e,
        named-ack_each m.uuid r acks w' m tx s.deliveries added,
        length-mark_each acks s.deliveries ∙ length-Addressed s.addressed,
        acked-mark_each acks s.deliveries (Addressed-HasDistinctPeers s.addressed peers)
              (Addressed-Answers acks s.addressed answered)
            ∙ sym (length-mark_each acks s.deliveries),
      )
