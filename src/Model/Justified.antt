-- ===== src/Model/Justified.antt =====
-- Why a delivery is marked: what the ACKs that reach the model of src/app.rs said.
use Prim.Native.String.{String}
use package.text.Mathlib.TextEquality.{eq_iff}
use dtchat.Prelude.{
  ◌≡◌, refl, inl, inr, Bool-cases, List, [], ◌∷◌, some, String_eq, ◌==◌, All, arith,
}
use dtchat.Time.{Instant}
use dtchat.Message.{ChatMessage, Delivery, MessageStatus, sent, received, mark_first, mark_ack}
use dtchat.Slice.Sort.{All-sort_by, All-insert}
use dtchat.Model.Order.{strategy_cmp}
use dtchat.Model.{World, ack_first, inserted}
use dtchat.Model.Runs.{Call, adds, sorts, acks, observes, notifies, step, run}

-- `J u a t`: there is reason to believe that `a` acknowledged the message `u` at `t`.
module _ {T : Type 0} (J : String → String → T → Type 0) where
  -- Every delivery that is marked is so with reason.
  abbrev pub DeliveriesJustified : String → List (Delivery T) → Type 0
  DeliveriesJustified u ds = All (λ d. (t : T) → d.acked_at ≡ some t → J u d.peer_uuid t) ds

  abbrev pub StatusJustified : String → MessageStatus T → Type 0
  StatusJustified u (sent tx ds) = DeliveriesJustified u ds
  StatusJustified u (received tx rx) = Unit

  abbrev pub Justified : ChatMessage T → Type 0
  Justified m = StatusJustified m.uuid m.shipment_status

  -- What a call brings with it.
  abbrev pub CallJustified : Call T → Type 0
  CallJustified (adds m direction) = Justified m
  CallJustified (acks u a r t) = J u a t
  CallJustified (sorts s) = Unit
  CallJustified (observes o) = Unit
  CallJustified (notifies e) = Unit

  mark_first-Justified :
      (u a : String) (t : T) (ds : List (Delivery T))
      → J u a t
      → DeliveriesJustified u ds
      → DeliveriesJustified u (mark_first a t ds).0
  unfolding mark_first
  mark_first-Justified u a t [] j h = tt
  mark_first-Justified u a t (d ∷ ds) j h = elim (Bool-cases (d.peer_uuid == a)) [
    | inl mine ↦
        let e : d.peer_uuid ≡ a = (eq_iff _ _).0 mine in
        rw mine ((λ s q. let same : t ≡ s = ground arith in rw (e, ← same) j), h.1)
    | inr other ↦ rw other (h.0, mark_first-Justified u a t ds j h.1)
  ]

  mark_status-Justified :
      (m : ChatMessage T) (a : String) (t : T) (s : MessageStatus T)
      → m.shipment_status ≡ s
      → J m.uuid a t
      → StatusJustified m.uuid s
      → Justified (mark_ack m a t).0
  unfolding mark_ack
  mark_status-Justified m a t (sent tx ds) e j h = rw e (mark_first-Justified m.uuid a t ds j h)
  mark_status-Justified m a t (received tx rx) e j h = rw e tt

  ack_first-Justified :
      (u a : String) (t : T) (ms : List (ChatMessage T))
      → J u a t
      → All Justified ms
      → All Justified (ack_first u a t ms).0
  unfolding ack_first
  ack_first-Justified u a t [] j h = tt
  ack_first-Justified u a t (m ∷ ms) j h = elim (Bool-cases (m.uuid == u)) [
    | inl mine ↦
        let e : m.uuid ≡ u = (eq_iff _ _).0 mine in
        rw mine (mark_status-Justified m a t m.shipment_status refl (rw e j) h.0, h.1)
    | inr other ↦ rw other (h.0, ack_first-Justified u a t ms j h.1)
  ]

module _ {T P : Type 0} ⦃i : Instant T⦄ (J : String → String → T → Type 0) where
  step-Justified :
      (c : Call T) (w : World T P)
      → CallJustified J c
      → All (Justified J) w.model.messages
      → All (Justified J) (step c w).model.messages
  unfolding step inserted
  step-Justified (adds m direction) w j h = All-insert (Justified J) _ m w.model.messages j h
  step-Justified (sorts s) w j h = All-sort_by (Justified J) (strategy_cmp s) w.model.messages h
  step-Justified (acks u a r t) w j h =
      let kept = ack_first-Justified J u a t w.model.messages j h in
      elim (Bool-cases (ack_first u a t w.model.messages).1) [
        | inl done ↦ rw done kept
        | inr lost ↦ rw lost kept
      ]
  step-Justified (observes o) w j h = h
  step-Justified (notifies e) w j h = h

  -- No delivery is marked without reason. Whatever counts as a reason that a peer acknowledged a
  -- message at a time: if there is one for each ACK that comes in and for each mark that was there
  -- or is added with a message, then after any calls there is one for every mark in the list.
  pub run-Justified :
      (cs : List (Call T)) (w : World T P)
      → All (CallJustified J) cs
      → All (Justified J) w.model.messages
      → All (Justified J) (run cs w).model.messages
  unfolding run
  run-Justified [] w j h = h
  run-Justified (c ∷ cs) w j h = run-Justified cs (step c w) j.1 (step-Justified c w j.0 h)
