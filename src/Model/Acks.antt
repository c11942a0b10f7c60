-- ===== src/Model/Acks.antt =====
-- What an ACK does to the chat model of src/app.rs.
use Prim.Native.String.{String}
use text.Mathlib.TextEquality.{eq_iff}
use dtchat.Prelude.{
  ℕ, ◌≡◌, refl, ap, ◌≢◌, ◌⊎◌, inl, inr, Bool, true, false, List, [], ◌∷◌, ◌++◌, Bool-cases, All,
  String_eq, ◌==◌, arith,
}
use dtchat.Message.{ChatMessage, mark_ack}
use dtchat.Message.Marks.{hit, miss, inbound, mark_ack-Marks}
use dtchat.Model.{World, sent, ack_first, update_message_with_ack, on_ack_received}
use dtchat.Model.Events.{Hears, notify_each-Hears}

module _ {T : Type 0} (u acker : String) (t : T) where
  -- The first message with the uuid, whose delivery to the acker is marked; nothing else changes.
  pub record IsAcked (ms ms' : List (ChatMessage T)) : Type 0 where
    pub before : List (ChatMessage T)
    pub hit : ChatMessage T
    pub behind : List (ChatMessage T)
    pub split : ms ≡ before ++ hit ∷ behind
    pub first : All (λ m. m.uuid ≢ u) before
    pub of_uuid : hit.uuid ≡ u
    pub marks : (mark_ack hit acker t).1 ≡ true
    pub result : ms' ≡ before ++ (mark_ack hit acker t).0 ∷ behind

  IsAcked-cons :
      (m : ChatMessage T) (ms ms' : List (ChatMessage T))
      → m.uuid ≢ u
      → IsAcked ms ms'
      → IsAcked (m ∷ ms) (m ∷ ms')
  IsAcked-cons m ms ms' n h = record {
    before = m ∷ h.before;
    hit = h.hit;
    behind = h.behind;
    split = ap (◌∷◌ m) h.split;
    first = (n, h.first);
    of_uuid = h.of_uuid;
    marks = h.marks;
    result = ap (◌∷◌ m) h.result;
  }

  ack_first_hit :
      (ms : List (ChatMessage T))
      → (ack_first u acker t ms).1 ≡ true
      → IsAcked ms (ack_first u acker t ms).0
  unfolding ack_first
  ack_first_hit [] e = cc
  ack_first_hit (m ∷ ms) e = elim (Bool-cases (m.uuid == u)) [
    | inl same ↦ rw same (record {
      before = [];
      hit = m;
      behind = ms;
      split = refl;
      first = tt;
      of_uuid = (eq_iff _ _).0 same;
      marks = rw same at e;
      result = refl;
    })
    | inr other ↦ rw other (
        IsAcked-cons m ms _ (λ k. ground (arith, eq_iff m.uuid u))
          (ack_first_hit ms (rw other at e)))
  ]

  mark_ack-false : (m : ChatMessage T) → (mark_ack m acker t).1 ≡ false → (mark_ack m acker t).0 ≡ m
  mark_ack-false m e = elim (mark_ack-Marks m acker t) [
    | hit tx ds ds' s h r ↦ ground arith
    | miss tx ds s o r ↦ ground arith
    | inbound tx rx s r ↦ ground arith
  ]

  ack_first_miss :
      (ms : List (ChatMessage T))
      → (ack_first u acker t ms).1 ≡ false
      → (ack_first u acker t ms).0 ≡ ms
  unfolding ack_first
  ack_first_miss [] e = refl
  ack_first_miss (m ∷ ms) e = elim (Bool-cases (m.uuid == u)) [
    | inl same ↦ rw same (ap (λ x. x ∷ ms) (mark_ack-false m (rw same at e)))
    | inr other ↦ rw other (ap (◌∷◌ m) (ack_first_miss ms (rw other at e)))
  ]

  -- Either an ACK has its effect and every observer hears of it, or there is no effect at all.
  abbrev pub HasOutcome : {P : Type 0} → Bool → World T P → World T P → Type 0
  HasOutcome r w w' =
      (IsAcked w.model.messages w'.model.messages
        × ((j : ℕ)
            → Hears (sent "Message status updated") w.model.observers j (w.handlers j)
                (w'.handlers j)))
      ⊎ (((update_message_with_ack u acker r t w.model).1 ≡ false) × (w' ≡ w))

  -- Either the first message with the uuid has a delivery to the acker, which is marked, in its
  -- place, and every observer hears of it; or nothing at all changes.
  pub on_ack_received-HasOutcome :
      {P : Type 0} (r : Bool) (w : World T P) → HasOutcome r w (on_ack_received u acker r t w)
  unfolding on_ack_received
  on_ack_received-HasOutcome r w = elim (Bool-cases (ack_first u acker t w.model.messages).1) [
    | inl done ↦ inl (
      rw done (ack_first_hit w.model.messages done),
      λ j. rw done (notify_each-Hears _ w.model.observers w.handlers j),
    )
    | inr lost ↦ inr (lost, rw (lost, ack_first_miss w.model.messages lost))
  ]
