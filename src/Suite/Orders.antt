-- ===== src/Suite/Orders.antt =====
-- What the tests of src/app.rs give, at any reading of the clock.
use dtchat.Prelude.{ℕ, ◌<◌, ◌≡◌, refl, true, false, Ordering, [], ◌∷◌, arith}
use dtchat.Time.{Instant, cmp}
use dtchat.Model.{add_message, new_model, inserted, update_message_with_ack}
use dtchat.Suite.{
  delayed_arrival_sorts_to_bottom, sent_and_received_interleave_by_local_time,
  relative_local_anchors_received_on_rx, ack_marks_only_matching_delivery,
}

module _ {T : Type 0} ⦃i : Instant T⦄ (before after : T → ℕ → T)
    (later : (t : T) (m n : ℕ) → m < n → i.rank (after t m) < i.rank (after t n))
    (at_once : (t : T) → after t 0 ≡ t) where
  -- A later second is later.
  cmp-after : (t : T) (n : ℕ) → 0 < n → cmp t (after t n) ≡ Ordering.lt
  cmp-after t n h = let l = later t 0 n h in let l' = rw (at_once t) at l in ground arith

  delayed_arrival-passes :
      (now : T) → delayed_arrival_sorts_to_bottom before after now ≡ "fast" ∷ "delayed" ∷ []
  unfolding delayed_arrival_sorts_to_bottom new_model add_message inserted
  delayed_arrival-passes now = rw (cmp-after now 1 (omega arith)) refl

  sent_and_received_interleave-passes :
      (now : T)
      → sent_and_received_interleave_by_local_time before after now ≡ "s1" ∷ "r1" ∷ "s2" ∷ []
  unfolding sent_and_received_interleave_by_local_time new_model add_message inserted
  sent_and_received_interleave-passes now =
      let l : cmp (after now 5) (after now 10) ≡ Ordering.lt =
        let h = later now 5 10 (omega arith) in ground arith in
      rw (cmp-after now 5 (omega arith)) (rw l (rw l refl))

  relative_local_anchors-passes :
      (now : T) → relative_local_anchors_received_on_rx before after now ≡ Ordering.lt
  unfolding relative_local_anchors_received_on_rx
  relative_local_anchors-passes now = cmp-after now 1 (omega arith)

module _ {T : Type 0} ⦃i : Instant T⦄ where
  ack_marks_only_matching-passes : (now : T) → ack_marks_only_matching_delivery now ≡ (false, true)
  unfolding ack_marks_only_matching_delivery new_model add_message inserted update_message_with_ack
  ack_marks_only_matching-passes now = refl
