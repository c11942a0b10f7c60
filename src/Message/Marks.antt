-- ===== src/Message/Marks.antt =====
-- What `mark_ack` (src/utils/message.rs) does to the deliveries of a message.
use Prim.Native.String.{String}
use text.Mathlib.TextEquality.{eq_iff}
use dtchat.Prelude.{
  ◌≤◌, ◌≡◌, refl, ap, ◌≢◌, ◌⊎◌, inl, inr, Bool, true, false, List, [], ◌∷◌, ◌++◌, some, is_some,
  String_eq, ◌==◌, Bool-cases, All, length, length-filter-le, arith,
}
use dtchat.Message.{
  Delivery, MessageStatus, sent, received, ChatMessage, acked, mark_first, mark_ack,
}

module _ {T : Type 0} where
  abbrev pub Others : String → List (Delivery T) → Type 0
  Others acker ds = All (λ d. d.peer_uuid ≢ acker) ds

  -- The delivery with its acknowledgement.
  abbrev pub marked : T → Delivery T → Delivery T
  marked t d = record d { acked_at = some t }

  -- The deliveries split at the acker's first one, which is marked.
  pub record IsHit (acker : String) (t : T) (ds ds' : List (Delivery T)) : Type 0 where
    pub before : List (Delivery T)
    pub hit : Delivery T
    pub behind : List (Delivery T)
    pub split : ds ≡ before ++ hit ∷ behind
    pub first : Others acker before
    pub of_acker : hit.peer_uuid ≡ acker
    pub result : ds' ≡ before ++ marked t hit ∷ behind

  IsHit-cons :
      (acker : String) (t : T) (d : Delivery T) (ds ds' : List (Delivery T))
      → d.peer_uuid ≢ acker
      → IsHit acker t ds ds'
      → IsHit acker t (d ∷ ds) (d ∷ ds')
  IsHit-cons acker t d ds ds' n h = record {
    before = d ∷ h.before;
    hit = h.hit;
    behind = h.behind;
    split = ap (◌∷◌ d) h.split;
    first = (n, h.first);
    of_acker = h.of_acker;
    result = ap (◌∷◌ d) h.result;
  }

  pub mark_first-IsHit :
      (acker : String) (t : T) (ds : List (Delivery T))
      → (mark_first acker t ds).1 ≡ true
      → IsHit acker t ds (mark_first acker t ds).0
  unfolding mark_first
  mark_first-IsHit acker t [] e = cc
  mark_first-IsHit acker t (d ∷ ds) e = elim (Bool-cases (d.peer_uuid == acker)) [
    | inl same ↦ rw same (record {
      before = [];
      hit = d;
      behind = ds;
      split = refl;
      first = tt;
      of_acker = (eq_iff _ _).0 same;
      result = refl;
    })
    | inr other ↦ rw other (
        IsHit-cons acker t d ds _ (λ k. ground (arith, eq_iff d.peer_uuid acker))
          (mark_first-IsHit acker t ds (rw other at e)))
  ]

  pub mark_first_miss :
      (acker : String) (t : T) (ds : List (Delivery T))
      → (mark_first acker t ds).1 ≡ false
      → Others acker ds × ((mark_first acker t ds).0 ≡ ds)
  unfolding mark_first
  mark_first_miss acker t [] e = (tt, refl)
  mark_first_miss acker t (d ∷ ds) e =
      ground (arith, eq_iff d.peer_uuid acker, mark_first_miss acker t ds)

  -- What an ACK may do to a message.
  pub data Marks (acker : String) (t : T) (m : ChatMessage T) (r : ChatMessage T × Bool)
      : Type 0 where
    hit :
        (tx : T) (ds ds' : List (Delivery T))
        → m.shipment_status ≡ sent tx ds
        → IsHit acker t ds ds'
        → r ≡ (record m { shipment_status = sent tx ds' }, true)
        → Marks acker t m r
    miss :
        (tx : T) (ds : List (Delivery T))
        → m.shipment_status ≡ sent tx ds
        → Others acker ds
        → r ≡ (m, false)
        → Marks acker t m r
    inbound : (tx rx : T) → m.shipment_status ≡ received tx rx → r ≡ (m, false) → Marks acker t m r

  pub status_cases :
      (s : MessageStatus T)
      → ((tx : T) × (ds : List (Delivery T)) × (s ≡ sent tx ds))
        ⊎ ((tx : T) × (rx : T) × (s ≡ received tx rx))
  status_cases (sent tx ds) = inl (tx, ds, refl)
  status_cases (received tx rx) = inr (tx, rx, refl)

  -- An ACK marks the first delivery of the acker and nothing else, and says whether there is one;
  -- a received message, or one that was not sent to the acker, is left as it is.
  pub mark_ack-Marks :
      (m : ChatMessage T) (acker : String) (t : T) → Marks acker t m (mark_ack m acker t)
  unfolding mark_ack
  mark_ack-Marks m acker t = elim (status_cases m.shipment_status) [
    | inl (tx, ds, e) ↦ elim (Bool-cases (mark_first acker t ds).1) [
      | inl found ↦
          hit tx ds (mark_first acker t ds).0 e (mark_first-IsHit acker t ds found) (ground arith)
      | inr lost ↦
          let (others, same) = mark_first_miss acker t ds lost in miss tx ds e others (ground arith)
    ]
    | inr (tx, rx, e) ↦ inbound tx rx e (ground arith)
  ]

  -- The number of acknowledged deliveries never falls, and never exceeds their number.
  pub acked-mark_first :
      (acker : String) (t : T) (ds : List (Delivery T))
      → (acked ds ≤ acked (mark_first acker t ds).0)
        × (acked (mark_first acker t ds).0 ≤ length (mark_first acker t ds).0)
        × (length (mark_first acker t ds).0 ≡ length ds)
  unfolding acked mark_first
  acked-mark_first acker t [] = omega arith
  acked-mark_first acker t (d ∷ ds) =
      ground (arith, acked-mark_first acker t ds, length-filter-le (λ d. is_some d.acked_at) ds)
