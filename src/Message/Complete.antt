-- ===== src/Message/Complete.antt =====
-- A sequence of ACKs for one message, from any peers in any order (src/utils/message.rs).
use Prim.Native.String.{String}
use text.Mathlib.TextEquality.{eq_iff}
use dtchat.Prelude.{
  ◌≡◌, refl, ap, sym, ◌∙◌, ◌⊎◌, inl, inr, true, List, [], ◌∷◌, is_some, String_eq, ◌==◌,
  if◌then◌else◌, Bool-cases, All, All-imp, length, suc, map, map_id, map-map, arith,
}
use dtchat.Message.{Delivery, acked, mark_first}
use dtchat.Message.Marks.{Others, marked}

-- The acker's uuid is in the sequence.
abbrev pub Answers : {T : Type 0} → List (String × T) → String → Type 0
Answers [] uuid = ⊥
Answers ((u, t) ∷ acks) uuid = (u ≡ uuid) ⊎ Answers acks uuid

module _ {T : Type 0} where
  -- No two deliveries go to one peer.
  abbrev pub HasDistinctPeers : List (Delivery T) → Type 0
  HasDistinctPeers [] = Unit
  HasDistinctPeers (d ∷ ds) = Others d.peer_uuid ds × HasDistinctPeers ds

  -- The ACKs are handled one after the other.
  unfoldable pub mark_each : List (String × T) → List (Delivery T) → List (Delivery T)
  mark_each [] ds = ds
  mark_each ((u, t) ∷ acks) ds = mark_each acks (mark_first u t ds).0

  -- One ACK as one delivery sees it, and a sequence of them.
  touch : String → T → Delivery T → Delivery T
  touch u t d = if d.peer_uuid == u then marked t d else d

  touch_each : List (String × T) → Delivery T → Delivery T
  touch_each [] d = d
  touch_each ((u, t) ∷ acks) d = touch_each acks (touch u t d)

  map-touch-Others :
      (u : String) (t : T) (ds : List (Delivery T)) → Others u ds → map (touch u t) ds ≡ ds
  unfolding touch
  map-touch-Others u t [] a = refl
  map-touch-Others u t (d ∷ ds) a =
      ground (arith, map-touch-Others u t ds a.1, eq_iff d.peer_uuid u)

  mark_first-map :
      (u : String) (t : T) (ds : List (Delivery T))
      → HasDistinctPeers ds
      → (mark_first u t ds).0 ≡ map (touch u t) ds
  unfolding mark_first touch
  mark_first-map u t [] a = refl
  mark_first-map u t (d ∷ ds) a = elim (Bool-cases (d.peer_uuid == u)) [
    | inl same ↦
        let e : d.peer_uuid ≡ u = (eq_iff _ _).0 same in
        rw same (ap (◌∷◌ (marked t d)) (sym (map-touch-Others u t ds (rw e at a.0))))
    | inr other ↦ rw other (ap (◌∷◌ d) (mark_first-map u t ds a.1))
  ]

  peer-touch : (u : String) (t : T) (d : Delivery T) → (touch u t d).peer_uuid ≡ d.peer_uuid
  unfolding touch
  peer-touch u t d = ground arith

  Others-map-touch :
      (v u : String) (t : T) (ds : List (Delivery T)) → Others v ds → Others v (map (touch u t) ds)
  Others-map-touch v u t [] a = tt
  Others-map-touch v u t (d ∷ ds) a = (rw (peer-touch u t d) a.0, Others-map-touch v u t ds a.1)

  HasDistinctPeers-map-touch :
      (u : String) (t : T) (ds : List (Delivery T))
      → HasDistinctPeers ds
      → HasDistinctPeers (map (touch u t) ds)
  HasDistinctPeers-map-touch u t [] a = tt
  HasDistinctPeers-map-touch u t (d ∷ ds) a = (
    rw (peer-touch u t d) (Others-map-touch d.peer_uuid u t ds a.0),
    HasDistinctPeers-map-touch u t ds a.1,
  )

  mark_each-map :
      (acks : List (String × T)) (ds : List (Delivery T))
      → HasDistinctPeers ds
      → mark_each acks ds ≡ map (touch_each acks) ds
  unfolding mark_each touch_each
  mark_each-map [] ds a = sym (map_id ds)
  mark_each-map ((u, t) ∷ acks) ds a =
      ap (mark_each acks) (mark_first-map u t ds a)
      ∙ mark_each-map acks (map (touch u t) ds) (HasDistinctPeers-map-touch u t ds a)
      ∙ map-map (touch_each acks) (touch u t) ds

  touch_each_done :
      (acks : List (String × T)) (d : Delivery T)
      → is_some d.acked_at ≡ true
      → is_some (touch_each acks d).acked_at ≡ true
  unfolding touch_each touch
  touch_each_done [] d e = e
  touch_each_done ((u, t) ∷ acks) d e = touch_each_done acks (touch u t d) (ground arith)

  touch_each_answered :
      (acks : List (String × T)) (d : Delivery T)
      → Answers acks d.peer_uuid
      → is_some (touch_each acks d).acked_at ≡ true
  unfolding touch_each touch
  touch_each_answered [] d a = absurd a
  touch_each_answered ((u, t) ∷ acks) d (inl e) =
      touch_each_done acks (touch u t d) (ground (arith, eq_iff d.peer_uuid u))
  touch_each_answered ((u, t) ∷ acks) d (inr a) =
      touch_each_answered acks (touch u t d) (rw (peer-touch u t d) a)

  acked-map :
      (f : Delivery T → Delivery T) (ds : List (Delivery T))
      → All (λ d. is_some (f d).acked_at ≡ true) ds
      → acked (map f ds) ≡ length ds
  unfolding acked
  acked-map f [] a = refl
  acked-map f (d ∷ ds) a = rw a.0 (ap suc (acked-map f ds a.1))

  -- When each recipient is in the sequence of ACKs, in whatever order and however often, every
  -- delivery ends up acknowledged, if no two deliveries go to one peer.
  pub acked-mark_each :
      (acks : List (String × T)) (ds : List (Delivery T))
      → HasDistinctPeers ds
      → All (λ d. Answers acks d.peer_uuid) ds
      → acked (mark_each acks ds) ≡ length ds
  acked-mark_each acks ds distinct answered =
      rw (mark_each-map acks ds distinct)
        (acked-map (touch_each acks) ds (All-imp (λ d. touch_each_answered acks d) ds answered))
