-- ===== src/Model/Sorted.antt =====
-- The order of the message list of src/app.rs under its operations.
use Prim.Native.String.{String}
use mathlib.Core.List.{Perm}
use dtchat.Prelude.{
  ◌≡◌, refl, inl, inr, Ordering, List, [], ◌∷◌, ◌++◌, All, All-imp, Bool-cases, String_eq, ◌==◌,
  arith,
}
use dtchat.Time.{Instant, cmp}
use dtchat.Message.{ChatMessage, tx_time, mark_ack}
use dtchat.Message.Marks.{status_cases}
use dtchat.Slice.Order.{Le, IsSorted}
use dtchat.Slice.Search.{insert-perm}
use dtchat.Slice.Insert.{insert-binary_search_by-IsSorted, insert-binary_search_by_last}
use dtchat.Model.Order.{
  SortStrategy, standard, relative, arrival_time, anchor, standard_cmp, strategy_cmp,
  strategy_cmp-IsOrder,
}
use dtchat.Slice.Sort.{equals, sort_by-IsSorted, sort_by-perm, sort_by-equals}
use dtchat.Model.{ChatModel, inserted, ack_first, sort_messages}

module _ {T : Type 0} where
  -- The two messages stand at the same place in every order.
  record HasSameKeys (m n : ChatMessage T) : Type 0 where
    arrival : arrival_time m.shipment_status ≡ arrival_time n.shipment_status
    tx : tx_time m.shipment_status ≡ tx_time n.shipment_status
    anchored : (u : String) → anchor u m ≡ anchor u n

  mark_ack-HasSameKeys : (m : ChatMessage T) (u : String) (t : T) → HasSameKeys (mark_ack m u t).0 m
  unfolding mark_ack arrival_time tx_time anchor
  mark_ack-HasSameKeys m u t = elim (status_cases m.shipment_status) [
    | inl (tx, ds, e) ↦ record {
      arrival = ground arith;
      tx = ground arith;
      anchored = λ u. ground arith;
    }
    | inr (tx, rx, e) ↦ record {
      arrival = ground arith;
      tx = ground arith;
      anchored = λ u. ground arith;
    }
  ]

module _ {T : Type 0} ⦃i : Instant T⦄ where
  -- The list is in the order of the strategy.
  abbrev pub InOrder : SortStrategy → List (ChatMessage T) → Type 0
  InOrder s ms = IsSorted (strategy_cmp s) ms

  HasSameKeys-cmp :
      (s : SortStrategy) (m n b : ChatMessage T)
      → HasSameKeys m n
      → (strategy_cmp s m b ≡ strategy_cmp s n b) × (strategy_cmp s b m ≡ strategy_cmp s b n)
  unfolding strategy_cmp
  HasSameKeys-cmp standard m n b k =
      (ground (arith, k.arrival, k.tx), ground (arith, k.arrival, k.tx))
  HasSameKeys-cmp (relative p) m n b k =
      (ground (arith, k.anchored p.uuid), ground (arith, k.anchored p.uuid))

  All-Le_left :
      (s : SortStrategy) (m n : ChatMessage T) (ms : List (ChatMessage T))
      → HasSameKeys m n
      → All (Le (strategy_cmp s) n) ms
      → All (Le (strategy_cmp s) m) ms
  All-Le_left s m n ms k a =
      All-imp {P = Le (strategy_cmp s) n} {Q = Le (strategy_cmp s) m}
        (λ b h. rw ((HasSameKeys-cmp s m n b k).0) h) ms a

  module _ (s : SortStrategy) (u acker : String) (t : T) where
    All-ack_first :
        (x : ChatMessage T) (ms : List (ChatMessage T))
        → All (Le (strategy_cmp s) x) ms
        → All (Le (strategy_cmp s) x) (ack_first u acker t ms).0
    unfolding ack_first
    All-ack_first x [] a = tt
    All-ack_first x (m ∷ ms) a = elim (Bool-cases (m.uuid == u)) [
      | inl hit ↦ rw hit (
        rw ((HasSameKeys-cmp s (mark_ack m acker t).0 m x (mark_ack-HasSameKeys m acker t)).1) a.0,
        a.1,
      )
      | inr miss ↦ rw miss (a.0, All-ack_first x ms a.1)
    ]

    -- An ACK changes no message's place.
    pub ack_first-InOrder :
        (ms : List (ChatMessage T)) → InOrder s ms → InOrder s (ack_first u acker t ms).0
    unfolding ack_first
    ack_first-InOrder [] o = tt
    ack_first-InOrder (m ∷ ms) o = elim (Bool-cases (m.uuid == u)) [
      | inl hit ↦
          rw hit
            (All-Le_left s (mark_ack m acker t).0 m ms (mark_ack-HasSameKeys m acker t) o.0, o.1)
      | inr miss ↦ rw miss (All-ack_first m ms o.0, ack_first-InOrder ms o.1)
    ]

  pub inserted-InOrder :
      (s : SortStrategy) (m : ChatMessage T) (ms : List (ChatMessage T))
      → InOrder s ms
      → InOrder s (inserted s m ms)
  unfolding inserted
  inserted-InOrder s m ms o =
      insert-binary_search_by-IsSorted (strategy_cmp s) (strategy_cmp-IsOrder s) m ms o

  -- `add_message` keeps every message and adds the new one, once.
  pub inserted-perm :
      (s : SortStrategy) (m : ChatMessage T) (ms : List (ChatMessage T))
      → Perm (inserted s m ms) (m ∷ ms)
  unfolding inserted
  inserted-perm s m ms = insert-perm _ m ms

  -- A message later than all others in the order goes to the bottom.
  pub inserted_last :
      (s : SortStrategy) (m : ChatMessage T) (ms : List (ChatMessage T))
      → All (λ msg. strategy_cmp s msg m ≡ Ordering.lt) ms
      → inserted s m ms ≡ ms ++ m ∷ []
  unfolding inserted
  inserted_last s m ms a = insert-binary_search_by_last (λ msg. strategy_cmp s msg m) m ms a

  -- Whatever was sent when: what arrives strictly after all that is known goes to the bottom.
  pub inserted_late :
      (m : ChatMessage T) (ms : List (ChatMessage T))
      → All
          (λ msg.
            cmp (arrival_time msg.shipment_status) (arrival_time m.shipment_status) ≡ Ordering.lt)
          ms
      → inserted standard m ms ≡ ms ++ m ∷ []
  unfolding standard_cmp strategy_cmp
  inserted_late m ms a = inserted_last standard m ms (All-imp (λ msg h. rw h) ms a)

  -- `sort_messages` keeps the strategy and leaves the same messages in its order, and those that it
  -- does not tell apart in the order that they were in.
  pub sort_messages-IsStable :
      {P : Type 0} (s : SortStrategy) (m : ChatModel T P)
      → ((sort_messages s m).sort_strategy ≡ s)
        × InOrder s (sort_messages s m).messages
        × Perm (sort_messages s m).messages m.messages
        × ((k : ChatMessage T)
            → equals (strategy_cmp s) k (sort_messages s m).messages
              ≡ equals (strategy_cmp s) k m.messages)
  unfolding sort_messages
  sort_messages-IsStable s m = (
    refl,
    sort_by-IsSorted (strategy_cmp s) (strategy_cmp-IsOrder s) m.messages,
    sort_by-perm (strategy_cmp s) m.messages,
    λ k. sort_by-equals (strategy_cmp s) (strategy_cmp-IsOrder s) k m.messages,
  )
