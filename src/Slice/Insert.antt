-- ===== src/Slice/Insert.antt =====
-- Binary insertion into a sorted list.
use native.Mathlib.Decide.{dec_lt}
use dtchat.Prelude.{
  ℕ, zero, suc, ◌≤◌, ◌<◌, Ordering, ◌≡◌, refl, ap, ◌≢◌, List, [], ◌∷◌, ◌++◌, All, All-imp, length,
  Ordering-cases, inl, inr, arith,
}
use dtchat.Slice.{index, cmp_at, binary_search_by, insert}
use dtchat.Slice.Order.{Le, IsOrder, IsSorted, ge_of_not-lt, not-lt_of_ge}
use dtchat.Slice.Search.{IsMonotone, IsSlot, binary_search_by-IsSlot}

module _ {ℓ κ} {A : Type ℓ} (P : Ordering → Type κ) (f : A → Ordering) where
  cmp_at-of_All : (l : List A) (j : ℕ) → All (λ a. P (f a)) l → j < length l → P (cmp_at f l j)
  cmp_at-of_All [] j a h = absurd (omega arith)
  cmp_at-of_All (x ∷ xs) zero a h = a.0
  cmp_at-of_All (x ∷ xs) (suc j) a h = cmp_at-of_All xs j a.1 (omega arith)

  All-of_cmp_at : (l : List A) → ((j : ℕ) → j < length l → P (cmp_at f l j)) → All (λ a. P (f a)) l
  All-of_cmp_at [] h = tt
  All-of_cmp_at (x ∷ xs) h = (h 0 (omega arith), All-of_cmp_at xs (λ j p. h (suc j) (omega arith)))

module _ {ℓ κ} {A : Type ℓ} (P : A → Type κ) (x : A) where
  pub All-insert : (i : ℕ) (l : List A) → P x → All P l → All P (insert i x l)
  unfolding insert
  All-insert zero l p a = (p, a)
  All-insert (suc i) [] p a = (p, a)
  All-insert (suc i) (y ∷ ys) p a = (a.0, All-insert i ys p a.1)

module _ {ℓ} {A : Type ℓ} (c : A → A → Ordering) (o : IsOrder c) (x : A) where
  gt_of_le : (y a : A) → c y x ≡ Ordering.gt → Le c y a → c a x ≡ Ordering.gt
  gt_of_le y a g h = elim (Ordering-cases (c a x)) [
    | inl e ↦ absurd (o.trans y a x h (λ k. ground arith) g)
    | inr (inl e) ↦ absurd (o.trans y a x h (λ k. ground arith) g)
    | inr (inr e) ↦ e
  ]

  not-lt_of_le : (y a : A) → c y x ≢ Ordering.lt → Le c y a → c a x ≢ Ordering.lt
  not-lt_of_le y a g h = not-lt_of_ge c o a x (o.trans x y a (ge_of_not-lt c o y x g) h)

  sorted_gt_up :
      (l : List A) (i j : ℕ)
      → IsSorted c l
      → i ≤ j
      → j < length l
      → cmp_at (λ a. c a x) l i ≡ Ordering.gt
      → cmp_at (λ a. c a x) l j ≡ Ordering.gt
  sorted_gt_up [] i j s p q g = absurd (omega arith)
  sorted_gt_up (y ∷ ys) zero zero s p q g = g
  sorted_gt_up (y ∷ ys) zero (suc j) s p q g =
      cmp_at-of_All (λ r. r ≡ Ordering.gt) (λ a. c a x) ys j (All-imp (λ a. gt_of_le y a g) ys s.0)
        (omega arith)
  sorted_gt_up (y ∷ ys) (suc i) zero s p q g = absurd (omega arith)
  sorted_gt_up (y ∷ ys) (suc i) (suc j) s p q g =
      sorted_gt_up ys i j s.1 (omega arith) (omega arith) g

  sorted_lt_down :
      (l : List A) (i j : ℕ)
      → IsSorted c l
      → i ≤ j
      → j < length l
      → cmp_at (λ a. c a x) l j ≡ Ordering.lt
      → cmp_at (λ a. c a x) l i ≡ Ordering.lt
  sorted_lt_down [] i j s p q g = absurd (omega arith)
  sorted_lt_down (y ∷ ys) zero zero s p q g = g
  sorted_lt_down (y ∷ ys) zero (suc j) s p q g = elim (Ordering-cases (c y x)) [
    | inl e ↦ e
    | inr e ↦ absurd (
        cmp_at-of_All (λ r. r ≢ Ordering.lt) (λ a. c a x) ys j
          (All-imp (λ a. not-lt_of_le y a (λ k. ground arith)) ys s.0) (omega arith) g)
  ]
  sorted_lt_down (y ∷ ys) (suc i) zero s p q g = absurd (omega arith)
  sorted_lt_down (y ∷ ys) (suc i) (suc j) s p q g =
      sorted_lt_down ys i j s.1 (omega arith) (omega arith) g

  sorted-IsMonotone : (l : List A) → IsSorted c l → IsMonotone (λ a. c a x) l
  sorted-IsMonotone l s = record {
    gt_up = λ i j p q g. sorted_gt_up l i j s p q g;
    lt_down = λ i j p q g. sorted_lt_down l i j s p q g;
  }

  IsSlot-tail :
      (i : ℕ) (y : A) (ys : List A)
      → IsSlot (λ a. c a x) (y ∷ ys) (suc i)
      → IsSlot (λ a. c a x) ys i
  IsSlot-tail i y ys s = record {
    in_range = omega (arith, s.in_range);
    before = λ j p. s.before (suc j) (omega arith);
    behind = λ j p q. s.behind (suc j) (omega arith) (omega arith);
  }

  insert-IsSorted :
      (i : ℕ) (l : List A) → IsSorted c l → IsSlot (λ a. c a x) l i → IsSorted c (insert i x l)
  unfolding insert
  insert-IsSorted zero l s slot = (
    All-imp (λ a. ge_of_not-lt c o a x) l
        (All-of_cmp_at (λ r. r ≢ Ordering.lt) (λ a. c a x) l (λ j. slot.behind j (omega arith))),
    s,
  )
  insert-IsSorted (suc i) [] s slot = (tt, s)
  insert-IsSorted (suc i) (y ∷ ys) s slot = (
    All-insert (Le c y) x i ys (slot.before 0 (omega arith)) s.0,
    insert-IsSorted i ys s.1 (IsSlot-tail i y ys slot),
  )

  -- Binary insertion keeps a sorted list sorted.
  pub insert-binary_search_by-IsSorted :
      (l : List A)
      → IsSorted c l
      → IsSorted c (insert (index (binary_search_by (λ a. c a x) l)) x l)
  insert-binary_search_by-IsSorted l s =
      insert-IsSorted _ l s (binary_search_by-IsSlot (λ a. c a x) l (sorted-IsMonotone l s))

module _ {ℓ} {A : Type ℓ} where
  insert-length : (x : A) (l : List A) → insert (length l) x l ≡ l ++ x ∷ []
  unfolding insert
  insert-length x [] = refl
  insert-length x (y ∷ ys) = ap (◌∷◌ y) (insert-length x ys)

  all_lt-IsMonotone :
      (f : A → Ordering) (l : List A) → All (λ a. f a ≡ Ordering.lt) l → IsMonotone f l
  all_lt-IsMonotone f l a = record {
    gt_up = λ i j p q g.
        absurd (ground (arith, cmp_at-of_All (λ r. r ≡ Ordering.lt) f l i a (omega arith)));
    lt_down = λ i j p q g. cmp_at-of_All (λ r. r ≡ Ordering.lt) f l i a (omega arith);
  }

  -- What is greater than everything goes to the end.
  pub insert-binary_search_by_last :
      (f : A → Ordering) (x : A) (l : List A)
      → All (λ a. f a ≡ Ordering.lt) l
      → insert (index (binary_search_by f l)) x l ≡ l ++ x ∷ []
  insert-binary_search_by_last f x l a =
      let slot = binary_search_by-IsSlot f l (all_lt-IsMonotone f l a) in
      elim (dec_lt (index (binary_search_by f l)) (length l)) [
        | yes short ↦
            absurd (
              slot.behind _ (omega arith) short
                (cmp_at-of_All (λ r. r ≡ Ordering.lt) f l _ a short))
        | no long ↦
            let end : index (binary_search_by f l) ≡ length l = omega (arith, slot.in_range) in
            rw end (insert-length x l)
      ]
