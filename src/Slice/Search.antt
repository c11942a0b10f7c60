-- ===== src/Slice/Search.antt =====
-- What a binary search finds.
use mathlib.Core.List.{Perm}
use mathlib.Core.List.Perm
use dtchat.Prelude.{
  ℕ, zero, suc, ◌+◌, ◌-◌, ◌/◌, ◌≤◌, ◌<◌, Ordering, ◌≡◌, refl, subst, ◌≢◌, ◌⊎◌, inl, inr, List, [],
  ◌∷◌, length, ltb, Bool-cases, Ordering-cases, arith,
}
use dtchat.Slice.{index, cmp_at, next_base, search_loop, verdict, binary_search_by, insert}

module _ {ℓ} {A : Type ℓ} (f : A → Ordering) (l : List A) where
  -- `f` first says `lt`, then `eq`, then `gt` along the list.
  pub record IsMonotone : Type 0 where
    pub gt_up :
        (i j : ℕ) → i ≤ j → j < length l → cmp_at f l i ≡ Ordering.gt → cmp_at f l j ≡ Ordering.gt
    pub lt_down :
        (i j : ℕ) → i ≤ j → j < length l → cmp_at f l j ≡ Ordering.lt → cmp_at f l i ≡ Ordering.lt

  -- Inserting at `i` keeps the order: nothing before it is greater, nothing from it on is less.
  pub record IsSlot (i : ℕ) : Type 0 where
    pub in_range : i ≤ length l
    pub before : (j : ℕ) → j < i → cmp_at f l j ≢ Ordering.gt
    pub behind : (j : ℕ) → i ≤ j → j < length l → cmp_at f l j ≢ Ordering.lt

  -- The loop's invariant.
  record IsRange (base size : ℕ) : Type 0 where
    some_left : 0 < size
    inside : base + size ≤ length l
    reached : (base ≡ 0) ⊎ (cmp_at f l base ≢ Ordering.gt)
    left : (j : ℕ) → j < base → cmp_at f l j ≢ Ordering.gt
    right : (j : ℕ) → base + size ≤ j → j < length l → cmp_at f l j ≡ Ordering.gt

  -- A round that finds a greater element keeps `base`, any other moves it up.
  module _ (m : IsMonotone) (base size : ℕ) (h : 1 < size) (r : IsRange base size) where
    IsRange-keep : cmp_at f l (base + size / 2) ≡ Ordering.gt → IsRange base (size - size / 2)
    IsRange-keep e = record {
      some_left = omega arith;
      inside = omega (arith, r.inside);
      reached = r.reached;
      left = r.left;
      right = λ j p q. m.gt_up (base + size / 2) j (omega arith) q e;
    }

    IsRange-move :
        cmp_at f l (base + size / 2) ≢ Ordering.gt → IsRange (base + size / 2) (size - size / 2)
    IsRange-move e = record {
      some_left = omega arith;
      inside = omega (arith, r.inside);
      reached = inr e;
      left = λ j p g. e (m.gt_up j (base + size / 2) (omega arith) (omega (arith, r.inside)) g);
      right = λ j p q. r.right j (omega arith) q;
    }

    IsRange-next :
        IsRange (next_base (cmp_at f l (base + size / 2)) base (base + size / 2)) (size - size / 2)
    IsRange-next = elim (Ordering-cases (cmp_at f l (base + size / 2))) [
      | inl e ↦ rw e (IsRange-move (λ g. ground arith))
      | inr (inl e) ↦ rw e (IsRange-move (λ g. ground arith))
      | inr (inr e) ↦ rw e (IsRange-keep e)
    ]

  search_loop-IsRange :
      IsMonotone
      → (fuel base size : ℕ) → size ≤ fuel
      → IsRange base size
      → IsRange (search_loop f l fuel base size) 1
  unfolding search_loop
  search_loop-IsRange m zero base size le r = absurd (omega (arith, r.some_left))
  search_loop-IsRange m (suc fuel) base size le r = elim (Bool-cases (ltb 1 size)) [
    | inl e ↦ rw e (
        search_loop-IsRange m fuel (next_base (cmp_at f l (base + size / 2)) base (base + size / 2))
          (size - size / 2) (ground arith) (IsRange-next m base size (ground arith) r))
    | inr e ↦ let one : size ≡ 1 = ground (arith, r.some_left) in rw e (subst (IsRange base) one r)
  ]

  verdict-IsSlot :
      (m : IsMonotone) (base : ℕ) → IsRange base 1 → IsSlot (index (verdict (cmp_at f l base) base))
  verdict-IsSlot m base r = elim (Ordering-cases (cmp_at f l base)) [
    | inl e ↦ rw e (record {
      in_range = r.inside;
      before = λ j p g.
          absurd (ground (arith, m.gt_up j base (omega arith) (omega (arith, r.inside)) g));
      behind = λ j p q k. ground (arith, r.right j p q);
    })
    | inr (inl e) ↦ rw e (record {
      in_range = omega (arith, r.inside);
      before = λ j p. r.left j p;
      behind = λ j p q k. ground (arith, m.lt_down base j p q k);
    })
    | inr (inr e) ↦ rw e (record {
      in_range = omega (arith, r.inside);
      before = λ j p. r.left j p;
      behind = λ j p q k. ground (arith, m.gt_up base j p q e);
    })
  ]

module _ {ℓ} {A : Type ℓ} where
  -- On a list in which `f` rises from `lt` to `gt`, the index that a binary search returns, found
  -- or not, is one where an element that `f` compares with can be inserted in order.
  pub binary_search_by-IsSlot :
      (f : A → Ordering) (l : List A) → IsMonotone f l → IsSlot f l (index (binary_search_by f l))
  unfolding binary_search_by
  binary_search_by-IsSlot f [] m = record {
    in_range = omega arith;
    before = λ j p. absurd (omega arith);
    behind = λ j p q. absurd (omega arith);
  }
  binary_search_by-IsSlot f (x ∷ xs) m = verdict-IsSlot f (x ∷ xs) m _ (
      search_loop-IsRange f (x ∷ xs) m (length (x ∷ xs)) 0 (length (x ∷ xs)) (omega arith) (record {
        some_left = omega arith;
        inside = omega arith;
        reached = inl refl;
        left = λ j p. absurd (omega arith);
        right = λ j p q. absurd (omega arith);
      }))

  -- Whatever `f` says, the index is within the list or at its end, so `insert` does not panic.
  search_loop-lt :
      (f : A → Ordering) (l : List A) (fuel base size : ℕ)
      → 0 < size
      → base + size ≤ length l
      → search_loop f l fuel base size < length l
  unfolding search_loop
  search_loop-lt f l zero base size p h = omega arith
  search_loop-lt f l (suc fuel) base size p h = elim (Bool-cases (ltb 1 size)) [
    | inl e ↦ rw e (
        search_loop-lt f l fuel (next_base (cmp_at f l (base + size / 2)) base (base + size / 2))
          (size - size / 2) (ground arith) (ground arith))
    | inr e ↦ rw e (omega arith)
  ]

  pub binary_search_by-le-length :
      (f : A → Ordering) (l : List A) → index (binary_search_by f l) ≤ length l
  unfolding binary_search_by
  binary_search_by-le-length f [] = omega arith
  binary_search_by-le-length f (x ∷ xs) =
      ground (arith, search_loop-lt f (x ∷ xs) (length (x ∷ xs)) 0 (length (x ∷ xs)))

  pub insert-perm : (i : ℕ) (x : A) (l : List A) → Perm (insert i x l) (x ∷ l)
  unfolding insert
  insert-perm zero x l = Perm.rfl
  insert-perm (suc i) x [] = Perm.rfl
  insert-perm (suc i) x (y ∷ ys) = Perm.trans (Perm.cons y (insert-perm i x ys)) (Perm.swap x y ys)
