-- ===== src/Slice/Sort.antt =====
-- The stable sort: its result is in order, holds the same elements, and keeps equals in their order;
-- no other list does all of this.
use mathlib.Core.List.{Perm}
use mathlib.Core.List.Perm
use dtchat.Prelude.{
  ℕ, zero, suc, Ordering, ◌≡◌, refl, ◌≢◌, inl, inr, Bool, true, false, List, [], ◌∷◌, All, filter,
  Ordering-cases, arith,
}
use dtchat.Slice.{insert, place, sort_by}
use dtchat.Slice.Order.{Le, IsOrder, IsSorted, le_of_gt, All-Le_trans}

-- The elements that compare equal to `k`, in the order of the list.
abbrev pub is_eq : Ordering → Bool
is_eq Ordering.eq = true
is_eq Ordering.lt = false
is_eq Ordering.gt = false

abbrev pub equals {ℓ} : {A : Type ℓ} → (A → A → Ordering) → A → List A → List A
equals c k = filter (λ a. is_eq (c k a))

module _ {ℓ} {A : Type ℓ} (c : A → A → Ordering) where
  All-place {κ} : (P : A → Type κ) (x : A) (l : List A) → P x → All P l → All P (place c x l)
  unfolding place
  All-place P x [] p a = (p, tt)
  All-place P x (y ∷ ys) p a = elim (Ordering-cases (c x y)) [
    | inl e ↦ rw (e, place) (p, a)
    | inr (inl e) ↦ rw (e, place) (p, a)
    | inr (inr e) ↦ rw (e, place) (a.0, All-place P x ys p a.1)
  ]

  place-perm : (x : A) (l : List A) → Perm (place c x l) (x ∷ l)
  unfolding place
  place-perm x [] = Perm.rfl
  place-perm x (y ∷ ys) = elim (Ordering-cases (c x y)) [
    | inl e ↦ rw (e, place) Perm.rfl
    | inr (inl e) ↦ rw (e, place) Perm.rfl
    | inr (inr e) ↦ rw (e, place) (Perm.trans (Perm.cons y (place-perm x ys)) (Perm.swap x y ys))
  ]

  pub sort_by-perm : (l : List A) → Perm (sort_by c l) l
  unfolding sort_by
  sort_by-perm [] = Perm.rfl
  sort_by-perm (x ∷ xs) = Perm.trans (place-perm x (sort_by c xs)) (Perm.cons x (sort_by-perm xs))

  module _ (o : IsOrder c) where
    place-IsSorted : (x : A) (l : List A) → IsSorted c l → IsSorted c (place c x l)
    unfolding place
    place-IsSorted x [] s = (tt, tt)
    place-IsSorted x (y ∷ ys) s = elim (Ordering-cases (c x y)) [
      | inl e ↦
          let le : Le c x y = λ k. ground arith in
          rw (e, place) ((le, All-Le_trans c o x y ys le s.0), s)
      | inr (inl e) ↦
          let le : Le c x y = λ k. ground arith in
          rw (e, place) ((le, All-Le_trans c o x y ys le s.0), s)
      | inr (inr e) ↦
          rw (e, place) (All-place (Le c y) x ys (le_of_gt c o x y e) s.0, place-IsSorted x ys s.1)
    ]

    pub sort_by-IsSorted : (l : List A) → IsSorted c (sort_by c l)
    unfolding sort_by
    sort_by-IsSorted [] = tt
    sort_by-IsSorted (x ∷ xs) = place-IsSorted x (sort_by c xs) (sort_by-IsSorted xs)

    apart : (k x y : A) → c x y ≡ Ordering.gt → c k x ≡ Ordering.eq → c k y ≢ Ordering.eq
    apart k x y g p q = o.trans x k y (λ h. ground (arith, o.swaps k x)) (λ h. ground arith) g

    -- An element passes only others that it does not equal.
    place-equals : (k x : A) (l : List A) → equals c k (place c x l) ≡ equals c k (x ∷ l)
    unfolding place
    place-equals k x [] = refl
    place-equals k x (y ∷ ys) = elim (Ordering-cases (c x y)) [
      | inl e ↦ rw (e, place)
      | inr (inl e) ↦ rw (e, place)
      | inr (inr e) ↦ rw (e, place) (ground (arith, place-equals k x ys, apart k x y e))
    ]

    pub sort_by-equals : (k : A) (l : List A) → equals c k (sort_by c l) ≡ equals c k l
    unfolding sort_by
    sort_by-equals k [] = refl
    sort_by-equals k (x ∷ xs) = ground (arith, place-equals k x (sort_by c xs), sort_by-equals k xs)

module _ {ℓ κ} {A : Type ℓ} (Q : A → Type κ) (c : A → A → Ordering) where
  -- What holds of every element holds of every sorted one.
  pub All-sort_by : (l : List A) → All Q l → All Q (sort_by c l)
  unfolding sort_by
  All-sort_by [] a = tt
  All-sort_by (x ∷ xs) a = All-place c Q x (sort_by c xs) a.0 (All-sort_by xs a.1)

module _ {ℓ κ} {A : Type ℓ} (Q : A → Type κ) where
  pub All-insert : (i : ℕ) (x : A) (l : List A) → Q x → All Q l → All Q (insert i x l)
  unfolding insert
  All-insert zero x l q a = (q, a)
  All-insert (suc i) x [] q a = (q, tt)
  All-insert (suc i) x (y ∷ ys) q a = (a.0, All-insert i x ys q a.1)
