-- ===== src/Slice/Singles.antt =====
-- Insertion and the stable sort, as a test sees them that at most one element passes.
use dtchat.Prelude.{
  ℕ, zero, suc, Ordering, ◌≡◌, refl, ap, ◌∙◌, inl, inr, Bool, true, false, List, [], ◌∷◌, filter,
  Bool-cases, Ordering-cases, arith,
}
use dtchat.Slice.{insert, place, sort_by}

module _ {ℓ} {A : Type ℓ} (p : A → Bool) where
  pub filter-insert :
      (k : ℕ) (x : A) (l : List A) → p x ≡ false → filter p (insert k x l) ≡ filter p l
  unfolding insert
  filter-insert zero x l e = rw e refl
  filter-insert (suc k) x [] e = rw e refl
  filter-insert (suc k) x (y ∷ l) e = ground (arith, filter-insert k x l e)

  pub filter-insert_first :
      (k : ℕ) (x : A) (l : List A) → p x ≡ true → filter p l ≡ [] → filter p (insert k x l) ≡ x ∷ []
  unfolding insert
  filter-insert_first zero x l e n = rw e (ap (◌∷◌ x) n)
  filter-insert_first (suc k) x [] e n = rw e refl
  filter-insert_first (suc k) x (y ∷ l) e n = elim (Bool-cases (p y)) [
    | inl pass ↦ let no : y ∷ filter p l ≡ [] = rw pass at n in cc
    | inr fail ↦ rw fail (filter-insert_first k x l e (rw fail at n))
  ]

  module _ (c : A → A → Ordering) where
    filter-place : (x : A) (l : List A) → p x ≡ false → filter p (place c x l) ≡ filter p l
    unfolding place
    filter-place x [] e = rw e refl
    filter-place x (y ∷ l) e = elim (Ordering-cases (c x y)) [
      | inl o ↦ rw (o, place) (rw e refl)
      | inr (inl o) ↦ rw (o, place) (rw e refl)
      | inr (inr o) ↦ rw (o, place) (ground (arith, filter-place x l e))
    ]

    filter-place_first :
        (x : A) (l : List A) → p x ≡ true → filter p l ≡ [] → filter p (place c x l) ≡ x ∷ []
    unfolding place
    filter-place_first x [] e n = rw e refl
    filter-place_first x (y ∷ l) e n = elim (Ordering-cases (c x y)) [
      | inl o ↦ rw (o, place) (rw e (ap (◌∷◌ x) n))
      | inr (inl o) ↦ rw (o, place) (rw e (ap (◌∷◌ x) n))
      | inr (inr o) ↦ elim (Bool-cases (p y)) [
        | inl pass ↦ let no : y ∷ filter p l ≡ [] = rw pass at n in cc
        | inr fail ↦ rw (o, place) (rw fail (filter-place_first x l e (rw fail at n)))
      ]
    ]

    filter-sort_by_none : (l : List A) → filter p l ≡ [] → filter p (sort_by c l) ≡ []
    unfolding sort_by
    filter-sort_by_none [] n = refl
    filter-sort_by_none (y ∷ l) n = elim (Bool-cases (p y)) [
      | inl pass ↦ let no : y ∷ filter p l ≡ [] = rw pass at n in cc
      | inr fail ↦ filter-place y (sort_by c l) fail ∙ filter-sort_by_none l (rw fail at n)
    ]

    pub filter-sort_by :
        (x : A) (l : List A) → filter p l ≡ x ∷ [] → filter p (sort_by c l) ≡ x ∷ []
    unfolding sort_by
    filter-sort_by x [] e = cc
    filter-sort_by x (y ∷ l) e = elim (Bool-cases (p y)) [
      | inl pass ↦
          let same : y ∷ filter p l ≡ x ∷ [] = rw pass at e in
          let here : y ≡ x = cc in
          let rest : filter p l ≡ [] = cc in
          filter-place_first y (sort_by c l) pass (filter-sort_by_none l rest)
          ∙ ap (λ z. z ∷ []) here
      | inr fail ↦ filter-place y (sort_by c l) fail ∙ filter-sort_by x l (rw fail at e)
    ]
