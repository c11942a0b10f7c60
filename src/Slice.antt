-- ===== src/Slice.antt =====
-- What the model of src/app.rs uses of Rust's slices and vectors: `binary_search_by`, `insert` and
-- the stable `sort_by`, over a comparison function.
pub mod Order
pub mod Search
pub mod Insert
pub mod Sort
pub mod Singles
use dtchat.Prelude.{
  ℕ, zero, suc, ◌+◌, ◌-◌, ◌/◌, Ordering, List, [], ◌∷◌, Option, none, some, length, get_elem?, ltb,
  if◌then◌else◌,
}

-- `Result<usize, usize>`, as a binary search returns it.
pub data Found : Type 0 where
  ok err : ℕ → Found

-- `.unwrap_or_else(|i| i)`
abbrev pub index : Found → ℕ
index (ok i) = i
index (err i) = i

-- A round of the binary search, at what the comparison says of `mid`.
abbrev pub next_base : Ordering → ℕ → ℕ → ℕ
next_base Ordering.gt base mid = base
next_base Ordering.lt base mid = mid
next_base Ordering.eq base mid = mid

-- Its last comparison.
abbrev pub verdict : Ordering → ℕ → Found
verdict Ordering.eq base = ok base
verdict Ordering.lt base = err (base + 1)
verdict Ordering.gt base = err base

module _ {ℓ} {A : Type ℓ} where
  -- `f(self.get_unchecked(i))`; the search never asks beyond the end.
  abbrev pub cmp_at : (A → Ordering) → List A → ℕ → Ordering
  cmp_at f l i = elim (get_elem? l i) [ none ↦ Ordering.gt | some x ↦ f x ]

  -- The loop `while size > 1`, which ends at the last element that is not greater, or at 0.
  search_loop : (A → Ordering) → List A → ℕ → ℕ → ℕ → ℕ
  search_loop f l zero base size = base
  search_loop f l (suc fuel) base size =
      let half = size / 2 in
      let mid = base + half in
      let rest = search_loop f l fuel (next_base (cmp_at f l mid) base mid) (size - half) in
      if ltb 1 size then rest else base

  -- Each round makes `size` smaller, so the length is fuel enough.
  unfoldable pub binary_search_by : (A → Ordering) → List A → Found
  unfolding search_loop
  binary_search_by f [] = err 0
  binary_search_by f (x ∷ xs) =
      let l = x ∷ xs in
      let base = search_loop f l (length l) 0 (length l) in verdict (cmp_at f l base) base

  -- `Vec::insert(i, x)`, at an index up to the length (beyond it Rust panics, and no call is there).
  unfoldable pub insert : ℕ → A → List A → List A
  insert zero x l = x ∷ l
  insert (suc i) x [] = x ∷ []
  insert (suc i) x (y ∷ ys) = y ∷ insert i x ys

  -- One element of the sort: `x` came before all of `l`, so it stays before its equals.
  place : (A → A → Ordering) → A → List A → List A
  place c x [] = x ∷ []
  place c x (y ∷ ys) = elim (c x y) [
    | Ordering.gt ↦ y ∷ place c x ys
    | Ordering.lt ↦ x ∷ y ∷ ys
    | Ordering.eq ↦ x ∷ y ∷ ys
  ]

  -- `sort_by`: Rust promises a stable sort, whose result does not depend on the algorithm.
  unfoldable pub sort_by : (A → A → Ordering) → List A → List A
  unfolding place
  sort_by c [] = []
  sort_by c (x ∷ xs) = place c x (sort_by c xs)
