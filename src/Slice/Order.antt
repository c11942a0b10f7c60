-- ===== src/Slice/Order.antt =====
-- Comparison functions that are total preorders, and lists in their order.
use mathlib.Core.Path.{◌≡◌}
use dtchat.Prelude.{Ordering, ◌≢◌, List, [], ◌∷◌, All, arith}

abbrev pub swap : Ordering → Ordering
swap Ordering.lt = Ordering.gt
swap Ordering.eq = Ordering.eq
swap Ordering.gt = Ordering.lt

module _ {ℓ} {A : Type ℓ} (c : A → A → Ordering) where
  abbrev pub Le : A → A → Type 0
  Le a b = c a b ≢ Ordering.gt

  -- What `sort_by` and `binary_search_by` ask of a comparison.
  pub record IsOrder : Type ℓ where
    pub swaps : (a b : A) → c b a ≡ swap (c a b)
    pub trans : (a b d : A) → Le a b → Le b d → Le a d

  -- Every element is at most each later one.
  abbrev pub IsSorted : List A → Type 0
  IsSorted [] = Unit
  IsSorted (x ∷ xs) = All (Le x) xs × IsSorted xs

module _ {ℓ} {A : Type ℓ} (c : A → A → Ordering) (o : IsOrder c) where
  pub le_of_gt : (a b : A) → c a b ≡ Ordering.gt → Le c b a
  le_of_gt a b h = ground (arith, o.swaps a b)

  pub ge_of_not-lt : (a b : A) → c a b ≢ Ordering.lt → Le c b a
  ge_of_not-lt a b h = ground (arith, o.swaps a b)

  pub not-lt_of_ge : (a b : A) → Le c b a → c a b ≢ Ordering.lt
  not-lt_of_ge a b h = ground (arith, o.swaps a b)

  pub All-Le_trans : (a b : A) (xs : List A) → Le c a b → All (Le c b) xs → All (Le c a) xs
  All-Le_trans a b [] h k = tt
  All-Le_trans a b (x ∷ xs) h k = (o.trans a b x h k.0, All-Le_trans a b xs h k.1)
