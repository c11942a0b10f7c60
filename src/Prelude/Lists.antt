-- ===== src/Prelude/Lists.antt =====
-- Lists measured and indexed by native numbers, and the searches of Rust's iterators.
use Prim.Native.Nat.{ℕ, zero, suc, ◌+◌, ◌≤◌}
use mathlib.Core.Path.{◌≡◌, refl, ap}
use mathlib.Core.Logic.{inl, inr}
use mathlib.Core.Bool.{Bool, true, false}
use mathlib.Core.Option.{Option, none, some}
use mathlib.Core.List.{List, [], ◌∷◌, ◌++◌, map, Mem, mem-cons_self, mem-cons_of_mem}
use native.Mathlib.Omega.{arith}
use dtchat.Prelude.Tests.{if◌then◌else◌, Bool-cases}

module _ {ℓ} {A : Type ℓ} where
  abbrev pub length : List A → ℕ
  length [] = 0
  length (x ∷ xs) = suc (length xs)

  abbrev pub get_elem? : List A → ℕ → Option A
  get_elem? [] i = none
  get_elem? (x ∷ xs) zero = some x
  get_elem? (x ∷ xs) (suc i) = get_elem? xs i

  abbrev pub take : ℕ → List A → List A
  take zero xs = []
  take (suc n) [] = []
  take (suc n) (x ∷ xs) = x ∷ take n xs

  abbrev pub drop : ℕ → List A → List A
  drop zero xs = xs
  drop (suc n) [] = []
  drop (suc n) (x ∷ xs) = drop n xs

  -- `xs.remove(i)`, which changes nothing out of bounds.
  abbrev pub remove : ℕ → List A → List A
  remove i [] = []
  remove zero (x ∷ xs) = xs
  remove (suc i) (x ∷ xs) = x ∷ remove i xs

  -- `iter().find(p)`
  abbrev pub find : (A → Bool) → List A → Option A
  find p [] = none
  find p (x ∷ xs) = if p x then some x else find p xs

  -- `iter().filter(p)`, with a Boolean test
  abbrev pub filter : (A → Bool) → List A → List A
  filter p [] = []
  filter p (x ∷ xs) = if p x then x ∷ filter p xs else filter p xs

  -- `iter().all(p)`
  abbrev pub all : (A → Bool) → List A → Bool
  all p [] = true
  all p (x ∷ xs) = if p x then all p xs else false

  -- `iter().take_while(p)`
  abbrev pub take_while : (A → Bool) → List A → List A
  take_while p [] = []
  take_while p (x ∷ xs) = if p x then x ∷ take_while p xs else []

  abbrev pub replicate : ℕ → A → List A
  replicate zero a = []
  replicate (suc n) a = a ∷ replicate n a

  pub length-append : (xs ys : List A) → length (xs ++ ys) ≡ length xs + length ys
  length-append [] ys = omega arith
  length-append (x ∷ xs) ys = omega (arith, length-append xs ys)

  pub length-filter-le : (p : A → Bool) (xs : List A) → length (filter p xs) ≤ length xs
  length-filter-le p [] = omega arith
  length-filter-le p (x ∷ xs) = ground (arith, length-filter-le p xs)

  pub take_all : (n : ℕ) (xs : List A) → length xs ≤ n → take n xs ≡ xs
  take_all zero [] h = refl
  take_all zero (x ∷ xs) h = absurd (omega arith)
  take_all (suc n) [] h = refl
  take_all (suc n) (x ∷ xs) h = ap (◌∷◌ x) (take_all n xs (omega arith))

  pub filter-append :
      (p : A → Bool) (xs ys : List A) → filter p (xs ++ ys) ≡ filter p xs ++ filter p ys
  filter-append p [] ys = refl
  filter-append p (x ∷ xs) ys = elim (Bool-cases (p x)) [
    | inl pass ↦ rw pass (ap (◌∷◌ x) (filter-append p xs ys))
    | inr fail ↦ rw fail (filter-append p xs ys)
  ]

module _ {ℓ κ} {A : Type ℓ} {B : Type κ} where
  pub length-map : (f : A → B) (xs : List A) → length (map f xs) ≡ length xs
  length-map f [] = refl
  length-map f (x ∷ xs) = ap suc (length-map f xs)

pub map_id {ℓ} : {A : Type ℓ} (xs : List A) → map (λ x. x) xs ≡ xs
map_id [] = refl
map_id (x ∷ xs) = ap (◌∷◌ x) (map_id xs)

pub map-map {ℓ κ μ} :
    {A : Type ℓ} {B : Type κ} {C : Type μ} (g : B → C) (f : A → B) (xs : List A)
    → map g (map f xs) ≡ map (λ x. g (f x)) xs
map-map g f [] = refl
map-map g f (x ∷ xs) = ap (◌∷◌ (g (f x))) (map-map g f xs)

module _ {ℓ κ} {A : Type ℓ} (P : A → Type κ) where
  -- Every element satisfies `P`.
  abbrev pub All : List A → Type κ
  All [] = Unit
  All (x ∷ xs) = P x × All xs

  pub All-append : (xs ys : List A) → All xs → All ys → All (xs ++ ys)
  All-append [] ys hx hy = hy
  All-append (x ∷ xs) ys hx hy = (hx.0, All-append xs ys hx.1 hy)

module _ {ℓ κ μ} {A : Type ℓ} {P : A → Type κ} {Q : A → Type μ} where
  pub All-imp : ((x : A) → P x → Q x) → (xs : List A) → All P xs → All Q xs
  All-imp h [] a = tt
  All-imp h (x ∷ xs) a = (h x a.0, All-imp h xs a.1)

module _ {ℓ κ μ} {A : Type ℓ} (P : A → Type κ) (Q : A → Type μ) where
  pub All-both : (xs : List A) → All P xs → All Q xs → All (λ x. P x × Q x) xs
  All-both [] a b = tt
  All-both (x ∷ xs) a b = ((a.0, b.0), All-both xs a.1 b.1)

pub All-of_forall {ℓ κ} : {A : Type ℓ} (P : A → Type κ) → ((x : A) → P x) → (xs : List A) → All P xs
All-of_forall P h [] = tt
All-of_forall P h (x ∷ xs) = (h x, All-of_forall P h xs)

module _ {ℓ} {A : Type ℓ} (p : A → Bool) where
  -- `find` gives an element that passes the test.
  pub find-eq-some : (xs : List A) (x : A) → find p xs ≡ some x → Mem x xs × (p x ≡ true)
  find-eq-some [] x e = cc
  find-eq-some (y ∷ ys) x e = elim (Bool-cases (p y)) [
    | inl pass ↦ let same : y ≡ x = ground arith in rw (← same) (mem-cons_self, pass)
    | inr fail ↦ let (m, q) = find-eq-some ys x (rw fail at e) in (mem-cons_of_mem y m, q)
  ]

  pub find-eq-none : (xs : List A) → find p xs ≡ none → All (λ x. p x ≡ false) xs
  find-eq-none [] e = tt
  find-eq-none (y ∷ ys) e = ground (arith, find-eq-none ys)

  pub find-none_of_All : (xs : List A) → All (λ x. p x ≡ false) xs → find p xs ≡ none
  find-none_of_All [] a = refl
  find-none_of_All (x ∷ xs) a = rw a.0 (find-none_of_All xs a.1)

pub All-left {ℓ κ} : {A : Type ℓ} (Q : A → Type κ) (xs ys : List A) → All Q (xs ++ ys) → All Q xs
All-left Q [] ys a = tt
All-left Q (x ∷ xs) ys a = (a.0, All-left Q xs ys a.1)

pub All-right {ℓ κ} : {A : Type ℓ} (Q : A → Type κ) (xs ys : List A) → All Q (xs ++ ys) → All Q ys
All-right Q [] ys a = a
All-right Q (x ∷ xs) ys a = All-right Q xs ys a.1
