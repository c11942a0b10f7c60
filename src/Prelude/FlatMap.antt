-- ===== src/Prelude/FlatMap.antt =====
-- The results of a function for the elements of a list, one after the other.
use mathlib.Core.Path.{◌≡◌, refl, sym, ap, ◌∙◌}
use mathlib.Core.List.{List, [], ◌∷◌, ◌++◌, Perm, perm_append_comm, append_assoc, Permᴰ}
use mathlib.Core.List.Perm
use mathlib.Core.Logic.{∥∥₁_elim, ∥∥₁_prop}

abbrev pub flat_map {ℓ κ} : {A : Type ℓ} {B : Type κ} → (A → List B) → List A → List B
flat_map f [] = []
flat_map f (x ∷ xs) = f x ++ flat_map f xs

-- What comes between two others may stand before them.
pub perm_between {ℓ} : {A : Type ℓ} (xs ys zs : List A) → Perm (xs ++ (ys ++ zs)) (ys ++ (xs ++ zs))
perm_between xs ys zs =
    rw (← append_assoc xs ys zs, ← append_assoc ys xs zs)
      (Perm.append_right zs (perm_append_comm xs ys))

module _ {ℓ κ} {A : Type ℓ} {B : Type κ} (f : A → List B) where
  flat_map-permᴰ : {xs ys : List A} → Permᴰ xs ys → Perm (flat_map f xs) (flat_map f ys)
  flat_map-permᴰ Permᴰ.nil = Perm.nil
  flat_map-permᴰ (Permᴰ.cons {b = b} e d) = rw e (Perm.append_left (f b) (flat_map-permᴰ d))
  flat_map-permᴰ (Permᴰ.swap {a = a} {b = b} {l = l} e e') =
      rw (← e, ← e') (perm_between (f a) (f b) (flat_map f l))
  flat_map-permᴰ (Permᴰ.trans d d') = Perm.trans (flat_map-permᴰ d) (flat_map-permᴰ d')

  pub flat_map-perm : {xs ys : List A} → Perm xs ys → Perm (flat_map f xs) (flat_map f ys)
  flat_map-perm p = ∥∥₁_elim p ∥∥₁_prop (λ d. flat_map-permᴰ d)

module _ {ℓ κ} {A : Type ℓ} {B : Type κ} (f : A → List B) where
  flat_map-append : (xs ys : List A) → flat_map f (xs ++ ys) ≡ flat_map f xs ++ flat_map f ys
  flat_map-append [] ys = refl
  flat_map-append (x ∷ xs) ys =
      ap (λ zs. f x ++ zs) (flat_map-append xs ys)
      ∙ sym (append_assoc (f x) (flat_map f xs) (flat_map f ys))

pub flat_map-flat_map {ℓ κ μ} :
    {A : Type ℓ} {B : Type κ} {C : Type μ} (g : B → List C) (f : A → List B) (xs : List A)
    → flat_map g (flat_map f xs) ≡ flat_map (λ x. flat_map g (f x)) xs
flat_map-flat_map g f [] = refl
flat_map-flat_map g f (x ∷ xs) =
    flat_map-append g (f x) (flat_map f xs)
    ∙ ap (λ zs. flat_map g (f x) ++ zs) (flat_map-flat_map g f xs)

pub flat_map-ext {ℓ κ} :
    {A : Type ℓ} {B : Type κ} (f g : A → List B)
    → ((x : A) → f x ≡ g x)
    → (xs : List A) → flat_map f xs ≡ flat_map g xs
flat_map-ext f g h [] = refl
flat_map-ext f g h (x ∷ xs) = rw (h x, flat_map-ext f g h xs) refl
