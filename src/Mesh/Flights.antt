-- ===== src/Mesh/Flights.antt =====
-- What is in flight in the mesh tests of src/mesh_integration.rs, by tags that say what each payload is.
use dtchat.Prelude.{
  ℕ, zero, suc, ◌+◌, ◌<◌, ◌≡◌, refl, ◌⊎◌, inl, inr, List, [], ◌∷◌, ◌++◌, some, get_elem?, remove,
  length, arith,
}

-- A copy of the message for the second or the third node, or an ACK for the first.
pub data Tag : Type 0 where
  to_b to_c reply : Tag

-- The sum of a number over the tags.
unfoldable pub total : (Tag → ℕ) → List Tag → ℕ
total f [] = 0
total f (t ∷ ts) = f t + total f ts

abbrev pub one : Tag → ℕ
one t = 1

abbrev pub for_b : Tag → ℕ
for_b to_b = 1
for_b to_c = 0
for_b reply = 0

abbrev pub for_c : Tag → ℕ
for_c to_b = 0
for_c to_c = 1
for_c reply = 0

-- How many payloads are still to arrive on account of this one: a copy is answered.
abbrev pub to_come : Tag → ℕ
to_come to_b = 2
to_come to_c = 2
to_come reply = 1

pub total-append :
    (f : Tag → ℕ) (ts : List Tag) (t : Tag) → total f (ts ++ t ∷ []) ≡ f t + total f ts
unfolding total
total-append f [] t = refl
total-append f (u ∷ ts) t = omega (arith, total-append f ts t)

module _ {A : Type 0} (Carries : Tag → A → Type 0) where
  -- The payloads in flight carry what the tags say.
  abbrev pub Carried : List Tag → List A → Type 0
  Carried [] [] = Unit
  Carried [] (o ∷ os) = ⊥
  Carried (t ∷ ts) [] = ⊥
  Carried (t ∷ ts) (o ∷ os) = Carries t o × Carried ts os

  pub Carried-append :
      (ts : List Tag) (os : List A) (t : Tag) (o : A)
      → Carried ts os
      → Carries t o
      → Carried (ts ++ t ∷ []) (os ++ o ∷ [])
  Carried-append [] [] t o h k = (k, tt)
  Carried-append [] (p ∷ os) t o h k = absurd h
  Carried-append (u ∷ ts) [] t o h k = absurd h
  Carried-append (u ∷ ts) (p ∷ os) t o h k = (h.0, Carried-append ts os t o h.1 k)

  -- One payload is taken out.
  pub record Taken (ts : List Tag) (os : List A) (k : ℕ) : Type 0 where
    pub payload : A
    pub tag : Tag
    pub found : get_elem? os k ≡ some payload
    pub carries : Carries tag payload
    pub others : Carried (remove k ts) (remove k os)
    pub sum : (f : Tag → ℕ) → total f ts ≡ f tag + total f (remove k ts)

  pub Carried-take :
      (ts : List Tag) (os : List A) (k : ℕ) → Carried ts os → k < length os → Taken ts os k
  unfolding total
  Carried-take [] [] k h lt = absurd (omega arith)
  Carried-take [] (o ∷ os) k h lt = absurd h
  Carried-take (t ∷ ts) [] k h lt = absurd h
  Carried-take (t ∷ ts) (o ∷ os) zero h lt = record {
    payload = o;
    tag = t;
    found = refl;
    carries = h.0;
    others = h.1;
    sum = λ f. refl;
  }
  Carried-take (t ∷ ts) (o ∷ os) (suc k) h lt =
      let rest = Carried-take ts os k h.1 (omega arith) in
      record {
        payload = rest.payload;
        tag = rest.tag;
        found = rest.found;
        carries = rest.carries;
        others = (h.0, rest.others);
        sum = λ f. omega (arith, rest.sum f);
      }

  -- Nothing is in flight, or something is.
  pub in_flight :
      (ts : List Tag) (os : List A) → Carried ts os → ((ts ≡ []) × (os ≡ [])) ⊎ (0 < length os)
  in_flight [] [] h = inl (refl, refl)
  in_flight [] (o ∷ os) h = absurd h
  in_flight (t ∷ ts) [] h = absurd h
  in_flight (t ∷ ts) (o ∷ os) h = inr (omega arith)
