-- ===== src/Prediction/Names.antt =====
-- The nodes that a contact plan names, and the last element of a list (src/utils/prediction_config.rs).
use Prim.Native.String.{String}
use dtchat.Prelude.{
  ℕ, ◌≡◌, refl, ap, ◌⊎◌, inl, inr, List, [], ◌∷◌, ◌++◌, Option, none, some, All, String_eq, ◌==◌,
  Bool-cases, Option-cases, if◌then◌else◌, subst,
}
use dtchat.Prediction.{Vertex, i_node, e_node, v_node, last, last_value, map_node_indices}

-- A vertex of the contact plan is the node of that name and number.
abbrev pub IsNode : Vertex → String → ℕ → Type 0
IsNode (i_node n k) name id = (n ≡ name) × (k ≡ id)
IsNode (e_node n k) name id = (n ≡ name) × (k ≡ id)
IsNode v_node name id = ⊥

-- No vertex has the name.
abbrev pub IsUnknown : String → List Vertex → Type 0
IsUnknown name vs = All (λ v. (id : ℕ) → ¬ IsNode v name id) vs

-- The last vertex of that name has the number.
abbrev pub IsKnown : String → ℕ → List Vertex → Type 0
IsKnown name id [] = ⊥
IsKnown name id (v ∷ vs) = IsKnown name id vs ⊎ (IsNode v name id × IsUnknown name vs)

-- What the map of the plan says of a name.
abbrev pub Says : String → List Vertex → Option ℕ → Type 0
Says name vs none = IsUnknown name vs
Says name vs (some id) = IsKnown name id vs

-- A node in front of the others counts if its name is the one looked for and no later one is.
Says-node :
    (name n : String) (k : ℕ) (vs : List Vertex) (later : Option ℕ)
    → Says name vs later
    → let found : Option ℕ = elim later [
      | some id ↦ some id
      | none ↦ if n == name then some k else none
    ] in
      Says name (i_node n k ∷ vs) found × Says name (e_node n k ∷ vs) found
Says-node name n k vs (some id) says = (inl says, inl says)
Says-node name n k vs none says = elim (Bool-cases (n == name)) [
  | inl same ↦
      let named = (String_eq.eq_iff n name).0 same in
      rw same (inr ((named, refl), says), inr ((named, refl), says))
  | inr other ↦
      let unnamed : (id : ℕ) → ¬ ((n ≡ name) × (k ≡ id)) =
        λ id h. let same = (String_eq.eq_iff n name).1 h.0 in cc in
      rw other ((unnamed, says), (unnamed, says))
]

pub last_value-Says :
    (name : String) (vs : List Vertex) → Says name vs (last_value name (map_node_indices vs))
unfolding last_value map_node_indices
last_value-Says name [] = tt
last_value-Says name (i_node n k ∷ vs) = (Says-node name n k vs _ (last_value-Says name vs)).0
last_value-Says name (e_node n k ∷ vs) = (Says-node name n k vs _ (last_value-Says name vs)).1
last_value-Says name (v_node ∷ vs) = elim (Option-cases (last_value name (map_node_indices vs))) [
  | inl e ↦ rw e ((λ id h. h), subst (Says name vs) e (last_value-Says name vs))
  | inr (id, e) ↦ rw e (inl (subst (Says name vs) e (last_value-Says name vs)))
]

-- The list ends in the element.
abbrev pub EndsIn {ℓ} : {A : Type ℓ} → List A → A → Type ℓ
EndsIn {A = A} xs x = (front : List A) × (xs ≡ front ++ x ∷ [])

pub last-EndsIn {ℓ} :
    {A : Type ℓ} (x : A) (xs : List A) → (y : A) × (last (x ∷ xs) ≡ some y) × EndsIn (x ∷ xs) y
last-EndsIn x [] = (x, refl, ([], refl))
last-EndsIn x (z ∷ zs) =
    let (y, is, (front, e)) = last-EndsIn z zs in (y, is, (x ∷ front, ap (◌∷◌ x) e))
