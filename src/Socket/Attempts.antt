-- ===== src/Socket/Attempts.antt =====
-- The calls of the system that `GenericSocket::send` of src/utils/socket.rs comes to make.
use dtchat.Prelude.{
  ◌≡◌, refl, sym, subst, ap, ◌⊎◌, inl, inr, Bool, Bool-cases, true, false, List, [], ◌∷◌, ◌++◌, All,
}
use dtchat.Socket.{SysCall, attempt}

-- The calls up to the first one that is refused.
pub record StopsAt (works : SysCall → Bool) (calls made : List SysCall) : Type 0 where
  pub before : List SysCall
  pub refused : SysCall
  pub behind : List SysCall
  pub split : calls ≡ before ++ refused ∷ behind
  pub granted : All (λ c. works c ≡ true) before
  pub fails : works refused ≡ false
  pub result : made ≡ before ++ refused ∷ []

-- All calls were granted and made, or they stop at the first refusal.
abbrev pub Attempted : (SysCall → Bool) → List SysCall → List SysCall × Bool → Type 0
Attempted works calls r =
    ((r.1 ≡ true) × (r.0 ≡ calls) × All (λ c. works c ≡ true) calls)
    ⊎ ((r.1 ≡ false) × StopsAt works calls r.0)

Attempted-cons :
    (works : SysCall → Bool) (c : SysCall) (cs : List SysCall) (r : List SysCall × Bool)
    → works c ≡ true
    → Attempted works cs r
    → Attempted works (c ∷ cs) (c ∷ r.0, r.1)
Attempted-cons works c cs r h (inl (done, all, granted)) = inl (done, ap (◌∷◌ c) all, (h, granted))
Attempted-cons works c cs r h (inr (lost, s)) = inr (
  lost,
  record {
    before = c ∷ s.before;
    refused = s.refused;
    behind = s.behind;
    split = ap (◌∷◌ c) s.split;
    granted = (h, s.granted);
    fails = s.fails;
    result = ap (◌∷◌ c) s.result;
  },
)

pub attempt-Attempted :
    (works : SysCall → Bool) (cs : List SysCall) → Attempted works cs (attempt works cs)
unfolding attempt
attempt-Attempted works [] = inl (refl, refl, tt)
attempt-Attempted works (c ∷ cs) = elim (Bool-cases (works c)) [
  | inl grants ↦
      let (made, done) = attempt works cs in
      let e : attempt works (c ∷ cs) ≡ (c ∷ made, done) = rw grants refl in
      subst (Attempted works (c ∷ cs)) (sym e)
        (Attempted-cons works c cs (attempt works cs) grants (attempt-Attempted works cs))
  | inr refuses ↦
      let e : attempt works (c ∷ cs) ≡ (c ∷ [], false) = rw refuses refl in
      subst (Attempted works (c ∷ cs)) (sym e) (
        inr (
          refl,
          record {
            before = [];
            refused = c;
            behind = cs;
            split = refl;
            granted = tt;
            fails = refuses;
            result = refl;
          },
        ))
]
