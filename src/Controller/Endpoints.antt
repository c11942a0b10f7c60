-- ===== src/Controller/Endpoints.antt =====
-- Which endpoint `choose_ack_endpoint` of src/utils/socket.rs takes.
use Prim.Native.String.{String}
use mathlib.Core.List.{Mem, mem-singleton}
use mathlib.Core.HLevel.{hedberg}
use mathlib.Core.Bool.{and-eq-true_iff}
use dtchat.Prelude.{
  ℕ, ◌≤◌, ◌≡◌, ◌↔◌, ◌⊎◌, inl, inr, Bool, true, false, ◌&&◌, List, [], ◌∷◌, ap, subst, sym, ◌∙◌,
  Bool-cases, ◌==◌, Option, none, some, All, All-imp, All-both, All-of_forall, find, find-eq-some,
  find-eq-none, find-none_of_All, Option-cases, arith,
}
use dtchat.Endpoint.{Endpoint, udp, tcp, bp, is_valid, Endpoint_eq, same_endpoint_iff}
use dtchat.Config.{Peer}
use dtchat.Controller.{same_family, kind_wanted, by_kind, by_preference, choose_ack_endpoint}

-- BP before TCP before UDP.
abbrev pub rank : Endpoint → ℕ
rank (bp a) = 0
rank (tcp a) = 1
rank (udp a) = 2

-- No endpoint is of the family that the message came by.
abbrev pub NoFamily : Option Endpoint → List Endpoint → Type 0
NoFamily none eps = Unit
NoFamily (some received) eps = All (λ ep. same_family received ep ≡ false) eps

abbrev pub IsFamily : Option Endpoint → Endpoint → Type 0
IsFamily none ep = ⊥
IsFamily (some received) ep = same_family received ep ≡ true

Endpoint-discrete : Discrete Endpoint
Endpoint-discrete e e' = elim (Bool-cases (e == e')) [
  | inl same ↦ yes ((same_endpoint_iff e e').0 same)
  | inr other ↦ no (λ q. cc (sym other ∙ (same_endpoint_iff e e').1 q))
]

module _ (is_addr : String → Bool) where
  -- A valid endpoint of the peer that no valid one outranks.
  pub record IsBest (eps : List Endpoint) (ep : Endpoint) : Type 0 where
    pub listed : Mem ep eps
    pub valid : is_valid is_addr ep ≡ true
    pub best : All (λ other. is_valid is_addr other ≡ true → rank ep ≤ rank other) eps

  kind_rank :
      (ep : Endpoint)
      → ((kind_wanted true false ep ≡ true) ↔ (rank ep ≡ 0))
        × ((kind_wanted false true ep ≡ true) ↔ (rank ep ≡ 1))
        × ((kind_wanted false false ep ≡ true) ↔ (rank ep ≡ 2))
  kind_rank (bp a) = ground arith
  kind_rank (tcp a) = ground arith
  kind_rank (udp a) = ground arith

  rank-le : (ep : Endpoint) → rank ep ≤ 2
  rank-le (bp a) = omega arith
  rank-le (tcp a) = omega arith
  rank-le (udp a) = omega arith

  -- What a search of one kind tells.
  NoKind : Bool → Bool → List Endpoint → Type 0
  NoKind b t eps = All (λ ep. (is_valid is_addr ep && kind_wanted b t ep) ≡ false) eps

  by_kind-none :
      (b t : Bool) (eps : List Endpoint) → by_kind is_addr b t eps ≡ none → NoKind b t eps
  unfolding by_kind NoKind
  by_kind-none b t eps e = find-eq-none _ eps e

  by_kind-some :
      (b t : Bool) (eps : List Endpoint) (ep : Endpoint)
      → by_kind is_addr b t eps ≡ some ep
      → Mem ep eps × (is_valid is_addr ep ≡ true) × (kind_wanted b t ep ≡ true)
  unfolding by_kind
  by_kind-some b t eps ep e =
      let (m, q) = find-eq-some (λ ep. is_valid is_addr ep && kind_wanted b t ep) eps ep e in
      let (v, k) = (and-eq-true_iff _ _).0 q in (m, v, k)

  by_kind-cases :
      (b t : Bool) (eps : List Endpoint)
      → ((by_kind is_addr b t eps ≡ none) × NoKind b t eps)
        ⊎ ((ep : Endpoint) × (by_kind is_addr b t eps ≡ some ep)
            × Mem ep eps
            × (is_valid is_addr ep ≡ true)
            × (kind_wanted b t ep ≡ true))
  by_kind-cases b t eps = elim (Option-cases (by_kind is_addr b t eps)) [
    | inl e ↦ inl (e, by_kind-none b t eps e)
    | inr (ep, e) ↦ let (m, v, k) = by_kind-some b t eps ep e in inr (ep, e, m, v, k)
  ]

  module _ (eps : List Endpoint) where
    -- A bound on the rank of all valid endpoints, from the searches that failed.
    not_bp : NoKind true false eps → All (λ o. is_valid is_addr o ≡ true → 1 ≤ rank o) eps
    unfolding NoKind
    not_bp n = All-imp (λ o f v. ground (arith, kind_rank o)) eps n

    not_tcp :
        NoKind true false eps
        → NoKind false true eps
        → All (λ o. is_valid is_addr o ≡ true → 2 ≤ rank o) eps
    unfolding NoKind
    not_tcp n m = All-imp (λ o f v. ground (arith, kind_rank o)) eps (All-both _ _ eps n m)

    none_valid :
        NoKind true false eps
        → NoKind false true eps
        → NoKind false false eps
        → All (λ o. is_valid is_addr o ≡ false) eps
    unfolding NoKind
    none_valid n m k =
        All-imp (λ o f. ground (arith, kind_rank o, rank-le o)) eps
          (All-both _ _ eps n (All-both _ _ eps m k))

    -- The search by preference finds a best endpoint, or there is no valid one.
    by_preference-IsBest :
        ((by_preference is_addr eps ≡ none) × All (λ o. is_valid is_addr o ≡ false) eps)
        ⊎ ((ep : Endpoint) × (by_preference is_addr eps ≡ some ep) × IsBest eps ep)
    unfolding by_preference
    by_preference-IsBest = elim (by_kind-cases true false eps) [
      | inr (ep, e, m, v, k) ↦ inr (
        ep,
        rw e,
        record {
          listed = m;
          valid = v;
          best = All-of_forall _ (λ o h. omega (arith, (kind_rank ep).0.0 k)) eps;
        },
      )
      | inl (e, n) ↦ elim (by_kind-cases false true eps) [
        | inr (ep, e', m, v, k) ↦ inr (
          ep,
          rw (e, e'),
          record {
            listed = m;
            valid = v;
            best = All-imp (λ o h u. omega (arith, h u, (kind_rank ep).1.0 k)) eps (not_bp n);
          },
        )
        | inl (e', n') ↦ elim (by_kind-cases false false eps) [
          | inr (ep, e'', m, v, k) ↦ inr (
            ep,
            rw (e, e', e''),
            record {
              listed = m;
              valid = v;
              best = All-imp (λ o h u. omega (arith, h u, (kind_rank ep).2.0 k)) eps (not_tcp n n');
            },
          )
          | inl (e'', n'') ↦
              let invalid = none_valid n n' n'' in
              inl (rw (e, e', e'') (find-none_of_All (is_valid is_addr) eps invalid), invalid)
        ]
      ]
    ]

  -- What `choose_ack_endpoint` returns for a peer with the endpoints `eps`.
  pub data Chooses (eps : List Endpoint) (on : Option Endpoint) : Option Endpoint → Type 0 where
    by_family : (ep : Endpoint) → Mem ep eps → IsFamily on ep → Chooses eps on (some ep)
    by_rank : (ep : Endpoint) → NoFamily on eps → IsBest eps ep → Chooses eps on (some ep)
    nothing : NoFamily on eps → All (λ ep. is_valid is_addr ep ≡ false) eps → Chooses eps on none

  by_preference-Chooses :
      (eps : List Endpoint) (on : Option Endpoint)
      → NoFamily on eps
      → Chooses eps on (by_preference is_addr eps)
  by_preference-Chooses eps on n = elim (by_preference-IsBest eps) [
    | inl (e, invalid) ↦ rw e (nothing n invalid)
    | inr (ep, e, best) ↦ rw e (by_rank ep n best)
  ]

  -- An ACK goes back by the family of transport that the message came by, if the peer has an
  -- endpoint of it; otherwise by a valid endpoint that no other valid one outranks, BP before TCP
  -- before UDP; and by none exactly when the peer has neither.
  pub choose_ack_endpoint-Chooses :
      (sender : Peer) (on : Option Endpoint)
      → Chooses sender.endpoints on (choose_ack_endpoint is_addr sender on)
  unfolding choose_ack_endpoint
  choose_ack_endpoint-Chooses sender none = by_preference-Chooses sender.endpoints none tt
  choose_ack_endpoint-Chooses sender (some received) =
      elim (Option-cases (find (same_family received) sender.endpoints)) [
        | inl e ↦ rw e (
            by_preference-Chooses sender.endpoints (some received)
              (find-eq-none (same_family received) sender.endpoints e))
        | inr (ep, e) ↦
            let (m, q) = find-eq-some (same_family received) sender.endpoints ep e in
            rw e (by_family ep m q)
      ]

  chosen-one :
      {e : Endpoint} {eps : List Endpoint} {on : Option Endpoint} (r : Option Endpoint)
      → Chooses eps on r
      → eps ≡ e ∷ []
      → is_valid is_addr e ≡ true
      → r ≡ some e
  chosen-one _ (by_family ep m f) one valid =
      ap some ((mem-singleton (hedberg Endpoint-discrete)).0 (subst (Mem ep) one m))
  chosen-one _ (by_rank ep n best) one valid =
      ap some ((mem-singleton (hedberg Endpoint-discrete)).0 (subst (Mem ep) one best.listed))
  chosen-one {e} _ (nothing n invalid) one valid =
      absurd (ground (arith, subst (All (λ ep. is_valid is_addr ep ≡ false)) one invalid))

  -- The only endpoint of a peer is chosen, if it is valid.
  pub choose_ack_endpoint-one :
      (sender : Peer) (e : Endpoint) (on : Option Endpoint)
      → sender.endpoints ≡ e ∷ []
      → is_valid is_addr e ≡ true
      → choose_ack_endpoint is_addr sender on ≡ some e
  choose_ack_endpoint-one sender e on one valid =
      chosen-one (choose_ack_endpoint is_addr sender on) (choose_ack_endpoint-Chooses sender on) one
        valid
