-- ===== src/Network/Listed.antt =====
-- What the nodes of a network hold in their lists, along its steps (src/app.rs,
-- src/layout/rooms/message_prompt.rs and src/utils/socket.rs).
use Prim.Native.String.{String}
use mathlib.Core.List.{append_assoc, Perm, perm_append_comm}
use mathlib.Core.List.Perm
use dtchat.Prelude.{
  ℕ, ◌≡◌, refl, sym, subst, ap, inl, inr, Bool-cases, List, [], ◌∷◌, ◌++◌, ℕ_eq, ◌==◌, nat_eq_iff,
}
use dtchat.Time.{Instant}
use dtchat.Message.{ChatMessage}
use dtchat.Model.{World, inserted}
use dtchat.Model.Sorted.{InOrder, inserted-InOrder, inserted-perm}
use dtchat.Model.Runs.{
  Call, adds, sorts, acks, observes, notifies, run, IsOrdered, run-IsOrdered, uuids, added,
  run-perm,
}
use dtchat.Controller.{SocketController, Env}
use dtchat.Prompt.{Predict, SendTask}
use dtchat.Prompt.Sends.{IsSent}
use dtchat.Network.{Network, Step, posts, arrives, is_answered, Reaches, start, next}
use dtchat.Network.Sound.{IsSent-of_some}
use dtchat.Network.Heard.{read, calls_at, calls_along, payload-run}

added-append : {T : Type 0} (cs es : List (Call T)) → added (cs ++ es) ≡ added cs ++ added es
added-append [] es = refl
added-append (adds m direction ∷ cs) es = ap (λ us. m.uuid ∷ us) (added-append cs es)
added-append (sorts s ∷ cs) es = added-append cs es
added-append (acks u a r t ∷ cs) es = added-append cs es
added-append (observes o ∷ cs) es = added-append cs es
added-append (notifies e ∷ cs) es = added-append cs es

-- A list in order that holds, by uuid, these messages, each once.
pub record Lists {T P : Type 0} ⦃i : Instant T⦄ (us : List String) (w : World T P) : Type 0 where
  pub ordered : IsOrdered w
  pub listed : Perm (uuids w.model.messages) us

module _ {T P : Type 0} ⦃i : Instant T⦄ where
  run-Lists :
      (cs : List (Call T)) (us : List String) (w : World T P)
      → Lists us w
      → Lists (added cs ++ us) (run cs w)
  run-Lists cs us w h = record {
    ordered = run-IsOrdered cs w h.ordered;
    listed = Perm.trans (run-perm cs w) (Perm.append_left (added cs) h.listed);
  }

-- What is added later comes first.
regroup :
    {T : Type 0} (before at : List (Call T)) (us : List String)
    → Perm (added at ++ (added before ++ us)) (added (before ++ at) ++ us)
regroup before at us =
    rw (added-append before at, ← append_assoc)
      (Perm.append_right us (perm_append_comm (added at) (added before)))

module _ {T P : Type 0} ⦃i : Instant T⦄ (env : Env) (controllers : ℕ → SocketController)
    (predict : Predict T P) (n : ℕ) where
  sent-Lists :
      (m : ChatMessage T) (v w : World T P) (tasks : List (SendTask T)) (us : List String)
      → IsSent env.net m v w tasks
      → Lists us v
      → Lists (m.uuid ∷ us) w
  unfolding inserted
  sent-Lists m v w tasks us z h = record {
    ordered =
        subst (λ ms. InOrder w.model.sort_strategy ms) (sym z.messages)
          (rw z.strategy (inserted-InOrder v.model.sort_strategy _ v.model.messages h.ordered));
    listed =
        subst (λ ms. Perm (uuids ms) (m.uuid ∷ us)) (sym z.messages)
          (Perm.trans
            (Perm.map (λ x. x.uuid) (inserted-perm v.model.sort_strategy _ v.model.messages))
            (Perm.cons m.uuid h.listed));
  }

  module _ (own : (k : ℕ) → (controllers k).observers ≡ k ∷ []) where
    step-Lists :
        (s s' : Network T P) (step : Step env controllers predict s s') (us : List String)
        → Lists us (s.models n)
        → Lists (added (calls_at env controllers predict n s s' step) ++ us) (s'.models n)
    unfolding calls_at
    step-Lists s s' (posts k m pbat w tasks e) us h = elim (Bool-cases (n == k)) [
      | inl mine ↦
          let same : n ≡ k = (nat_eq_iff n k).0 mine in
          rw mine (
            sent-Lists m (s.models k) w tasks us
              (IsSent-of_some env controllers predict m (s.models k) w tasks pbat e)
              (subst (λ j. Lists us (s.models j)) same h))
      | inr other ↦ rw other h
    ]
    step-Lists s s' (arrives k d on j p rest found stops e) us h =
        subst (Lists _) (sym (payload-run env controllers predict n own s k d on p rest))
          (run-Lists (read env controllers predict n k d p rest) us (s.models n) h)
    step-Lists s s' (is_answered k d on j p rest o found stops e) us h =
        subst (Lists _) (sym (payload-run env controllers predict n own s k d on p rest))
          (run-Lists (read env controllers predict n k d p rest) us (s.models n) h)

    pub Reaches-Lists :
        (s s' : Network T P) (r : Reaches env controllers predict s s') (us : List String)
        → Lists us (s.models n)
        → Lists (added (calls_along env controllers predict n s s' r) ++ us) (s'.models n)
    unfolding calls_along
    Reaches-Lists s s' start us h = h
    Reaches-Lists s s' (next t u r step) us h =
        let before = calls_along env controllers predict n s t r in
        let at = calls_at env controllers predict n t u step in
        let h' = step-Lists t u step _ (Reaches-Lists s t r us h) in
        record { ordered = h'.ordered; listed = Perm.trans h'.listed (regroup before at us) }
