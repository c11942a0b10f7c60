-- ===== src/Network/Heard.antt =====
-- What a run of the network means at one node: the calls that its chat model takes
-- (src/utils/socket.rs, src/layout/rooms/message_prompt.rs and src/app.rs).
use Prim.Native.String.{String}
use dtchat.Prelude.{
  All-left, All-right, ℕ, ◌≡◌, refl, sym, ap, subst, ◌∙◌, inl, inr, Bool-cases, List, [], ◌∷◌, ◌++◌,
  Option, ℕ_eq, ◌==◌, if◌then◌else◌, String_eq, nat_eq_iff, All,
}
use dtchat.Time.{Instant}
use dtchat.Endpoint.{Endpoint}
use dtchat.Slice.Singles.{filter-insert}
use dtchat.Message.{ChatMessage, Delivery}
use dtchat.Message.Complete.{mark_each}
use dtchat.Proto.{ProtoMessage, deserialize_message}
use dtchat.Model.{MessageDirection, inserted}
use dtchat.Model.Events.{count}
use dtchat.Model.Runs.{Call, adds, run}
use dtchat.Controller.{model_observer, SocketController, Draws, Env, handle_payload}
use dtchat.Controller.Steps.{calls_of, repeat, run-append, handle_payload-run}
use dtchat.Prompt.{Predict}
use dtchat.Prompt.Answered.{
  with_uuid, IsOther, acks_for, other_uuid, Holds, run-Holds, mark_each-acks_for,
}
use dtchat.Network.{Network, payload_of, Step, posts, arrives, is_answered, Reaches, start, next}
use dtchat.Network.Sound.{IsSent-of_some}

mark_each-acks_for_append :
    {T : Type 0} (u : String) (cs es : List (Call T)) (ds : List (Delivery T))
    → mark_each (acks_for u es) (mark_each (acks_for u cs) ds)
      ≡ mark_each (acks_for u (cs ++ es)) ds
unfolding mark_each
mark_each-acks_for_append u [] es ds = refl
mark_each-acks_for_append u (c ∷ cs) es ds =
    ap (mark_each (acks_for u es)) (sym (mark_each-acks_for u c cs ds))
    ∙ mark_each-acks_for_append u cs es (mark_each (acks_for u (c ∷ [])) ds)
    ∙ mark_each-acks_for u c (cs ++ es) ds

module _ {T P : Type 0} ⦃i : Instant T⦄ (env : Env) (controllers : ℕ → SocketController)
    (predict : Predict T P) (n : ℕ) where
  -- The calls that a payload means at the node.
  abbrev pub read : ℕ → Draws T → ProtoMessage → List ℕ → List (Call T)
  read k d p rest =
      if n == k
      then calls_of (
          deserialize_message env.codec d.rx_time (payload_of env.codec p rest)
            (controllers k).peers)
      else []

  -- What a step means at the node: what its user sends, and what arrives there.
  unfoldable pub calls_at : (s s' : Network T P) → Step env controllers predict s s' → List (Call T)
  calls_at s s' (posts k m pbat w tasks e) =
      if n == k then adds m MessageDirection.sent ∷ [] else []
  calls_at s s' (arrives k d on j p rest found stops e) = read k d p rest
  calls_at s s' (is_answered k d on j p rest o found stops e) = read k d p rest

  unfoldable pub calls_along :
      (s s' : Network T P) → Reaches env controllers predict s s' → List (Call T)
  unfolding calls_at
  calls_along s s' start = []
  calls_along s s' (next t u r step) = calls_along s t r ++ calls_at t u step

  module _ (own : (k : ℕ) → (controllers k).observers ≡ k ∷ []) where
    -- The model of the node takes just the calls that the payload means there.
    pub payload-run :
        (s : Network T P) (k : ℕ) (d : Draws T) (on : Option Endpoint) (p : ProtoMessage)
        (rest : List ℕ)
        → (handle_payload env d (controllers k) on (payload_of env.codec p rest) s.models).1 n
          ≡ run (read k d p rest) (s.models n)
    unfolding run
    payload-run s k d on p rest =
        let cs = calls_of (
          deserialize_message env.codec d.rx_time (payload_of env.codec p rest)
            (controllers k).peers) in
        (handle_payload-run env d (controllers k) on (payload_of env.codec p rest) s.models n).0
        ∙ ap (λ os. run (repeat (count n os) cs) (s.models n)) (own k)
        ∙ elim (Bool-cases (n == k)) [
          | inl mine ↦ rw mine (run-append cs [] (s.models n))
          | inr other ↦ rw other refl
        ]

    module _ (m : ChatMessage T) (tx : T) where
      step-Holds :
          (s s' : Network T P) (step : Step env controllers predict s s') (ds : List (Delivery T))
          → All (IsOther m.uuid) (calls_at s s' step)
          → Holds m tx ds (s.models n)
          → Holds m tx (mark_each (acks_for m.uuid (calls_at s s' step)) ds) (s'.models n)
      unfolding calls_at inserted mark_each
      step-Holds s s' (posts k x pbat w tasks e) ds others h = elim (Bool-cases (n == k)) [
        | inl mine ↦
            let same : n ≡ k = (nat_eq_iff n k).0 mine in
            let z = IsSent-of_some env controllers predict x (s.models k) w tasks pbat e in
            let others' : All (IsOther m.uuid) (adds x MessageDirection.sent ∷ []) =
              rw mine at others in
            rw mine (
              ap (with_uuid m.uuid) z.messages
              ∙ filter-insert (λ y. y.uuid == m.uuid) _ _ (s.models k).model.messages
                  (other_uuid x.uuid m.uuid others'.0)
              ∙ subst (λ j. Holds m tx ds (s.models j)) same h)
        | inr other ↦ rw other h
      ]
      step-Holds s s' (arrives k d on j p rest found stops e) ds others h =
          subst (Holds m tx _) (sym (payload-run s k d on p rest))
            (run-Holds m tx (read k d p rest) (s.models n) ds others h)
      step-Holds s s' (is_answered k d on j p rest o found stops e) ds others h =
          subst (Holds m tx _) (sym (payload-run s k d on p rest))
            (run-Holds m tx (read k d p rest) (s.models n) ds others h)

      pub Reaches-Holds :
          (s s' : Network T P) (r : Reaches env controllers predict s s') (ds : List (Delivery T))
          → All (IsOther m.uuid) (calls_along s s' r)
          → Holds m tx ds (s.models n)
          → Holds m tx (mark_each (acks_for m.uuid (calls_along s s' r)) ds) (s'.models n)
      unfolding calls_along mark_each
      Reaches-Holds s s' start ds others h = h
      Reaches-Holds s s' (next t u r step) ds others h =
          let cs = calls_along s t r in
          subst (λ ds'. Holds m tx ds' (u.models n))
            (mark_each-acks_for_append m.uuid cs (calls_at t u step) ds)
            (step-Holds t u step _ (All-right (IsOther m.uuid) cs _ others)
              (Reaches-Holds s t r ds (All-left (IsOther m.uuid) cs _ others) h))
