-- ===== src/Network/Sound.antt =====
-- What the marks in the nodes' lists stand for, along the steps of the network (src/app.rs and
-- src/utils/socket.rs).
use Prim.Native.String.{String}
use mathlib.Core.List.{Mem, mem-cons_of_mem}
use mathlib.Core.List.Perm
use mathlib.Core.Option
use dtchat.Prelude.{
  All-right, ℕ, ◌≡◌, sym, subst, ◌∙◌, inl, inr, Bool, Bool-cases, List, [], ◌∷◌, ◌++◌, some, map,
  ℕ_eq, ◌==◌, nat_eq_iff, All, arith,
}
use dtchat.Time.{Instant}
use dtchat.Message.{ChatMessage}
use dtchat.Slice.Sort.{All-insert}
use dtchat.Proto.{ProtoMessage, construct_proto_message}
use dtchat.Model.{World, inserted}
use dtchat.Model.Sorted.{inserted-perm}
use dtchat.Model.Runs.{uuids}
use dtchat.Model.Justified.{Justified}
use dtchat.Controller.{model_observer, SocketController, Env, Models}
use dtchat.Controller.Handling.{handle_payload-IsAnswer}
use dtchat.Prompt.{Predict, SendTask, manage_send}
use dtchat.Prompt.Sends.{IsSent, manage_send-IsSent}
use dtchat.Network.{
  Network, set_model, payload_of, Step, posts, arrives, is_answered, Reaches, start, next,
}
use dtchat.Network.Grows.{Has, Grows, Justified-imp, Addressed-Justified}
use dtchat.Network.Truth.{
  IsTrue, Speaks, Works, Speaks-Grows, marks-Grows, arrived, arrived-Grows, arrived-marks,
  answered-Speaks,
}

module _ {T P : Type 0} ⦃i : Instant T⦄ (env : Env) (controllers : ℕ → SocketController)
    (predict : Predict T P) where
  posted-Speaks :
      (models : Models T P) (tasks : List (SendTask T)) (ps : List ProtoMessage)
      → All (Speaks controllers models) ps
      → All (Speaks controllers models) (map (λ t. construct_proto_message t.message) tasks ++ ps)
  unfolding construct_proto_message
  posted-Speaks models [] ps h = h
  posted-Speaks models (t ∷ ts) ps h =
      ((λ x e. absurd (ground arith)), posted-Speaks models ts ps h)

  module _ (s : Network T P) (n : ℕ) (m : ChatMessage T) (w : World T P) (tasks : List (SendTask T))
      (z : IsSent env.net m (s.models n) w tasks) where
    posted-Grows : Grows controllers s.models (set_model n w s.models)
    posted-Grows j u h = elim (Bool-cases (j == n)) [
      | inr other ↦ rw other h
      | inl mine ↦
          let same : j ≡ n = (nat_eq_iff j n).0 mine in
          rw mine (
            subst (λ ms. Mem u (uuids ms)) (sym z.messages)
              ((Perm.mem_iff (
                  Perm.map (λ x. x.uuid)
                    (inserted-perm (s.models n).model.sort_strategy _
                      (s.models n).model.messages))).1
                (mem-cons_of_mem _ (rw (← same) h))))
    ]

    posted-marks :
        (J : String → String → T → Type 0)
        → ((j : ℕ) → All (Justified J) (s.models j).model.messages)
        → (j : ℕ) → All (Justified J) (set_model n w s.models j).model.messages
    unfolding inserted
    posted-marks J h j = elim (Bool-cases (j == n)) [
      | inr other ↦ rw other (h j)
      | inl mine ↦ rw mine (
          subst (All (Justified J)) (sym z.messages) (
            All-insert (Justified J) _ _ (s.models n).model.messages
              (Addressed-Justified J m.uuid z.addressed) (h n)))
    ]

  -- What `manage_send` gave is a send.
  pub IsSent-of_some :
      (m : ChatMessage T) (v w : World T P) (tasks : List (SendTask T)) (pbat : Bool)
      → manage_send env.net predict m pbat v ≡ some (w, tasks)
      → IsSent env.net m v w tasks
  IsSent-of_some m v w tasks pbat e =
      let (w', tasks', e', z) = manage_send-IsSent env.net m v predict pbat in
      let same : (w', tasks') ≡ (w, tasks) =
        Option.some-injective (w', tasks') (w, tasks) (sym e' ∙ e) in
      subst (λ x. IsSent env.net m v x.0 x.1) same z

  module _ (own : (n : ℕ) → (controllers n).observers ≡ n ∷ []) where
    Step-IsTrue :
        (s s' : Network T P)
        → Step env controllers predict s s'
        → All (Works env.codec) s.wire
        → IsTrue controllers s
        → IsTrue controllers s'
    Step-IsTrue s s' (posts n m pbat w tasks e) works h =
        let z = IsSent-of_some m (s.models n) w tasks pbat e in
        let g = posted-Grows s n m w tasks z in
        let after = set_model n w s.models in
        record {
          marks = λ j.
              marks-Grows controllers s.models after _ g
                (posted-marks s n m w tasks z (λ u a t. Has controllers s.models a u) h.marks j);
          speaks =
              posted-Speaks after tasks s.wire
                (Speaks-Grows controllers s.models after s.wire g h.speaks);
        }
    Step-IsTrue s s' (arrives n d on k p rest found stops e) works h =
        let after = arrived env controllers own s h n d on k p rest found stops works in
        let g = arrived-Grows env controllers own s h n d on k p rest found stops works in
        record {
          marks = arrived-marks env controllers own s h n d on k p rest found stops works;
          speaks = Speaks-Grows controllers s.models after s.wire g h.speaks;
        }
    Step-IsTrue s s' (is_answered n d on k p rest o found stops e) works h =
        let after = arrived env controllers own s h n d on k p rest found stops works in
        let g = arrived-Grows env controllers own s h n d on k p rest found stops works in
        record {
          marks = arrived-marks env controllers own s h n d on k p rest found stops works;
          speaks = (
            answered-Speaks env controllers own s h n d on k p rest found stops works o (
                handle_payload-IsAnswer env d (controllers n) on (payload_of env.codec p rest)
                  s.models o e),
            Speaks-Grows controllers s.models after s.wire g h.speaks,
          );
        }

    -- What was put on the wire before is on it afterwards.
    Works-before :
        (s s' : Network T P)
        → Step env controllers predict s s'
        → All (Works env.codec) s'.wire
        → All (Works env.codec) s.wire
    Works-before s s' (posts n m pbat w tasks e) h = All-right (Works env.codec) _ s.wire h
    Works-before s s' (arrives n d on k p rest found stops e) h = h
    Works-before s s' (is_answered n d on k p rest o found stops e) h = h.1

    pub Reaches-IsTrue :
        (s s' : Network T P)
        → Reaches env controllers predict s s'
        → All (Works env.codec) s'.wire
        → IsTrue controllers s
        → IsTrue controllers s'
    Reaches-IsTrue s s' start works h = h
    Reaches-IsTrue s s' (next t u r step) works h =
        let before = Works-before t s' step works in
        Step-IsTrue t s' step before (Reaches-IsTrue s t r before h)

    -- Marks are true: if nothing is marked or on its way at the start, then whatever is sent, lost,
    -- delivered late, twice or to the wrong node, a delivery is marked in some node's list only if a
    -- node with the uuid of that peer has a message with the uuid of that message. Each node has one
    -- model, and the crates work for each message that was put on the wire.
    pub Reaches-Justified :
        (s s' : Network T P)
        → ((j : ℕ) → All (Justified (λ u a t. ⊥)) (s.models j).model.messages)
        → s.wire ≡ []
        → Reaches env controllers predict s s'
        → All (Works env.codec) s'.wire
        → (n : ℕ)
        → All (Justified (λ u a t. Has controllers s'.models a u)) (s'.models n).model.messages
    Reaches-Justified s s' unmarked quiet r works n =
        (Reaches-IsTrue s s' r works (record {
          marks =
              λ j. Justified-imp _ _ (λ u a t f. absurd f) (s.models j).model.messages (unmarked j);
          speaks = rw quiet tt;
        })).marks
          n
