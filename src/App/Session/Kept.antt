-- ===== src/App/Session/Kept.antt =====
-- What holds through a session of src/layout/ui.rs, src/app.rs and message_prompt.rs.
use mathlib.Core.List.{Perm, perm_middle, perm_append_comm, append_assoc, map-append}
use mathlib.Core.List.Perm
use dtchat.Prelude.{
  ℕ, ◌≤◌, All, zero, suc, ◌%◌, ◌≡◌, refl, sym, ap, subst, ◌∙◌, Bool, List, [], ◌∷◌, ◌++◌, Option,
  none, some, get_elem?, remove, length, map, arith,
}
use dtchat.Time.{Instant}
use dtchat.Config.{Room}
use dtchat.Message.{ChatMessage}
use dtchat.Socket.{Net}
use dtchat.Model.{World, on_ack_received}
use dtchat.Model.Order.{SortStrategy}
use dtchat.Model.Sorted.{InOrder, inserted-InOrder, inserted-perm}
use dtchat.Model.Runs.{
  Call, adds, acks, sorts, observes, notifies, step, run, IsOrdered, run-IsOrdered, uuids, added,
  run-perm,
}
use dtchat.Prompt.{Predict, SendTask}
use dtchat.Prompt.Sends.{IsSent, manage_send-IsSent}
use dtchat.App.{Input}
use dtchat.App.Sorts.{display-Drawn}
use dtchat.App.Session.{
  Happening, IsWide, draws, calls, sends, Sitting, to_list, uuids_of, all_uuids, run_spawned,
  happen, session, news, said,
}

remove-perm {ℓ} :
    {A : Type ℓ} (xs : List A) (k : ℕ) (x : A) → get_elem? xs k ≡ some x → Perm xs (x ∷ remove k xs)
remove-perm [] k x e = cc
remove-perm (y ∷ ys) zero x e = let same : y ≡ x = ground arith in rw same Perm.rfl
remove-perm (y ∷ ys) (suc k) x e = Perm.trans (Perm.cons y (remove-perm ys k x e)) (Perm.swap _ _ _)

added-sorts : (T : Type 0) (ss : List SortStrategy) → added {T = T} (map sorts ss) ≡ []
added-sorts T [] = refl
added-sorts T (s ∷ ss) = added-sorts T ss

module _ {T P : Type 0} ⦃i : Instant T⦄ where
  step-rooms : (c : Call T) (w : World T P) → (step c w).model.rooms ≡ w.model.rooms
  unfolding step on_ack_received
  step-rooms (adds m direction) w = refl
  step-rooms (sorts s) w = refl
  step-rooms (acks u a r t) w = ground arith
  step-rooms (observes h) w = refl
  step-rooms (notifies e) w = refl

  run-rooms : (cs : List (Call T)) (w : World T P) → (run cs w).model.rooms ≡ w.model.rooms
  unfolding run
  run-rooms [] w = refl
  run-rooms (c ∷ cs) w = run-rooms cs (step c w) ∙ step-rooms c w

  -- The node has a room, and its messages are in the order of the strategy that is chosen.
  pub record Fits (w : World T P) : Type 0 where
    pub ordered : IsOrdered w
    pub room : Room
    pub others : List Room
    pub has_room : w.model.rooms ≡ room ∷ others

  Fits-run : (w : World T P) (cs : List (Call T)) → Fits w → Fits (run cs w)
  Fits-run w cs h = record {
    ordered = run-IsOrdered cs w h.ordered;
    room = h.room;
    others = h.others;
    has_room = run-rooms cs w ∙ h.has_room;
  }

  Fits-model : (w w' : World T P) → w'.model ≡ w.model → Fits w → Fits w'
  Fits-model w w' e h = record {
    ordered = subst (λ m. InOrder m.sort_strategy m.messages) (sym e) h.ordered;
    room = h.room;
    others = h.others;
    has_room = ap (λ m. m.rooms) e ∙ h.has_room;
  }

  Fits-IsSent :
      (net : Net) (m : ChatMessage T) (w w' : World T P) (tasks : List (SendTask T))
      → IsSent net m w w' tasks
      → Fits w
      → Fits w'
  Fits-IsSent net m w w' tasks z h = record {
    ordered =
        rw (z.strategy, z.messages)
          (inserted-InOrder w.model.sort_strategy _ w.model.messages h.ordered);
    room = h.room;
    others = h.others;
    has_room = z.rooms ∙ h.has_room;
  }

  module _ (net : Net) (predict : Predict T P) (millis : T → ℕ) where
    -- Something happens: no panic, all is in order, and nothing is lost or comes twice.
    abbrev Goes : Happening T → Sitting T P → Type 0
    Goes h s =
        (s' : Sitting T P) × (happen net predict millis h s ≡ some s')
        × Fits s'.world
        × Perm (all_uuids s') (news net predict millis h s ++ all_uuids s)

    draws-Goes :
        (input : Input T) (s : Sitting T P)
        → 400 ≤ input.width
        → Fits s.world
        → Goes (draws input) s
    unfolding happen news
    draws-Goes input s wide h =
        let (f, ss, e, k) =
          display-Drawn millis input s.world s.app h.room h.others wide h.has_room in
        let new = to_list f.spawned in
        let listed : Perm (uuids f.world.model.messages) (uuids s.world.model.messages) = rw k (
          subst
            (λ us.
              Perm (uuids (run (map sorts ss) s.world).model.messages)
                (us ++ uuids s.world.model.messages))
            (added-sorts T ss) (run-perm (map sorts ss) s.world)) in
        (
          record { world = f.world; app = f.app; spawned = s.spawned ++ new },
          rw (e, happen) refl,
          Fits-model (run (map sorts ss) s.world) f.world k (Fits-run s.world (map sorts ss) h),
          rw (e, news)
              (rw (map-append, ← append_assoc)
                (Perm.trans
                  (Perm.append_right (uuids_of new) (Perm.append_right (uuids_of s.spawned) listed))
                  (perm_append_comm (all_uuids s) (uuids_of new)))),
        )

    calls-Goes : (c : Call T) (s : Sitting T P) → Fits s.world → Goes (calls c) s
    unfolding happen news run
    calls-Goes c s h = (
      record s { world = step c s.world },
      refl,
      Fits-run s.world (c ∷ []) h,
      rw (← append_assoc) (Perm.append_right (uuids_of s.spawned) (run-perm (c ∷ []) s.world)),
    )

    run_spawned-Goes :
        (k : ℕ) (s : Sitting T P) (o : Option (ChatMessage T × Bool))
        → get_elem? s.spawned k ≡ o
        → Fits s.world
        → (s' : Sitting T P) × (run_spawned net predict millis k o s ≡ some s')
          × Fits s'.world
          × Perm (all_uuids s') (all_uuids s)
    unfolding run_spawned
    run_spawned-Goes k s none g h = (s, refl, h, Perm.rfl)
    run_spawned-Goes k s (some (m, pbat)) g h =
        let (w', tasks, e, z) = manage_send-IsSent net m s.world predict pbat in
        (
          record s { world = w'; spawned = remove k s.spawned },
          rw (e, run_spawned) refl,
          Fits-IsSent net m s.world w' tasks z h,
          rw (z.messages) (
              Perm.trans
                (Perm.append_right (uuids_of (remove k s.spawned)) (
                  Perm.map (λ x. x.uuid)
                    (inserted-perm s.world.model.sort_strategy _ s.world.model.messages)))
                (Perm.trans
                  (Perm.symm
                    (perm_middle (uuids s.world.model.messages) (uuids_of (remove k s.spawned))))
                  (Perm.append_left (uuids s.world.model.messages)
                    (Perm.symm (Perm.map (λ x. x.0.uuid) (remove-perm s.spawned k (m, pbat) g)))))),
        )

    sends-Goes : (k : ℕ) (s : Sitting T P) → Fits s.world → Goes (sends k) s
    unfolding happen news
    sends-Goes k s h =
        let place = k % length s.spawned in
        run_spawned-Goes place s (get_elem? s.spawned place) refl h

    happen-Goes : (x : Happening T) (s : Sitting T P) → IsWide x → Fits s.world → Goes x s
    happen-Goes (draws input) s wide h = draws-Goes input s wide h
    happen-Goes (calls c) s wide h = calls-Goes c s h
    happen-Goes (sends k) s wide h = sends-Goes k s h

    -- A session does not panic where predictions do not, and loses nothing: on a node with a room whose
    -- messages are in order, whatever frames at least 400 points wide are drawn, calls of the model made and tasks run, in any order, the messages stay
    -- in the order of the strategy that is then chosen, the node keeps a room, and the messages in the
    -- list and those about to be sent are, by uuid, those of before and those that were typed or added
    -- by a call, each as often.
    pub session-Fits :
        (hs : List (Happening T)) (s : Sitting T P)
        → All IsWide hs
        → Fits s.world
        → (s' : Sitting T P) × (session net predict millis hs s ≡ some s')
          × Fits s'.world
          × Perm (all_uuids s') (said net predict millis hs s ++ all_uuids s)
    unfolding session said
    session-Fits [] s wide h = (s, refl, h, Perm.rfl)
    session-Fits (x ∷ hs) s wide h =
        let (s1, e, h1, p1) = happen-Goes x s wide.0 h in
        let (s2, e', h2, p2) = session-Fits hs s1 wide.1 h1 in
        (
          s2,
          rw (e, session) e',
          h2,
          rw (e, said)
              (rw append_assoc
                (Perm.trans p2 (Perm.append_left (said net predict millis hs s1) p1))),
        )
