-- ===== src/Main/Setup.antt =====
-- A node that src/main.rs has set up, and whatever is called then.
use Prim.Native.String.{String}
use mathlib.Core.List.{Perm}
use mathlib.Core.List.Perm
use dtchat.Prelude.{ℕ, List, [], ◌∷◌, ◌++◌, Option}
use dtchat.Time.{Instant}
use dtchat.Config.{AppConfigManager}
use dtchat.Slice.Sort.{sort_by-IsSorted, sort_by-perm}
use dtchat.Model.{World, EventHandler}
use dtchat.Model.Order.{standard, strategy_cmp, strategy_cmp-IsOrder}
use dtchat.Model.Runs.{Call, run, IsOrdered, run-IsOrdered, uuids, added, run-perm}
use dtchat.Main.{seed_lines, demo, set_up}

module _ {T P : Type 0} ⦃i : Instant T⦄ (after : T → ℕ → T) (fresh : ℕ → String) (start : T)
    (config : AppConfigManager) (prediction : Option P) (handler : ℕ)
    (handlers : ℕ → EventHandler) where
  -- The world of the node.
  abbrev pub initial : World T P
  initial = record {
    model = set_up after fresh start config prediction handler;
    handlers = handlers;
  }

  -- Whatever the peers, the clock and the calls: the messages of a node that was set up are always in
  -- the order of the chosen strategy, and are by uuid the six of the demonstration and those that
  -- the calls added, each once.
  pub run-set_up :
      (cs : List (Call T))
      → IsOrdered (run cs initial)
        × Perm
            (uuids (run cs initial).model.messages)
            (added cs ++ fresh 0 ∷ fresh 1 ∷ fresh 2 ∷ fresh 3 ∷ fresh 4 ∷ fresh 5 ∷ [])
  unfolding set_up
  run-set_up cs = (
    run-IsOrdered cs initial (
        sort_by-IsSorted (strategy_cmp {T = T} standard) (strategy_cmp-IsOrder {T = T} standard)
          (seed_lines after fresh start 0 (demo config.local_peer config.peer_list))),
    Perm.trans (run-perm cs initial) (
        Perm.append_left (added cs) (
          Perm.map (λ m. m.uuid)
            (sort_by-perm (strategy_cmp {T = T} standard)
              (seed_lines after fresh start 0 (demo config.local_peer config.peer_list))))),
  )
