-- ===== src/Main/Nodes.antt =====
-- Nodes that src/main.rs has started, with what they then send to each other.
use Prim.Native.String.{String}
use mathlib.Core.List.{Perm}
use mathlib.Core.Option
use dtchat.Prelude.{ℕ, ◌+◌, ◌≡◌, refl, subst, List, [], ◌∷◌, ◌++◌, some, All}
use dtchat.Time.{Instant}
use dtchat.Config.{AppConfigManager, load_yaml_from_file}
use dtchat.Slice.Sort.{All-sort_by}
use dtchat.Model.{new_handler}
use dtchat.Model.Order.{standard, strategy_cmp}
use dtchat.Model.Runs.{run, IsOrdered, uuids, added}
use dtchat.Model.Justified.{Justified}
use dtchat.Prediction.{PredictionConfig, load_prediction}
use dtchat.Controller.{SocketController, Env}
use dtchat.Prompt.{Predict}
use dtchat.Network.{Network, Reaches}
use dtchat.Network.Grows.{Has}
use dtchat.Network.Truth.{Works}
use dtchat.Network.Sound.{Reaches-Justified}
use dtchat.Network.Heard.{calls_along}
use dtchat.Network.Listed.{Lists, Reaches-Lists}
use dtchat.Main.{Line, seed_lines, demo}
use dtchat.Main.Setup.{run-set_up}
use dtchat.Main.Program.{Host, Program, config_path, run_configured, main}

module _ {T : Type 0} (after : T → ℕ → T) (fresh : ℕ → String) where
  -- What was received has no deliveries.
  seed_lines-Justified :
      (now : T) (n : ℕ) (ls : List Line)
      → All (Justified (λ u a t. ⊥)) (seed_lines after fresh now n ls)
  unfolding seed_lines
  seed_lines-Justified now n [] = tt
  seed_lines-Justified now n (l ∷ ls) = (tt, seed_lines-Justified (after now l.gap) (n + 1) ls)

-- The uuids of the messages that a node starts with.
abbrev pub seeded : (ℕ → String) → List String
seeded fresh = fresh 0 ∷ fresh 1 ∷ fresh 2 ∷ fresh 3 ∷ fresh 4 ∷ fresh 5 ∷ []

module _ {T F L R : Type 0} ⦃i : Instant T⦄ (after : T → ℕ → T) (host : Host T F L R)
    (o handler : ℕ) where
  -- A node as it starts: one model, nothing marked, and the seeded messages in order.
  pub record IsFresh (p : Program T F R) : Type 0 where
    pub own : p.controller.observers ≡ o ∷ []
    pub unmarked : All (Justified (λ u a t. ⊥)) p.world.model.messages
    pub lists : Lists (seeded host.fresh) p.world

  pub run_configured-IsFresh :
      (config : AppConfigManager) → IsFresh (run_configured after host o handler config)
  unfolding run_configured run
  run_configured-IsFresh config =
      let seeds =
        run-set_up after host.fresh host.start config
          (load_prediction host.plans host.now config.a_sabr) handler (λ h. new_handler) [] in
      record {
        own = refl;
        unmarked =
            All-sort_by (Justified (λ u a t. ⊥)) (strategy_cmp {T = T} standard)
              (seed_lines after host.fresh host.start 0 (demo config.local_peer config.peer_list))
              (seed_lines-Justified after host.fresh host.start 0
                (demo config.local_peer config.peer_list));
        lists = record { ordered = seeds.0; listed = seeds.1 };
      }

  main-IsFresh : (p : Program T F R) → main after host o handler ≡ some p → IsFresh p
  unfolding main
  main-IsFresh p e =
      let (config, _, same) =
        (Option.map-eq-some_iff (run_configured after host o handler)
            (load_yaml_from_file host.read_to_string host.from_str (config_path host.var))).0
          e in
      subst IsFresh same (run_configured-IsFresh config)

module _ {T F L R : Type 0} ⦃i : Instant T⦄ (after : T → ℕ → T) (env : Env)
    (predict : Predict T (PredictionConfig F R)) (hosts : ℕ → Host T F L R) (handler : ℕ → ℕ)
    (programs : ℕ → Program T F R) where
  abbrev pub controllers : ℕ → SocketController
  controllers n = (programs n).controller

  -- All nodes have started, and nothing is on its way.
  abbrev pub at_start : Network T (PredictionConfig F R)
  at_start = record { models = λ n. (programs n).world; wire = [] }

  -- Nodes that main has started: whatever they send and whatever the network loses, repeats or delivers
  -- late, each list is in the order of its strategy, holds by uuid the six messages of the
  -- demonstration and what was sent or received there, each once, and marks a delivery only if a node
  -- with the uuid of the peer has a message with that uuid. The crates work for each message that was
  -- put on the wire.
  pub Reaches-main :
      ((n : ℕ) → main after (hosts n) n (handler n) ≡ some (programs n))
      → (s : Network T (PredictionConfig F R)) (r : Reaches env controllers predict at_start s)
      → All (Works env.codec) s.wire
      → (n : ℕ)
      → All (Justified (λ u a t. Has controllers s.models a u)) (s.models n).model.messages
        × IsOrdered (s.models n)
        × Perm
            (uuids (s.models n).model.messages)
            (added (calls_along env controllers predict n at_start s r) ++ seeded (hosts n).fresh)
  Reaches-main started s r works n =
      let fresh : (k : ℕ) → IsFresh after (hosts k) k (handler k) (programs k) =
        λ k. main-IsFresh after (hosts k) k (handler k) (programs k) (started k) in
      let own : (k : ℕ) → (controllers k).observers ≡ k ∷ [] = λ k. (fresh k).own in
      let listed =
        Reaches-Lists env controllers predict n own at_start s r (seeded (hosts n).fresh)
          (fresh n).lists in
      (
        Reaches-Justified env controllers predict own at_start s (λ j. (fresh j).unmarked) refl r
            works n,
        listed.ordered,
        listed.listed,
      )
