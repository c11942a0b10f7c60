-- ===== src/Main/Shown.antt =====
-- The window of a program that src/main.rs has started.
use mathlib.Core.List.{Perm}
use mathlib.Core.List.Perm
use mathlib.Core.Option
use dtchat.Prelude.{ℕ, List, []}
use dtchat.Time.{Instant}
use dtchat.Config.{AppConfigManager}
use dtchat.Prediction.{PredictionConfig}
use dtchat.Prompt.{Predict}
use dtchat.App.Session.{Sitting}
use dtchat.Main.Program.{Host, Program, run_configured}

module _ {T F L R : Type 0} ⦃i : Instant T⦄ (after : T → ℕ → T) (host : Host T F L R)
    (predict : Predict T (PredictionConfig F R)) (millis : T → ℕ) (o handler : ℕ)
    (config : AppConfigManager) where
  abbrev pub program : Program T F R
  program = run_configured after host o handler config

  -- The window, before its first frame.
  abbrev pub opened : Sitting T (PredictionConfig F R)
  opened = record { world = program.world; app = program.app; spawned = [] }
