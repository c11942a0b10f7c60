-- ===== src/Main/Program.antt =====
-- `main` of src/main.rs, from the environment to the window. What the system and the crates give is a
-- parameter; a window that cannot be opened ends the program, and is left out.
use Prim.Native.String.{String}
use mathlib.Core.Option
use dtchat.Prelude.{ℕ, Bool, List, Option, none, some}
use dtchat.Time.{Instant}
use dtchat.Endpoint.{Endpoint}
use dtchat.Config.{AppConfigManager, load_yaml_from_file}
use dtchat.Model.{World, new_handler}
use dtchat.Prediction.{Plans, PredictionConfig, load_prediction}
use dtchat.Socket.{Net}
use dtchat.Controller.{SocketController, add_socket_observer}
use dtchat.Listener.{ListenCall, init_controller}
use dtchat.App.{ChatApp, new_app}
use dtchat.Main.{set_up}

-- What the program finds: the variables of the environment, files, the crate a-sabr, sockets, the
-- clock forty seconds ago, the clock in whole seconds, and the uuids that are generated.
pub record Host (T F L R : Type 0) : Type 0 where
  pub var : String → Option String
  pub read_to_string : String → Option String
  pub from_str : String → Option AppConfigManager
  pub plans : Plans L R
  pub net : Net
  pub works : Endpoint → ListenCall → Bool
  pub start : T
  pub now : F
  pub fresh : ℕ → String

-- What runs once the window is open.
pub record Program (T F R : Type 0) : Type 0 where
  pub world : World T (PredictionConfig F R)
  pub controller : SocketController
  pub listens : List Endpoint
  pub app : ChatApp

-- The path of the configuration.
pub config_path : (String → Option String) → String
config_path var = elim (var "DTCHAT_CONFIG") [ some path ↦ path | none ↦ "db/default.yaml" ]

module _ {T F L R : Type 0} ⦃i : Instant T⦄ (after : T → ℕ → T) (host : Host T F L R) where
  -- `main` with its configuration, with the handles of the model and of the window's handler.
  unfoldable pub run_configured : ℕ → ℕ → AppConfigManager → Program T F R
  unfolding load_prediction set_up init_controller add_socket_observer new_app
  run_configured o handler config =
      let (controller, listens) =
        init_controller host.net host.works config.local_peer config.peer_list in
      record {
        world = record {
          model =
              set_up after host.fresh host.start config
                (load_prediction host.plans host.now config.a_sabr) handler;
          handlers = λ h. new_handler;
        };
        controller = add_socket_observer o controller;
        listens = listens;
        app = new_app handler;
      }

  -- `main`. `none` is a panic.
  unfoldable pub main : ℕ → ℕ → Option (Program T F R)
  unfolding config_path load_yaml_from_file run_configured
  main o handler =
      Option.map (run_configured o handler)
        (load_yaml_from_file host.read_to_string host.from_str (config_path host.var))
