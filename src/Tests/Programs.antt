-- ===== src/Tests/Programs.antt =====
-- The earth and mars as main starts them, and a message that the earth sends.
use mathlib.Core.List.{Perm}
use mathlib.Core.Option
use dtchat.Prelude.{ℕ, zero, suc, ◌+◌, ◌≡◌, refl, true, false, List, [], ◌∷◌, ◌++◌, none, some, All}
use dtchat.Text.{show}
use dtchat.Config.{AppConfigManager, load_yaml_from_file}
use dtchat.Endpoint.{bp}
use dtchat.Message.{ChatMessage, tx_time}
use dtchat.Model.{new_model, sort_messages}
use dtchat.Model.{MessageDirection}
use dtchat.Model.Runs.{adds, IsOrdered, uuids, added}
use dtchat.Model.Justified.{Justified}
use dtchat.Proto.{construct_proto_message}
use dtchat.Prediction.{Vertex, i_node, e_node, Plans, PredictionConfig}
use dtchat.Prompt.{Predict, manage_send, recipients_of, add_sent}
use dtchat.Socket.{bp_addr, new_socket}
use dtchat.Controller.{SocketController}
use dtchat.Network.{Network, set_model, Step, posts, Reaches, start, next}
use dtchat.Network.Grows.{Has}
use dtchat.Network.Heard.{calls_along}
use dtchat.Main.{set_up}
use dtchat.Main.Program.{Host, Program, run_configured, main}
use dtchat.App.Session.{Happening, calls, sends, Sitting}
use dtchat.Main.Shown.{opened}
use dtchat.Main.Nodes.{controllers, at_start, Reaches-main}
use dtchat.Tests.Samples.{inbound_at, clock, earth, mars}
use dtchat.Tests.Codecs.{hello, env, net, hello-OnWire}

abbrev two_nodes : Plans (List Vertex) ℕ
two_nodes = record {
  parse = λ path. some (i_node "10" 0 ∷ e_node "30" 1 ∷ []);
  vertices = λ vs. vs;
  build_generic_router = λ vs. some 0;
}

abbrev config_of : ℕ → AppConfigManager
config_of zero = record {
  peer_list = mars ∷ [];
  local_peer = earth;
  room_list = record { uuid = "0"; name = "room 1" } ∷ [];
  a_sabr = "plan";
}
config_of (suc k) = record {
  peer_list = earth ∷ [];
  local_peer = mars;
  room_list = [];
  a_sabr = "plan";
}

-- No variable is set, and every file parses.
abbrev hosts : ℕ → Host ℕ ℕ (List Vertex) ℕ
hosts n = record {
  var = λ name. none;
  read_to_string = λ path. some path;
  from_str = λ text. some (config_of n);
  plans = two_nodes;
  net = net;
  works = λ e c. true;
  start = 100;
  now = 7;
  fresh = show;
}

abbrev programs : ℕ → Program ℕ ℕ ℕ
programs n = run_configured ◌+◌ (hosts n) n 7 (config_of n)

started : (n : ℕ) → main ◌+◌ (hosts n) n 7 ≡ some (programs n)
unfolding main load_yaml_from_file mathlib.Core.Option.bind
started n = refl

abbrev nothing_known : Predict ℕ (PredictionConfig ℕ ℕ)
nothing_known config source dest size = (config, none)

abbrev first : Network ℕ (PredictionConfig ℕ ℕ)
first = at_start ◌+◌ env nothing_known hosts (λ n. 7) programs

abbrev nodes : ℕ → SocketController
nodes = controllers ◌+◌ env nothing_known hosts (λ n. 7) programs

abbrev message : ChatMessage ℕ
message = (add_sent nothing_known hello false (first.models 0)).0

abbrev posted : Network ℕ (PredictionConfig ℕ ℕ)
posted = record {
  models = set_model 0 (add_sent nothing_known hello false (first.models 0)).1 first.models;
  wire = construct_proto_message message ∷ [];
}

post : Step env nodes nothing_known first posted
unfolding run_configured set_up manage_send new_model new_socket sort_messages
post =
    posts 0 hello false (add_sent nothing_known hello false (first.models 0)).1
      (record {
        socket = record {
          eidpoint = bp "ipn:30.2";
          sockaddr =
              bp_addr (record { bp_family = 28; bp_scheme = 1; node_id = 30; service_id = 2 });
          listening = false;
        };
        message = message;
        peer_name = "mars";
      }
        ∷ [])
      refl

abbrev reached : Reaches env nodes nothing_known first posted
reached = next first posted start post

Reaches-main_example :
    All (Justified (λ u a t. Has nodes posted.models a u)) (posted.models 0).model.messages
    × IsOrdered (posted.models 0)
    × Perm (uuids (posted.models 0).model.messages) (
        added (calls_along env nodes nothing_known 0 first posted reached)
        ++ show 0 ∷ show 1 ∷ show 2 ∷ show 3 ∷ show 4 ∷ show 5 ∷ [])
unfolding construct_proto_message add_sent tx_time recipients_of new_model run_configured set_up
Reaches-main_example =
    Reaches-main ◌+◌ env nothing_known hosts (λ n. 7) programs started posted reached
      (((_, refl), hello-OnWire), tt) 0

-- The user of the earth types and sends, and then mars writes.
abbrev evening : List (Happening ℕ)
evening = calls (adds (inbound_at "r" mars 100 320) MessageDirection.received) ∷ sends 0 ∷ []

abbrev at_earth : Sitting ℕ (PredictionConfig ℕ ℕ)
at_earth = opened ◌+◌ (hosts 0) nothing_known (λ t. t) 0 7 (config_of 0)
