-- ===== src/Tests/Nodes.antt =====
-- Setting up a node, listening, the panel and predictions at concrete inputs.

use mathlib.Core.List.{Perm}
use dtchat.Prelude.{
  ℕ, ◌+◌, ◌-◌, ◌≡◌, refl, Bool, true, false, List, [], ◌∷◌, Option, none, some, ℤ, pos, negsuc,
  arith,
}
use dtchat.Text.{show}
use dtchat.Endpoint.{Endpoint, udp, tcp, is_valid}
use dtchat.Config.{AppConfigManager}
use dtchat.Message.{ChatMessage, sent}
use dtchat.Socket.{
  create_bp_sockaddr, ipn_address, ok, err, invalid_input, Net, GenericSocket, ip, new_socket,
}
use dtchat.Socket.Address.{ipn_text, create_bp_sockaddr-ipn_text}
use dtchat.Listener.{ListenCall, unchanged, start_listener, open_listener, init_controller}
use dtchat.Listener.Started.{Listens, start_listener-again, init_controller-Listens}
use dtchat.Model.{World, new_handler}
use dtchat.Model.Runs.{Call, adds, acks, sorts, run, IsOrdered, uuids}
use dtchat.Model.{MessageDirection}
use dtchat.Model.Order.{relative}
use dtchat.Panel.{MessagePanel, new_panel, press_send, is_blank}
use dtchat.Panel.Drain.{press_send-once}
use dtchat.Prediction.{
  Float, Router, routed, Vertex, i_node, e_node, v_node, PredictionConfig, new_prediction, predict,
  arrives, fails, unknown_dest,
}
use dtchat.Prediction.Outcomes.{IsPredicted, IsUsed, unused, used, predict-IsPredicted}
use dtchat.Main.Setup.{initial, run-set_up}
use dtchat.Tests.Samples.{clock, earth, moon, mars, inbound_at}

abbrev net : Net
net = record { is_addr = λ addr. true; opens = λ e. true }

-- The system lets nothing bind to an address that is in use.
abbrev is_free : Endpoint → ListenCall → Bool
is_free (tcp a) (ListenCall.bind addr) = false
is_free e c = true

abbrev local : GenericSocket
local = record { eidpoint = tcp "a"; sockaddr = ip "a"; listening = false }

start_listener-again_example :
    start_listener (λ c. true) (start_listener (is_free (tcp "a")) local).0
    ≡ ((start_listener (is_free (tcp "a")) local).0, unchanged)
start_listener-again_example = start_listener-again (is_free (tcp "a")) (λ c. true) local

init_controller-Listens_example :
    ((init_controller net is_free moon (earth ∷ mars ∷ [])).0
      ≡ record { observers = []; local_peer = some moon; peers = earth ∷ mars ∷ [] })
    × Listens net is_free moon.endpoints (init_controller net is_free moon (earth ∷ mars ∷ [])).1
init_controller-Listens_example = init_controller-Listens net is_free moon (earth ∷ mars ∷ [])

-- The moon's first endpoint cannot be bound, and the second is listened on.
init_controller-test : (init_controller net is_free moon []).1 ≡ udp "127.0.0.1:7720" ∷ []
unfolding init_controller new_socket is_valid open_listener
init_controller-test = refl

abbrev typed : MessagePanel
typed = record new_panel { message_to_send = "hi" }

abbrev greeting : ChatMessage ℕ
greeting = record {
  uuid = "m";
  response = none;
  sender = earth;
  text = "hi";
  shipment_status = sent 310 [];
}

press_send-once_example :
    (press_send {T = ℕ} true "n" 320 earth (press_send {T = ℕ} true "m" 310 earth typed).1
      ≡ (none, (press_send {T = ℕ} true "m" 310 earth typed).1))
    × (greeting.text ≡ "hi")
    × (greeting.uuid ≡ "m")
    × (greeting.sender ≡ earth)
    × (greeting.shipment_status ≡ sent 310 [])
    × (is_blank "hi" ≡ false)
unfolding new_panel press_send
press_send-once_example =
    press_send-once true true "m" "n" 310 320 earth earth typed greeting true refl

abbrev config : AppConfigManager
config = record {
  peer_list = moon ∷ mars ∷ [];
  local_peer = earth;
  room_list = [];
  a_sabr = "plan";
}

-- Mars writes, the order is changed, and an ACK for nothing comes in.
abbrev calls : List (Call ℕ)
calls =
    adds (inbound_at "m" mars 310 900) MessageDirection.received
    ∷ sorts (relative mars)
    ∷ acks "x" "30" false 950
    ∷ []

abbrev started : World ℕ ℕ
started = initial ◌+◌ show 100 config none 0 (λ j. new_handler)

run-set_up_example :
    IsOrdered (run calls started)
    × Perm
        (uuids (run calls started).model.messages)
        ("m" ∷ show 0 ∷ show 1 ∷ show 2 ∷ show 3 ∷ show 4 ∷ show 5 ∷ [])
run-set_up_example = run-set_up ◌+◌ show 100 config none 0 (λ j. new_handler) calls

create_bp_sockaddr-ipn_text_example : create_bp_sockaddr (ipn_text 10 2) ≡ ok (ipn_address 10 2)
create_bp_sockaddr-ipn_text_example =
    (create_bp_sockaddr-ipn_text 10 2).0 (omega arith) (omega arith)

-- A node number one too large.
create_bp_sockaddr-test_over : create_bp_sockaddr "ipn:4294967296.2" ≡ err invalid_input
unfolding create_bp_sockaddr
create_bp_sockaddr-test_over = refl

-- Times in whole seconds, and a router that counts its questions: a second to the first stage and
-- four minutes to the last.
abbrev seconds : Float ℕ
seconds = record {
  sub = ◌-◌;
  add = ◌+◌;
  of_nat = λ n. n;
  whole_seconds = λ n. pos n;
  nanoseconds = λ n. 0;
}

abbrev far_router : Router ℕ ℕ
far_router = record {
  route = λ r source bundle t. (r + 1, routed ([] ∷ ((t + 1) ∷ (t + 240) ∷ []) ∷ []));
}

abbrev instant_at : ℤ → ℕ → Option ℕ
instant_at (pos n) k = some n
instant_at (negsuc n) k = none

abbrev plan : List Vertex
plan = i_node "10" 0 ∷ e_node "30" 1 ∷ v_node ∷ e_node "30" 2 ∷ []

abbrev asked_once : PredictionConfig ℕ ℕ
asked_once = record {
  ion_to_node_id = ("10", 0) ∷ ("30", 1) ∷ ("30", 2) ∷ [];
  router = 1;
  cp_start_time = 7;
}

asked_once-IsUsed : IsUsed seconds far_router instant_at plan 0 7 asked_once
unfolding predict new_prediction
asked_once-IsUsed = used _ _ "10" "30" 64 10 (arrives 250) unused refl

predict-IsPredicted_example :
    IsPredicted seconds far_router instant_at plan 7 asked_once "10" "30" 64 95
      (some (record asked_once { router = 2 }, arrives 335))
unfolding predict
predict-IsPredicted_example =
    predict-IsPredicted seconds far_router instant_at plan 0 7 asked_once "10" "30" 64 95
      asked_once-IsUsed

-- The plan has no moon.
predict-test_unknown :
    predict seconds far_router instant_at "10" "20" 64 95 asked_once
    ≡ some (asked_once, fails unknown_dest)
unfolding predict
predict-test_unknown = refl
