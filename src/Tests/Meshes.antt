-- ===== src/Tests/Meshes.antt =====
-- The mesh of src/mesh_integration.rs over TCP: mars takes its copy first, and its ACK comes back before
-- the moon has the message.
use Prim.Native.String.{String}
use package.text.Mathlib.TextEquality.{eq_iff}
use dtchat.Prelude.{
  ℕ, ◌+◌, ◌*◌, ◌≤◌, ◌<◌, ◌≡◌, ◌≢◌, ◌⊎◌, refl, true, false, List, [], ◌∷◌, none, some, get_elem?,
  length, ℕ_eq, String_eq, ◌==◌, ltb, arith,
}
use dtchat.Endpoint.{Endpoint, tcp, is_valid}
use dtchat.Message.{ChatMessage}
use dtchat.Proto.{Codec, ProtoMessage, is_letter, construct_proto_message}
use dtchat.Proto.RoundTrip.{OnWire}
use dtchat.Socket.{GenericSocket, ip, new_socket, send}
use dtchat.Controller.{create_ack_message}
use dtchat.Listener.{grants, listen_calls}
use dtchat.Listener.Started.{Opens}
use dtchat.Mesh.{System, Mesh, Arrival, mesh_message, run_mesh_round_trip, passes, message_count}
use dtchat.Mesh.Passing.{Acks}
use dtchat.Mesh.Finished.{run_mesh_round_trip-passes}
use dtchat.Mesh.Waiting.{Waited, wait_until-Waited}
use dtchat.Tests.Samples.{clock}
use dtchat.Tests.Codecs.{draws, is_ack}

abbrev at_a : Endpoint
at_a = tcp "127.0.0.1:7001"

abbrev at_b : Endpoint
at_b = tcp "127.0.0.1:7002"

abbrev at_c : Endpoint
at_c = tcp "127.0.0.1:7003"

abbrev hello_mesh : ChatMessage ℕ
hello_mesh = mesh_message at_a at_b at_c "m" 310

-- Crates that know the message, as 8, 1, the ACK of the moon, as 8, 2, and that of mars, as 8, 3.
abbrev kind : ProtoMessage → ℕ
kind p = elim (is_ack p) [
  | false ↦ 1
  | true ↦ elim (p.sender_uuid == "20") [ true ↦ 2 | false ↦ 3 ]
]

abbrev letters : ℕ → List ℕ
letters k =
    b'C'
    ∷ b'A'
    ∷ (elim (k == 1) [ true ↦ b'E' | false ↦ elim (k == 2) [ true ↦ b'I' | false ↦ b'M' ] ])
    ∷ b'='
    ∷ []

abbrev second_byte : List ℕ → ℕ
second_byte bytes = elim (get_elem? bytes 1) [ none ↦ 0 | some b ↦ b ]

abbrev third_letter : List ℕ → ℕ
third_letter text = elim (get_elem? text 2) [
  | none ↦ 0
  | some b ↦ elim (b == b'E') [ true ↦ 1 | false ↦ elim (b == b'I') [ true ↦ 2 | false ↦ 3 ] ]
]

abbrev three_messages : Codec
three_messages = record {
  proto_encode = λ p. 8 ∷ kind p ∷ [];
  proto_decode = λ bytes. some (elim (second_byte bytes == 1) [
    | true ↦ construct_proto_message hello_mesh
    | false ↦
        create_ack_message draws hello_mesh
          (elim (second_byte bytes == 2) [ true ↦ "20" | false ↦ "30" ]) false
  ]);
  base64_encode = λ bytes. letters (second_byte bytes);
  base64_decode = λ text. some (8 ∷ third_letter text ∷ []);
}

abbrev sys : System
sys = record {
  env = record { codec = three_messages; net = record { is_addr = λ a. true; opens = λ e. true } };
  grants_listening = λ e c. true;
  grants_sending = λ c. true;
}

abbrev socket_to : String → GenericSocket
socket_to a = record { eidpoint = tcp a; sockaddr = ip a; listening = false }

opens : (a : String) → Opens sys.env.net sys.grants_listening (tcp a)
unfolding new_socket is_valid grants listen_calls
opens a = record { valid = refl; socket = socket_to a; made = refl; granted = refl }

hello-OnWire : OnWire three_messages (construct_proto_message hello_mesh)
unfolding is_letter construct_proto_message
hello-OnWire = record {
  core = b'C' ∷ b'A' ∷ b'E' ∷ [];
  pads = 1;
  is_text = record {
    letters = (refl, (refl, (refl, tt)));
    some_letters = omega arith;
    few_pads = omega arith;
    whole = refl;
  };
  encoded = refl;
  decoded = refl;
  parsed = refl;
}

ack-OnWire_moon : OnWire three_messages (create_ack_message draws hello_mesh "20" false)
unfolding is_letter create_ack_message
ack-OnWire_moon = record {
  core = b'C' ∷ b'A' ∷ b'I' ∷ [];
  pads = 1;
  is_text = record {
    letters = (refl, (refl, (refl, tt)));
    some_letters = omega arith;
    few_pads = omega arith;
    whole = refl;
  };
  encoded = refl;
  decoded = refl;
  parsed = refl;
}

ack-OnWire_mars : OnWire three_messages (create_ack_message draws hello_mesh "30" false)
unfolding is_letter create_ack_message
ack-OnWire_mars = record {
  core = b'C' ∷ b'A' ∷ b'M' ∷ [];
  pads = 1;
  is_text = record {
    letters = (refl, (refl, (refl, tt)));
    some_letters = omega arith;
    few_pads = omega arith;
    whole = refl;
  };
  encoded = refl;
  decoded = refl;
  parsed = refl;
}

abbrev arrival : ℕ → Arrival ℕ
arrival k = record { pick = k; draws = draws; peer_addr = none }

moon-Acks :
    (k : ℕ) → Acks sys at_a at_b at_c "m" 310 310 (socket_to "127.0.0.1:7001") (arrival k) "20"
moon-Acks k = record { time = 910; in_range = refl; on_wire = ack-OnWire_moon; fits = tt }

mars-Acks :
    (k : ℕ) → Acks sys at_a at_b at_c "m" 310 310 (socket_to "127.0.0.1:7001") (arrival k) "30"
mars-Acks k = record { time = 910; in_range = refl; on_wire = ack-OnWire_mars; fits = tt }

abbrev arrivals : List (Arrival ℕ)
arrivals = arrival 1 ∷ arrival 1 ∷ arrival 0 ∷ arrival 0 ∷ []

run_mesh_round_trip-passes_example :
    (s : Mesh ℕ) × (run_mesh_round_trip at_a at_b at_c "m" 310 sys arrivals ≡ some s)
    × (message_count (s.recorders 0) ≡ 0)
    × (((length arrivals < 4) × (s.flying ≢ []))
        ⊎ ((4 ≤ length arrivals) × (s.flying ≡ []) × (passes at_a at_b at_c "m" 310 s ≡ true)))
unfolding opens send
run_mesh_round_trip-passes_example =
    run_mesh_round_trip-passes sys at_a at_b at_c "m" 310 310 (opens "127.0.0.1:7001")
      (opens "127.0.0.1:7002") (opens "127.0.0.1:7003") arrivals
      (
        (λ e. ground (arith, eq_iff "127.0.0.1:7001" "127.0.0.1:7002")),
        (λ e. ground (arith, eq_iff "127.0.0.1:7001" "127.0.0.1:7003")),
        (λ e. ground (arith, eq_iff "127.0.0.1:7002" "127.0.0.1:7003")),
      )
      refl refl hello-OnWire refl (tt, tt)
      (
        (moon-Acks 1, mars-Acks 1),
        (
          (moon-Acks 1, mars-Acks 1),
          ((moon-Acks 0, mars-Acks 0), ((moon-Acks 0, mars-Acks 0), tt)),
        ),
      )

-- A message that comes after half a second.
abbrev clock_of : ℕ → ℕ
clock_of k = 1000 + 25 * k

wait_until-Waited_example : Waited 1000 clock_of (λ k. ltb 20 k) 251
wait_until-Waited_example = wait_until-Waited 1000 clock_of (λ k. ltb 20 k) (λ k. omega arith)
