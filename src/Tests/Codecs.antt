-- ===== src/Tests/Codecs.antt =====
-- Crates that know two messages, and the nodes that exchange them.
use dtchat.Prelude.{
  ℕ, ◌+◌, refl, Bool, true, false, List, [], ◌∷◌, none, some, get_elem?, ℕ_eq, ◌==◌, String_eq,
  arith,
}
use dtchat.Endpoint.{bp}
use dtchat.Message.{ChatMessage}
use dtchat.Proto.{Codec, ProtoMessage, delivery, is_letter, construct_proto_message}
use dtchat.Proto.RoundTrip.{OnWire}
use dtchat.Socket.{Net, GenericSocket, bp_addr}
use dtchat.Model.{World, new_model, new_handler}
use dtchat.Controller.{SocketController, Draws, Env, create_ack_message, Models}
use dtchat.Prompt.{Predict}
use dtchat.Tests.Samples.{clock, earth, moon, mars, outbound_at}

abbrev pub hello : ChatMessage ℕ
hello = outbound_at "m" 310 []

abbrev pub draws : Draws ℕ
draws = record { rx_time = 900; ack_time = 910; ack_uuid = "a" }

-- Crates that know the message, as 8, 1, and its ACK, as 8, 2.
abbrev pub is_ack : ProtoMessage → Bool
is_ack p = elim p.content [ none ↦ false | some x ↦ elim x [ delivery d ↦ true | _ ↦ false ] ]

abbrev pub coded : Bool → List ℕ
coded true = b'C' ∷ b'A' ∷ b'I' ∷ b'=' ∷ []
coded false = b'C' ∷ b'A' ∷ b'E' ∷ b'=' ∷ []

abbrev pub raw : Bool → List ℕ
raw true = 8 ∷ 2 ∷ []
raw false = 8 ∷ 1 ∷ []

abbrev pub has_byte : ℕ → ℕ → List ℕ → Bool
has_byte i b bytes = elim (get_elem? bytes i) [ none ↦ false | some c ↦ c == b ]

abbrev pub two_messages : Codec
two_messages = record {
  proto_encode = λ p. raw (is_ack p);
  proto_decode = λ bytes. some (elim (has_byte 1 2 bytes) [
    | true ↦ create_ack_message draws hello "30" false
    | false ↦ construct_proto_message hello
  ]);
  base64_encode = λ bytes. coded (has_byte 1 2 bytes);
  base64_decode = λ text. some (raw (has_byte 2 b'I' text));
}

abbrev pub net : Net
net = record { is_addr = λ addr. true; opens = λ e. true }

abbrev pub env : Env
env = record { codec = two_messages; net = net }

abbrev pub at_mars : SocketController
at_mars = record { observers = 0 ∷ []; local_peer = some mars; peers = earth ∷ moon ∷ [] }

abbrev pub at_earth : SocketController
at_earth = record { observers = 0 ∷ []; local_peer = some earth; peers = moon ∷ mars ∷ [] }

abbrev pub to_earth : GenericSocket
to_earth = record {
  eidpoint = bp "ipn:10.2";
  sockaddr = bp_addr (record { bp_family = 28; bp_scheme = 1; node_id = 10; service_id = 2 });
  listening = false;
}

abbrev pub empty_world : World ℕ ℕ
empty_world = record {
  model = record (new_model (earth ∷ moon ∷ mars ∷ []) earth [] none) { observers = 0 ∷ [] };
  handlers = λ j. new_handler;
}

abbrev pub no_models : Models ℕ ℕ
no_models = λ o. empty_world

pub hello-OnWire : OnWire two_messages (construct_proto_message hello)
unfolding is_letter construct_proto_message
hello-OnWire = record {
  core = b'C' ∷ b'A' ∷ b'E' ∷ [];
  pads = 1;
  is_text = record {
    letters = (refl, (refl, (refl, tt)));
    some_letters = omega arith;
    few_pads = omega arith;
    whole = refl;
  };
  encoded = refl;
  decoded = refl;
  parsed = refl;
}

pub ack-OnWire : OnWire two_messages (create_ack_message draws hello "30" false)
unfolding is_letter create_ack_message
ack-OnWire = record {
  core = b'C' ∷ b'A' ∷ b'I' ∷ [];
  pads = 1;
  is_text = record {
    letters = (refl, (refl, (refl, tt)));
    some_letters = omega arith;
    few_pads = omega arith;
    whole = refl;
  };
  encoded = refl;
  decoded = refl;
  parsed = refl;
}

-- A router that predicts the size of the message, and counts its uses.
abbrev pub predict_size : Predict ℕ ℕ
predict_size = λ used source dest size. (used + 1, some size)
