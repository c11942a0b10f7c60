-- ===== src/Tests/Networks.antt =====
-- Two nodes: the earth sends to mars, which does not know itself and answers nothing; and another mars,
-- whose ACK comes back.
use mathlib.Core.List.{mem-cons_self}
use dtchat.Prelude.{
  arith, ℕ, zero, suc, ◌≡◌, refl, inr, true, false, List, [], ◌∷◌, none, some, ℕ_eq, All, length,
}
use dtchat.Text.{starts_with}
use dtchat.Endpoint.{Endpoint, bp, is_valid}
use dtchat.Message.{ChatMessage, Delivery, sent, tx_time, acked}
use dtchat.Proto.{
  is_letter, construct_proto_message, serialize_message, deserialize_message, chat_message,
  ProtoMessage, ack, find_peer_by_id,
}
use dtchat.Proto.RoundTrip.{inbound, deserialize-serialize}
use dtchat.Socket.{GenericSocket, bp_addr, new_socket}
use dtchat.Model.{new_model, new_handler}
use dtchat.Model.Justified.{Justified}
use dtchat.Controller.{
  model_observer, SocketController, handle_payload, dispatch, send_ack_if_needed, send_ack_message,
  create_ack_message,
}
use dtchat.Controller.Endpoints.{choose_ack_endpoint-one}
use dtchat.Controller.Handling.{deserialize-create_ack}
use dtchat.Prompt.Answered.{with_uuid, IsOther}
use dtchat.Prompt.{SendTask, manage_send, recipients_of, add_sent}
use dtchat.Network.{Network, set_model, payload_of, Step, posts, arrives, Reaches, start, next}
use dtchat.Network.Grows.{Has}
use dtchat.Network.Sound.{Reaches-Justified}
use dtchat.Network.Heard.{calls_at, calls_along}
use dtchat.Network.Carried.{CanAnswer, AreCarried}
use dtchat.Network.Through.{Reaches-can_be_acked}
use dtchat.Network.Live.{IsAckOf, Reaches-acked}
use dtchat.Tests.Samples.{clock, earth, mars}
use dtchat.Tests.Codecs.{
  hello, draws, two_messages, env, to_earth, hello-OnWire, ack-OnWire, predict_size,
}

abbrev controllers : ℕ → SocketController
controllers n = record { observers = n ∷ []; local_peer = none; peers = earth ∷ [] }

abbrev at_first : Network ℕ ℕ
at_first = record {
  models = λ j. record { model = new_model (mars ∷ []) earth [] none; handlers = λ k. new_handler };
  wire = [];
}

abbrev to_mars : GenericSocket
to_mars = record {
  eidpoint = bp "ipn:30.2";
  sockaddr = bp_addr (record { bp_family = 28; bp_scheme = 1; node_id = 30; service_id = 2 });
  listening = false;
}

abbrev message : ChatMessage ℕ
message = (add_sent predict_size hello false (at_first.models 0)).0

abbrev posted : Network ℕ ℕ
posted = record {
  models = set_model 0 (add_sent predict_size hello false (at_first.models 0)).1 at_first.models;
  wire = construct_proto_message message ∷ [];
}

post : Step env controllers predict_size at_first posted
unfolding manage_send new_model new_socket
post =
    posts 0 hello false (add_sent predict_size hello false (at_first.models 0)).1
      (record { socket = to_mars; message = message; peer_name = "mars" } ∷ []) refl

abbrev payload : List ℕ
payload = payload_of two_messages (construct_proto_message message) (0 ∷ [])

abbrev arrived : Network ℕ ℕ
arrived = record {
  models = (handle_payload env draws (controllers 1) none payload posted.models).1;
  wire = posted.wire;
}

read_hello :
    deserialize_message two_messages 900 payload (earth ∷ [])
    ≡ some (chat_message (inbound hello (earth ∷ []) 310 900))
unfolding is_letter tx_time serialize_message construct_proto_message
read_hello =
    deserialize-serialize two_messages hello hello-OnWire 900 310 (earth ∷ []) (0 ∷ []) refl refl

silent : (handle_payload env draws (controllers 1) none payload posted.models).0 ≡ none
unfolding handle_payload send_ack_if_needed starts_with
silent = rw (read_hello, dispatch) refl

arrival : Step env controllers predict_size posted arrived
unfolding is_letter
arrival = arrives 1 draws none 0 (construct_proto_message message) (0 ∷ []) refl refl silent

Reaches-Justified_example :
    All (Justified (λ u a t. Has controllers arrived.models a u)) (arrived.models 0).model.messages
unfolding new_model construct_proto_message add_sent tx_time recipients_of
Reaches-Justified_example =
    Reaches-Justified env controllers predict_size (λ n. refl) at_first arrived (λ j. tt) refl
      (next posted arrived (next at_first posted start post) arrival)
      (((_, refl), hello-OnWire), tt) 0

-- Once mars has answered: its ACK is on the wire, and the earth has not changed since it sent.
abbrev both : ℕ → SocketController
both zero = record { observers = 0 ∷ []; local_peer = some earth; peers = mars ∷ [] }
both (suc k) = record { observers = suc k ∷ []; local_peer = some mars; peers = earth ∷ [] }

own_model : (k : ℕ) → (both k).observers ≡ k ∷ []
own_model zero = refl
own_model (suc k) = refl

abbrev reply : ProtoMessage
reply = create_ack_message draws hello "30" false

abbrev answered : Network ℕ ℕ
answered = record { models = posted.models; wire = reply ∷ posted.wire }

abbrev back : Network ℕ ℕ
back = record {
  models =
      (handle_payload env draws (both 0) none (payload_of two_messages reply []) answered.models).1;
  wire = answered.wire;
}

read_reply :
    deserialize_message {T = ℕ} two_messages 900 (payload_of two_messages reply []) (mars ∷ [])
    ≡ some (ack "m" false 910 "30")
unfolding send_ack_message
read_reply =
    deserialize-create_ack env draws hello "30" to_mars 910 900 (mars ∷ []) [] ack-OnWire refl tt

reply_arrives : Reaches env both predict_size answered back
unfolding handle_payload
reply_arrives =
    next answered back start
      (arrives 0 draws none 0 reply [] refl tt (rw (read_reply, dispatch) refl))

reply-IsAckOf : IsAckOf ℕ two_messages "m" "30" reply
unfolding create_ack_message
reply-IsAckOf = record {
  status = record { message_uuid = "m"; received = true; read = false };
  is_delivery = refl;
  names = refl;
  from = refl;
  time = 910;
  in_range = refl;
  on_wire = ack-OnWire;
}

only_reply : All (IsOther "m") (calls_along env both predict_size 0 answered back reply_arrives)
unfolding reply_arrives calls_along calls_at
only_reply = rw read_reply (tt, tt)

Reaches-acked_example :
    (ds : List (Delivery ℕ)) × (with_uuid "m" (back.models 0).model.messages
      ≡ record hello { shipment_status = sent (tx_time hello.shipment_status) ds } ∷ [])
    × (length ds ≡ length (recipients_of (at_first.models 0).model))
    × (acked ds ≡ length ds)
unfolding manage_send new_model new_socket recipients_of reply_arrives
Reaches-acked_example =
    Reaches-acked env both predict_size 0 own_model at_first hello false
      (add_sent predict_size hello false (at_first.models 0)).1
      (record { socket = to_mars; message = message; peer_name = "mars" } ∷ []) refl tt (tt, tt)
      answered back refl reply_arrives only_reply (inr (refl, reply-IsAckOf), tt)

-- The endpoints that they listen on.
abbrev endpoints_of : ℕ → List Endpoint
endpoints_of zero = bp "ipn:10.2" ∷ []
endpoints_of (suc k) = bp "ipn:30.2" ∷ []

abbrev copies : List (SendTask ℕ)
copies = record { socket = to_mars; message = message; peer_name = "mars" } ∷ []

mars-CanAnswer : CanAnswer env both endpoints_of copies 0 hello "30"
unfolding find_peer_by_id new_socket is_valid construct_proto_message create_ack_message
mars-CanAnswer = record {
  node = 1;
  elsewhere = refl;
  on = some (bp "ipn:30.2");
  draws = draws;
  task = record { socket = to_mars; message = message; peer_name = "mars" };
  number = 0;
  is_task = refl;
  comes = (mem-cons_self, (refl, omega arith));
  me = mars;
  named = refl;
  is_local = refl;
  sender = earth;
  is_known = refl;
  target = bp "ipn:10.2";
  is_chosen =
      choose_ack_endpoint-one (λ addr. true) earth (bp "ipn:10.2") (some (bp "ipn:30.2")) refl refl;
  socket = to_earth;
  opens = refl;
  time = 910;
  in_range = refl;
  on_wire = ack-OnWire;
  on_back = some (bp "ipn:10.2");
  comes_back = (mem-cons_self, (refl, omega arith));
}

-- While its copy is on the wire.
Reaches-can_be_acked_example :
    (v : Network ℕ ℕ) × (q : Reaches env both predict_size posted v) × (ds : List (Delivery ℕ))
    × AreCarried env both predict_size endpoints_of copies posted v q
    × (with_uuid "m" (v.models 0).model.messages
        ≡ record hello { shipment_status = sent (tx_time hello.shipment_status) ds } ∷ [])
    × (length ds ≡ length (recipients_of (at_first.models 0).model))
    × (acked ds ≡ length ds)
unfolding manage_send new_model new_socket recipients_of starts_with tx_time construct_proto_message
    calls_along
Reaches-can_be_acked_example =
    Reaches-can_be_acked env both predict_size endpoints_of 0 hello refl hello-OnWire 310 refl
      own_model at_first false (add_sent predict_size hello false (at_first.models 0)).1 copies refl
      tt (tt, tt) (mars-CanAnswer, tt) posted posted refl start tt (0, refl)
