-- ===== src/Tests/Sends.antt =====
-- Sending a message from the earth to the moon and to mars, and the ACKs that come back.
use mathlib.Core.Logic.{◌⊎◌, inl, inr}
use package.text.Mathlib.TextEquality.{eq_iff}
use dtchat.Prelude.{
  ℕ, ◌≡◌, refl, ap, Bool, true, false, List, [], ◌∷◌, ◌++◌, none, some, length, ℕ_eq, String_eq,
  arith,
}
use dtchat.Text.{starts_with}
use dtchat.Endpoint.{bp}
use dtchat.Message.{Delivery, acked, tx_time, sent}
use dtchat.Proto.{
  is_letter, construct_proto_message, serialize_message, find_peer_by_id, deserialize_message,
}
use dtchat.Proto.RoundTrip.{inbound}
use dtchat.Socket.{SysCall, send_to, send_calls, new_socket}
use dtchat.Model.{World, new_model}
use dtchat.Controller.{
  model_observer, choose_ack_endpoint, send_ack_message, notify_models, handle_ack_received,
  handle_payload, handle_datagram, handle_tcp_connection,
}
use dtchat.Controller.AckTask.{AckTask, ack_bytes as bytes_of_ack}
use dtchat.Controller.Transports.{handle_datagram-handle_tcp_connection}
use dtchat.Controller.Steps.{calls_of, repeat, handle_payload-run}
use dtchat.Model.Runs.{run, IsOrdered}
use dtchat.Controller.Handling.{IsAnswer, handle_payload-answers, handle_payload-IsAnswer}
use dtchat.Prompt.{SendTask, manage_send, recipients_of, run_task, send_failed}
use dtchat.Model.Events.{Hears}
use dtchat.Socket.Attempts.{StopsAt}
use dtchat.Prompt.Tasks.{run_task-Attempted}
use dtchat.Prompt.Sends.{IsSent, manage_send-IsSent}
use dtchat.Prompt.Answered.{with_uuid, run-manage_send}
use dtchat.Model.Runs.{Call, adds, sorts, acks, run}
use dtchat.Model.Order.{relative}
use dtchat.Model.{MessageDirection}
use dtchat.Tests.Samples.{clock, earth, moon, mars, inbound_at}
use dtchat.Tests.Codecs.{
  hello, draws, coded, two_messages, net, env, at_mars, at_earth, to_earth, empty_world, no_models,
  hello-OnWire, ack-OnWire, predict_size,
}

-- Mars answers the message through the earth's endpoint, and the earth marks it.
handle_payload-answers_example :
    (handle_payload env draws at_mars
        (some (bp "ipn:30.2"))
        (serialize_message two_messages hello ++ 0 ∷ [])
        no_models
      ≡ (
        some (send_ack_message two_messages draws to_earth hello "30" false),
        notify_models at_mars (inbound hello (earth ∷ moon ∷ []) 310 900) no_models,
      ))
    × (handle_payload env draws at_earth
          (some (bp "ipn:10.2"))
          ((send_ack_message two_messages draws to_earth hello "30" false).bytes ++ [])
          no_models
        ≡ (none, handle_ack_received {T = ℕ} at_earth "m" "30" false 910 no_models))
unfolding is_letter tx_time starts_with new_socket choose_ack_endpoint find_peer_by_id
handle_payload-answers_example =
    handle_payload-answers env draws at_mars hello mars earth (some (bp "ipn:30.2")) (bp "ipn:10.2")
      to_earth refl refl refl refl refl 310 910 (0 ∷ []) [] hello-OnWire ack-OnWire refl refl refl
      tt no_models no_models draws at_earth (some (bp "ipn:10.2"))

handle_payload-mars :
    handle_payload env draws at_mars
      (some (bp "ipn:30.2"))
      (serialize_message two_messages hello ++ 0 ∷ [])
      no_models
    ≡ (
      some (send_ack_message two_messages draws to_earth hello "30" false),
      notify_models at_mars (inbound hello (earth ∷ moon ∷ []) 310 900) no_models,
    )
unfolding is_letter tx_time starts_with new_socket choose_ack_endpoint find_peer_by_id
handle_payload-mars =
    (handle_payload-answers env draws at_mars hello mars earth (some (bp "ipn:30.2"))
      (bp "ipn:10.2") to_earth refl refl refl refl refl 310 910 (0 ∷ []) [] hello-OnWire ack-OnWire
      refl refl refl tt no_models no_models draws at_earth (some (bp "ipn:10.2"))).0

-- Mars's answer has its reason.
handle_payload-IsAnswer_example :
    IsAnswer env draws at_mars
      (some (bp "ipn:30.2"))
      (serialize_message two_messages hello ++ 0 ∷ [])
      (send_ack_message two_messages draws to_earth hello "30" false)
unfolding is_letter tx_time starts_with new_socket choose_ack_endpoint find_peer_by_id
handle_payload-IsAnswer_example =
    handle_payload-IsAnswer env draws at_mars (some (bp "ipn:30.2"))
      (serialize_message two_messages hello ++ 0 ∷ []) no_models
      (send_ack_message two_messages draws to_earth hello "30" false)
      (ap (λ x. x.0) handle_payload-mars)

manage_send-IsSent_example :
    (w' : World ℕ ℕ) × (tasks : List (SendTask ℕ)) × (manage_send net predict_size hello true
        empty_world
      ≡ some (w', tasks))
    × IsSent net hello empty_world w' tasks
manage_send-IsSent_example = manage_send-IsSent net hello empty_world predict_size true

-- The moon answers first, mars twice.
-- Mars writes, the moon answers, the order is changed, and mars answers twice.
abbrev meanwhile : List (Call ℕ)
meanwhile =
    adds (inbound_at "n" mars 310 790) MessageDirection.received
    ∷ acks "m" "20" false 800
    ∷ sorts (relative mars)
    ∷ acks "m" "30" false 810
    ∷ acks "n" "20" false 820
    ∷ acks "m" "30" false 900
    ∷ []

run-manage_send_example :
    (w' : World ℕ ℕ) × (tasks : List (SendTask ℕ)) × (ds : List (Delivery ℕ)) × (manage_send net
        predict_size hello true empty_world
      ≡ some (w', tasks))
    × (with_uuid "m" (run meanwhile w').model.messages
        ≡ record hello { shipment_status = sent (tx_time hello.shipment_status) ds } ∷ [])
    × (length ds ≡ length (recipients_of empty_world.model))
    × (acked ds ≡ length ds)
unfolding recipients_of new_model
run-manage_send_example =
    run-manage_send net predict_size hello empty_world true meanwhile tt
      (
        (λ e. ground (arith, eq_iff "20" "10"), (λ e. ground (arith, eq_iff "30" "10"), tt)),
        ((λ e. ground (arith, eq_iff "30" "20"), tt), (tt, tt)),
      )
      ((λ e. ground (arith, eq_iff "n" "m")), (tt, (tt, (tt, (tt, (tt, tt))))))
      (inl refl, (inr (inl refl), tt))

handle_datagram-handle_tcp_connection_example :
    (handle_datagram env draws at_mars "ipn:30.2"
      (serialize_message two_messages hello)
      no_models).1
    ≡ (handle_tcp_connection env draws at_mars none
        (serialize_message two_messages hello)
        no_models).1
unfolding serialize_message construct_proto_message
handle_datagram-handle_tcp_connection_example =
    handle_datagram-handle_tcp_connection env draws at_mars "ipn:30.2" none
      (serialize_message two_messages hello) no_models (omega arith)

abbrev task : SendTask ℕ
task = record { socket = to_earth; message = hello; peer_name = "earth" }

-- The system cannot send to an endpoint.
abbrev no_sends : SysCall → Bool
no_sends (send_to addr bytes) = false
no_sends c = true

run_task-Attempted_example :
    (((run_task two_messages no_sends "down" task empty_world).0
        ≡ send_calls to_earth (serialize_message two_messages hello))
      × ((run_task two_messages no_sends "down" task empty_world).1 ≡ empty_world))
    ⊎ (StopsAt no_sends
          (send_calls to_earth (serialize_message two_messages hello))
          (run_task two_messages no_sends "down" task empty_world).0
        × ((run_task two_messages no_sends "down" task empty_world).1.model ≡ empty_world.model)
        × ((j : ℕ)
            → Hears
                (send_failed "earth" "down")
                empty_world.model.observers
                j
                (empty_world.handlers j)
                ((run_task two_messages no_sends "down" task empty_world).1.handlers j)))
run_task-Attempted_example = run_task-Attempted two_messages no_sends "down" task empty_world

-- An ACK from mars arrives at the earth.
abbrev ack_bytes : List ℕ
ack_bytes = coded true

handle_payload-run_example :
    ((handle_payload env draws at_earth none ack_bytes no_models).1 0
      ≡ run
          (repeat 1 (calls_of (deserialize_message two_messages 900 ack_bytes (moon ∷ mars ∷ []))))
          empty_world)
    × (IsOrdered empty_world
        → IsOrdered ((handle_payload env draws at_earth none ack_bytes no_models).1 0))
handle_payload-run_example = handle_payload-run env draws at_earth none ack_bytes no_models 0

-- Mars's ACK does not leave it.
abbrev ack_task : AckTask ℕ
ack_task = record { message = hello; socket = to_earth; local_peer_uuid = "30"; is_read = false }
