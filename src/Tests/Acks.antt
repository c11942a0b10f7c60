-- ===== src/Tests/Acks.antt =====
-- ACKs: `ack_marks_only_matching_delivery` of src/app.rs, and the theorems at its inputs.
use dtchat.Prelude.{ℕ, ◌≤◌, ◌≡◌, refl, false, true, [], ◌∷◌, none, some, length}
use dtchat.Endpoint.{bp}
use dtchat.Message.{ChatMessage, acked, mark_first, mark_ack}
use dtchat.Message.Marks.{acked-mark_first}
use dtchat.Model.{World, new_model, new_handler, on_ack_received}
use dtchat.Model.Acks.{HasOutcome, on_ack_received-HasOutcome}
use dtchat.Controller.{choose_ack_endpoint}
use dtchat.Controller.Endpoints.{Chooses, choose_ack_endpoint-Chooses}
use dtchat.Tests.Samples.{clock, earth, moon, mars, outbound_at, to_peer}

abbrev waiting : ChatMessage ℕ
waiting = outbound_at "m" 310 (to_peer "20" ∷ to_peer "30" ∷ [])

abbrev world : World ℕ ℕ
world = record {
  model = record (new_model (moon ∷ mars ∷ []) earth [] none) {
    messages = waiting ∷ [];
    observers = 0 ∷ [];
  };
  handlers = λ j. new_handler;
}

ack_marks_only_matching_delivery :
    ((mark_ack waiting "21" 900).1 ≡ false) × ((mark_ack waiting "30" 900).1 ≡ true)
unfolding mark_ack
ack_marks_only_matching_delivery = (refl, refl)

acked-mark_first_example :
    (acked (to_peer "20" ∷ []) ≤ acked (mark_first "20" 900 (to_peer "20" ∷ [])).0)
    × (acked (mark_first "20" 900 (to_peer "20" ∷ [])).0
        ≤ length (mark_first "20" 900 (to_peer "20" ∷ [])).0)
    × (length (mark_first "20" 900 (to_peer "20" ∷ [])).0 ≡ 1)
acked-mark_first_example = acked-mark_first "20" 900 (to_peer "20" ∷ [])

on_ack_received-HasOutcome_example :
    HasOutcome "m" "30" 900 false world (on_ack_received "m" "30" false 900 world)
on_ack_received-HasOutcome_example = on_ack_received-HasOutcome "m" "30" 900 false world

choose_ack_endpoint-Chooses_example :
    Chooses
      (λ addr. true)
      moon.endpoints
      (some (bp "ipn:10.2"))
      (choose_ack_endpoint (λ addr. true) moon (some (bp "ipn:10.2")))
choose_ack_endpoint-Chooses_example =
    choose_ack_endpoint-Chooses (λ addr. true) moon (some (bp "ipn:10.2"))
