-- ===== src/Tests/Models.antt =====
-- The chat model: the tests of src/app.rs, and the theorems at its inputs.
use Prim.Native.String.{String}
use dtchat.Prelude.{ℕ, ◌≡◌, refl, false, List, [], ◌∷◌, none, All}
use dtchat.Message.{ChatMessage}
use dtchat.Model.Order.{standard, relative, arrival_time, strategy_cmp, strategy_cmp-IsOrder}
use dtchat.Slice.Order.{IsOrder}
use dtchat.Model.Events.{Hears, add_message-Hears}
use dtchat.Model.Sorted.{InOrder, inserted_late, sort_messages-IsStable}
use dtchat.Model.Runs.{Call, adds, sorts, acks, run, IsOrdered, run-sorts-IsOrdered}
use dtchat.Model.{
  World, new_model, new_handler, add_message, inserted, sort_messages, event_of, MessageDirection,
}
use dtchat.Model.History.{history, abstract_run, history-run}
use dtchat.Model.Justified.{Justified, run-Justified}
use dtchat.Timeline.{color_of, timeline, window}
use dtchat.Timeline.Bars.{Shows, bars_of, timeline-Shows}
use dtchat.Tests.Samples.{clock, earth, mars, inbound_at, outbound_at, to_peer}

abbrev start : World ℕ ℕ
start = record { model = new_model (earth ∷ mars ∷ []) earth [] none; handlers = λ j. new_handler }

abbrev fast : ChatMessage ℕ
fast = inbound_at "fast" mars 300 300

abbrev delayed : ChatMessage ℕ
delayed = inbound_at "delayed" mars 60 301

-- `delayed_arrival_sorts_to_bottom`
delayed_arrival : inserted standard delayed (inserted standard fast []) ≡ fast ∷ delayed ∷ []
unfolding inserted
delayed_arrival = refl

inserted_late_example : inserted standard delayed (fast ∷ []) ≡ fast ∷ delayed ∷ []
unfolding arrival_time
inserted_late_example = inserted_late delayed (fast ∷ []) (refl, tt)

abbrev held : World ℕ ℕ
held = record start { model = record (start.model) { messages = fast ∷ delayed ∷ [] } }

abbrev calls : List (Call ℕ)
calls =
    adds (outbound_at "m" 310 (to_peer "30" ∷ [])) MessageDirection.sent
    ∷ acks "m" "30" false 900
    ∷ sorts (relative mars)
    ∷ []

run-sorts-IsOrdered_example : IsOrdered (run (sorts (relative mars) ∷ calls) start)
run-sorts-IsOrdered_example = run-sorts-IsOrdered (relative mars) calls start

history-run_example : history (run calls held) ≡ abstract_run calls (history held)
history-run_example = history-run calls held

sort_messages-IsStable_example :
    InOrder (relative mars) (sort_messages (relative mars) held.model).messages
sort_messages-IsStable_example = (sort_messages-IsStable (relative mars) held.model).1

strategy_cmp-IsOrder_example : IsOrder (strategy_cmp {T = ℕ} standard)
strategy_cmp-IsOrder_example = strategy_cmp-IsOrder standard

add_message-Hears_example :
    Hears
      (event_of fast MessageDirection.received)
      []
      0
      new_handler
      ((add_message fast MessageDirection.received start).handlers 0)
unfolding new_model
add_message-Hears_example = add_message-Hears fast MessageDirection.received start 0

-- The one ACK that came in.
abbrev Came : String → String → ℕ → Type 0
Came u a t = (u ≡ "m") × (a ≡ "30") × (t ≡ 900)

run-Justified_example : All (Justified Came) (run calls held).model.messages
unfolding new_model
run-Justified_example =
    run-Justified Came calls held (((λ t e. cc), tt), ((refl, refl, refl), (tt, tt))) (tt, (tt, tt))

timeline-Shows_example :
    Shows
      (bars_of (λ t. t) (color_of (run calls held).model) 0 (run calls held).model.messages)
      (record { series = []; row = 0; max_end_ms = 1000 })
      (timeline (λ t. t) 1000 (run calls held).model)
    × ((window 1000 (timeline (λ t. t) 1000 (run calls held).model)).1
        ≡ (timeline (λ t. t) 1000 (run calls held).model).max_end_ms)
timeline-Shows_example = timeline-Shows (λ t. t) 1000 (run calls held).model
