-- ===== src/Tests/Rounds.antt =====
-- What two listening threads of mars receive, and their tasks in another order.
use mathlib.Core.List.Perm
use mathlib.Mathlib.Data.Multiset.Defs.{of_list}
use dtchat.Prelude.{ℕ, ◌≡◌, refl, false, List, [], ◌∷◌, ◌++◌, none, some, flat_map}
use dtchat.Model.{new_model}
use dtchat.Model.Runs.{IsOrdered}
use dtchat.Model.History.{history}
use dtchat.Controller.{model_observer, Draws}
use dtchat.Listener.Rounds.{
  got, would_block, failed, Stream, Incoming, datagram, stream, Listening, reads, accepts, tasks_of,
  run_each,
}
use dtchat.Listener.Rounds.Payloads.{payloads}
use dtchat.Listener.Rounds.News.{news}
use dtchat.Listener.Rounds.Gathered.{run_each-gathers}
use dtchat.Tests.Samples.{clock}
use dtchat.Tests.Codecs.{coded, draws, env, at_mars, no_models}

-- A stream that breaks off, and one with a message.
abbrev broken : Stream
broken = record { peer_addr = none; content = none }

abbrev whole : Stream
whole = record { peer_addr = some "10.0.0.1:7"; content = some (coded false) }

-- The socket of datagrams fails after the first.
abbrev threads : List Listening
threads =
    reads "ipn:30.2" (would_block ∷ got (coded false) ∷ failed ∷ got (coded false) ∷ [])
    ∷ accepts (got broken ∷ would_block ∷ got whole ∷ [])
    ∷ []

abbrev later : Draws ℕ
later = record { rx_time = 950; ack_time = 960; ack_uuid = "b" }

abbrev order : List (Incoming × Draws ℕ)
order =
    (stream broken, draws) ∷ (datagram "ipn:30.2" (coded false), later) ∷ (stream whole, draws) ∷ []

run_each-gathers_example :
    (history (run_each env at_mars order no_models 0)
      ≡ of_list (flat_map (news {T = ℕ} env at_mars 900) (flat_map payloads threads) ++ []))
    × (IsOrdered (no_models 0) → IsOrdered (run_each env at_mars order no_models 0))
unfolding tasks_of new_model
run_each-gathers_example =
    run_each-gathers env at_mars threads order no_models 0 (Perm.swap _ _ _) refl 900
