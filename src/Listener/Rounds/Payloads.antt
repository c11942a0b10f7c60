-- ===== src/Listener/Rounds/Payloads.antt =====
-- The payloads that the listening threads of src/utils/socket.rs receive, and the tasks for them.
use Prim.Native.String.{String}
use dtchat.Prelude.{ℕ, ◌≡◌, refl, ap, List, [], ◌∷◌, ◌++◌, none, some, map, take, flat_map}
use dtchat.Controller.{model_observer, buffer_size}
use dtchat.Listener.Rounds.{
  Answer, got, would_block, failed, listen_loop, Stream, Incoming, datagram, stream, Listening,
  reads, accepts, tasks_of,
}

-- The results before the first error, in order.
abbrev pub results {ℓ} : {A : Type ℓ} → List (Answer A) → List A
results [] = []
results (got x ∷ answers) = x ∷ results answers
results (would_block ∷ answers) = results answers
results (failed ∷ answers) = []

-- The payloads that a listening thread receives: the part of a datagram that fits into the buffer, and
-- a stream that is read to its end.
abbrev pub payload_of_stream : Stream → List (List ℕ)
payload_of_stream s = elim s.content [ none ↦ [] | some buffer ↦ buffer ∷ [] ]

abbrev pub payloads : Listening → List (List ℕ)
payloads (reads address answers) = map (take buffer_size) (results answers)
payloads (accepts answers) = flat_map payload_of_stream (results answers)

-- The payload of a task, if it has one.
abbrev pub payload_of : Incoming → List (List ℕ)
payload_of (datagram address bytes) = take buffer_size bytes ∷ []
payload_of (stream s) = payload_of_stream s

datagrams-payloads :
    (address : String) (answers : List (Answer (List ℕ)))
    → flat_map payload_of (tasks_of (reads address answers)) ≡ payloads (reads address answers)
unfolding tasks_of listen_loop
datagrams-payloads address [] = refl
datagrams-payloads address (got bytes ∷ answers) =
    ap (λ ps. take buffer_size bytes ∷ ps) (datagrams-payloads address answers)
datagrams-payloads address (would_block ∷ answers) = datagrams-payloads address answers
datagrams-payloads address (failed ∷ answers) = refl

streams-payloads :
    (answers : List (Answer Stream))
    → flat_map payload_of (tasks_of (accepts answers)) ≡ payloads (accepts answers)
unfolding tasks_of listen_loop
streams-payloads [] = refl
streams-payloads (got s ∷ answers) = ap (λ ps. payload_of_stream s ++ ps) (streams-payloads answers)
streams-payloads (would_block ∷ answers) = streams-payloads answers
streams-payloads (failed ∷ answers) = refl

pub tasks_of-payloads : (l : Listening) → flat_map payload_of (tasks_of l) ≡ payloads l
tasks_of-payloads (reads address answers) = datagrams-payloads address answers
tasks_of-payloads (accepts answers) = streams-payloads answers
