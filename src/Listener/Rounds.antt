-- ===== src/Listener/Rounds.antt =====
-- The loops of the listening threads and the tasks that they spawn: `start_listener` and
-- `handle_tcp_connection` of src/utils/socket.rs. What the system answers is a parameter.
pub mod Payloads
pub mod News
pub mod Gathered
use Prim.Native.String.{String}
use dtchat.Prelude.{ℕ, ◌+◌, Bool, true, false, List, [], ◌∷◌, ◌++◌, Option, none, some, map}
use dtchat.Time.{Instant}
use dtchat.Controller.{
  SocketController, Draws, Env, Outgoing, SocketObserver, handle_datagram, handle_tcp_connection,
}

-- What a call of a nonblocking socket gives: a result, `WouldBlock`, or another error.
pub data Answer {ℓ} (A : Type ℓ) : Type ℓ where
  got : A → Answer A
  would_block failed : Answer A

-- A loop: what it spawned tasks for, the milliseconds that it slept, and whether it has ended.
pub record Loop {ℓ} (A : Type ℓ) : Type ℓ where
  pub spawned : List A
  pub slept : ℕ
  pub ended : Bool

-- The loop with the answers so far; after an error it makes no further call.
unfoldable pub listen_loop {ℓ} : {A : Type ℓ} → List (Answer A) → Loop A
listen_loop [] = record { spawned = []; slept = 0; ended = false }
listen_loop (got x ∷ answers) =
    let rest = listen_loop answers in record rest { spawned = x ∷ rest.spawned }
listen_loop (would_block ∷ answers) =
    let rest = listen_loop answers in record rest { slept = rest.slept + 10 }
listen_loop (failed ∷ answers) = record { spawned = []; slept = 0; ended = true }

-- An accepted stream: the address of the other side, where the system has it, and what is read to its
-- end, where that succeeds.
pub record Stream : Type 0 where
  pub peer_addr : Option String
  pub content : Option (List ℕ)

-- What a task is spawned for.
pub data Incoming : Type 0 where
  datagram : (address : String) → (bytes : List ℕ) → Incoming
  stream : Stream → Incoming

-- A listening thread: of datagrams, at an address, or of streams.
pub data Listening : Type 0 where
  reads : (address : String) → List (Answer (List ℕ)) → Listening
  accepts : List (Answer Stream) → Listening

-- The tasks that a listening thread has spawned.
unfoldable pub tasks_of : Listening → List Incoming
unfolding listen_loop
tasks_of (reads address answers) =
    map (λ bytes. datagram address bytes) (listen_loop answers).spawned
tasks_of (accepts answers) = map stream (listen_loop answers).spawned

module _ {T O : Type 0} ⦃i : Instant T⦄ ⦃ob : SocketObserver T O⦄ (env : Env)
    (c : SocketController) where
  -- A task, with the guard of the controller.
  pub run_incoming : Draws T → Incoming → (ℕ → O) → Option Outgoing × (ℕ → O)
  unfolding handle_datagram handle_tcp_connection
  run_incoming d (datagram address bytes) observed = handle_datagram env d c address bytes observed
  run_incoming d (stream s) observed = elim s.content [
    | none ↦ (none, observed)
    | some buffer ↦ handle_tcp_connection env d c s.peer_addr buffer observed
  ]

  -- Tasks in the order in which they get the guard.
  pub run_each : List (Incoming × Draws T) → (ℕ → O) → (ℕ → O)
  unfolding run_incoming
  run_each [] observed = observed
  run_each ((x, d) ∷ rest) observed = run_each rest (run_incoming d x observed).1
