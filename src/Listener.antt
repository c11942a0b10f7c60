-- ===== src/Listener.antt =====
-- Starting to listen: `start_listener` and `init_controller` of src/utils/socket.rs. The loops of the
-- listening threads stand in Rounds.
pub mod Started
pub mod Rounds
use dtchat.Prelude.{ℕ, Bool, true, false, List, [], ◌∷◌, ◌++◌, Option, none, some, if◌then◌else◌}
use dtchat.Endpoint.{Endpoint, udp, tcp, bp, is_valid}
use dtchat.Config.{Peer}
use dtchat.Socket.{Net, GenericSocket, SockAddr, Result, Error, ok, err, other, new_socket}
use dtchat.Controller.{SocketController, new_controller, set_peers, set_local_peer}

-- The calls of the system that precede the loop of a listener.
pub data ListenCall : Type 0 where
  set_nonblocking set_reuse_address : ListenCall
  bind : SockAddr → ListenCall
  listen : (backlog : ℕ) → ListenCall
  try_clone : ListenCall

-- The loop that reads datagrams, or the one that accepts streams, at the listening address.
unfoldable pub listen_calls : GenericSocket → List ListenCall
listen_calls s = elim s.eidpoint [
  | udp addr ↦ set_nonblocking ∷ set_reuse_address ∷ bind s.sockaddr ∷ try_clone ∷ []
  | bp addr ↦ set_nonblocking ∷ set_reuse_address ∷ bind s.sockaddr ∷ try_clone ∷ []
  | tcp addr ↦ set_nonblocking ∷ set_reuse_address ∷ bind s.sockaddr ∷ listen 128 ∷ try_clone ∷ []
]

-- Each call is made if those before it succeed.
unfoldable pub grants : (ListenCall → Bool) → List ListenCall → Bool
grants works [] = true
grants works (c ∷ cs) = if works c then grants works cs else false

-- What a start comes to: the loop runs, there was nothing to do, or a call failed.
pub data Start : Type 0 where
  running unchanged failed : Start

-- `start_listener`, which marks the socket as listening before it makes the calls.
pub start_listener : (ListenCall → Bool) → GenericSocket → GenericSocket × Start
unfolding listen_calls grants
start_listener works s =
    if s.listening
    then (s, unchanged)
    else (record s { listening = true }, if grants works (listen_calls s) then running else failed)

module _ (net : Net) (works : Endpoint → ListenCall → Bool) where
  -- One endpoint of `init_controller`: the endpoint that is listened on, if any.
  unfoldable pub open_listener : Endpoint → Option Endpoint
  unfolding start_listener
  open_listener e =
      if is_valid net.is_addr e
      then (elim (new_socket net e) [
        | err x ↦ none
        | ok s ↦ elim (start_listener (works e) s).1 [
          | running ↦ some e
          | unchanged ↦ none
          | failed ↦ none
        ]
      ])
      else none

  -- The loop over the local endpoints.
  pub open_listeners : List Endpoint → List Endpoint
  open_listeners [] = []
  open_listeners (e ∷ es) =
      let rest = open_listeners es in elim (open_listener e) [ none ↦ rest | some l ↦ l ∷ rest ]

  -- `init_controller`: the controller, and the endpoints that it listens on. It never fails.
  unfoldable pub init_controller : Peer → List Peer → SocketController × List Endpoint
  unfolding open_listeners set_peers set_local_peer new_controller
  init_controller local_peer peers = (
    set_peers peers (set_local_peer local_peer new_controller),
    open_listeners local_peer.endpoints,
  )
