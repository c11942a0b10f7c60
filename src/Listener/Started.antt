-- ===== src/Listener/Started.antt =====
-- Which endpoints a node listens on (src/utils/socket.rs).
use dtchat.Prelude.{
  ◌≡◌, refl, ap, ◌∙◌, ◌⊎◌, inl, inr, Bool, Bool-cases, true, List, [], ◌∷◌, none, some, arith,
}
use dtchat.Endpoint.{Endpoint, is_valid}
use dtchat.Config.{Peer}
use dtchat.Socket.{Net, GenericSocket, ok, new_socket}
use dtchat.Socket.Made.{Result-cases, new_socket-fresh}
use dtchat.Listener.{
  ListenCall, listen_calls, grants, unchanged, start_listener, open_listener, open_listeners,
  init_controller,
}

-- A listener is started at most once, whatever comes of it: a second start makes no call and reports
-- success, also where the first one failed and nothing listens.
pub start_listener-again :
    (works works' : ListenCall → Bool) (s : GenericSocket)
    → start_listener works' (start_listener works s).0 ≡ ((start_listener works s).0, unchanged)
unfolding start_listener
start_listener-again works works' s = elim (Bool-cases s.listening) [
  | inl on ↦ rw on refl
  | inr off ↦ rw off refl
]

module _ (net : Net) (works : Endpoint → ListenCall → Bool) where
  -- An endpoint that can be listened on: a valid one, for which the system gives a socket and grants
  -- each call.
  pub record Opens (e : Endpoint) : Type 0 where
    pub valid : is_valid net.is_addr e ≡ true
    pub socket : GenericSocket
    pub made : new_socket net e ≡ ok socket
    pub granted : grants (works e) (listen_calls socket) ≡ true

  open_listener-Opens :
      (e : Endpoint)
      → ((open_listener net works e ≡ some e) × Opens e)
        ⊎ ((open_listener net works e ≡ none) × ¬ Opens e)
  unfolding open_listener start_listener
  open_listener-Opens e = elim (Bool-cases (is_valid net.is_addr e)) [
    | inr bad ↦ inr (rw bad refl, λ o. ground (arith, o.valid))
    | inl good ↦ elim (Result-cases (new_socket net e)) [
      | inl (x, h) ↦ inr (rw (good, h) refl, λ o. ground (arith, o.made))
      | inr (s, h) ↦
          let (fresh, _, _) = new_socket-fresh net e s h in
          elim (Bool-cases (grants (works e) (listen_calls s))) [
            | inl all ↦ inl (
              rw (good, h, fresh, all) refl,
              record { valid = good; socket = s; made = h; granted = all },
            )
            | inr part ↦
                inr (rw (good, h, fresh, part) refl, λ o. ground (arith, o.made, o.granted))
          ]
    ]
  ]

  -- The endpoints that can be listened on, in order, and the others left out.
  pub data Listens : List Endpoint → List Endpoint → Type 0 where
    done : Listens [] []
    opens :
        (e : Endpoint) (es ls : List Endpoint) → Opens e → Listens es ls → Listens (e ∷ es) (e ∷ ls)
    skips : (e : Endpoint) (es ls : List Endpoint) → ¬ Opens e → Listens es ls → Listens (e ∷ es) ls

  open_listeners-Listens : (es : List Endpoint) → Listens es (open_listeners net works es)
  unfolding open_listeners
  open_listeners-Listens [] = done
  open_listeners-Listens (e ∷ es) = elim (open_listener-Opens e) [
    | inl (h, o) ↦ rw (h, open_listeners) (opens e es _ o (open_listeners-Listens es))
    | inr (h, n) ↦ rw (h, open_listeners) (skips e es _ n (open_listeners-Listens es))
  ]

  -- The controller of a node knows the local peer and the others, and no model yet; the node listens
  -- on exactly those of its endpoints that can be listened on, and one that cannot does not keep the
  -- others from it.
  pub init_controller-Listens :
      (local_peer : Peer) (peers : List Peer)
      → ((init_controller net works local_peer peers).0
          ≡ record { observers = []; local_peer = some local_peer; peers = peers })
        × Listens local_peer.endpoints (init_controller net works local_peer peers).1
  unfolding init_controller
  init_controller-Listens local_peer peers = (refl, open_listeners-Listens local_peer.endpoints)

  open_listeners-one :
      (e : Endpoint) (s : GenericSocket)
      → is_valid net.is_addr e ≡ true
      → new_socket net e ≡ ok s
      → grants (works e) (listen_calls s) ≡ true
      → open_listeners net works (e ∷ []) ≡ e ∷ []
  unfolding open_listeners
  open_listeners-one e s valid made granted = elim (open_listener-Opens e) [
    | inl (h, _) ↦ rw (h, open_listeners) refl
    | inr (_, n) ↦ absurd (n (record { valid = valid; socket = s; made = made; granted = granted }))
  ]

  -- The controller and the only endpoint of a node, which can be listened on.
  pub init_controller-one :
      (local_peer : Peer) (e : Endpoint) (s : GenericSocket) (peers : List Peer)
      → local_peer.endpoints ≡ e ∷ []
      → is_valid net.is_addr e ≡ true
      → new_socket net e ≡ ok s
      → grants (works e) (listen_calls s) ≡ true
      → init_controller net works local_peer peers
        ≡ (record { observers = []; local_peer = some local_peer; peers = peers }, e ∷ [])
  unfolding init_controller
  init_controller-one local_peer e s peers one valid made granted =
      let opened = ap (open_listeners net works) one ∙ open_listeners-one e s valid made granted in
      ap (λ ls. (record { observers = []; local_peer = some local_peer; peers = peers }, ls)) opened
