-- ===== src/Prompt/Copies.antt =====
-- The copies that `manage_send` of src/layout/rooms/message_prompt.rs makes: the loops over the
-- recipients.
use Prim.Native.String.{String}
use mathlib.Core.List.{append_assoc, append-nil}
use dtchat.Prelude.{
  ℕ, ◌≡◌, refl, sym, subst, ap, ◌⊎◌, inl, inr, Bool-cases, ◌∙◌, Bool, true, List, [], ◌∷◌, ◌++◌,
  Option, none, some, replicate, filter, All, arith,
}
use dtchat.Endpoint.{Endpoint}
use dtchat.Config.{Peer}
use dtchat.Message.{ChatMessage, Delivery}
use dtchat.Socket.{Net, GenericSocket, Result, Error, ok, err, new_socket}
use dtchat.Model.{AppEvent, World, notify_observers}
use dtchat.Model.Events.{count, notify_observers-Hears}
use dtchat.Prompt.{
  Predict, SendTask, is_nil, is_recipient, deliveries_to, init_failed, spawn_or_report,
  send_to_peer, send_each,
}

module _ {T : Type 0} where
  -- One delivery for each peer, in order, not acknowledged.
  pub data Addressed : List Peer → List (Delivery T) → Type 0 where
    nobody : Addressed [] []
    also :
        (p : Peer) (ps : List Peer) (d : Delivery T) (ds : List (Delivery T))
        → d.peer_uuid ≡ p.uuid
        → d.peer_name ≡ p.name
        → d.acked_at ≡ none
        → Addressed ps ds
        → Addressed (p ∷ ps) (d ∷ ds)

  -- The copies for the peers, in order, each through a socket for the peer's first endpoint, and the
  -- errors where the system gives no socket.
  pub data Copies (net : Net) (m : ChatMessage T)
      : List Peer → List (SendTask T) → List AppEvent → Type 0 where
    done : Copies net m [] [] []
    sends :
        (p : Peer) (e : Endpoint) (eps : List Endpoint) (s : GenericSocket) (ps : List Peer)
        (ts : List (SendTask T)) (es : List AppEvent)
        → p.endpoints ≡ e ∷ eps
        → new_socket net e ≡ ok s
        → Copies net m ps ts es
        → Copies net m (p ∷ ps) (record { socket = s; message = m; peer_name = p.name } ∷ ts) es
    fails :
        (p : Peer) (e : Endpoint) (eps : List Endpoint) (x : Error) (ps : List Peer)
        (ts : List (SendTask T)) (es : List AppEvent)
        → p.endpoints ≡ e ∷ eps
        → new_socket net e ≡ err x
        → Copies net m ps ts es
        → Copies net m (p ∷ ps) ts (init_failed p.name ∷ es)

-- What a queue gets of events that are announced to an observer registered `n` times.
abbrev pub heard : ℕ → List AppEvent → List AppEvent
heard n [] = []
heard n (e ∷ es) = replicate n e ++ heard n es

-- Every peer has an endpoint.
abbrev pub HasEndpoint : Peer → Type 0
HasEndpoint p = (e : Endpoint) × (eps : List Endpoint) × (p.endpoints ≡ e ∷ eps)

is_nil-cases :
    (eps : List Endpoint)
    → (is_nil eps ≡ true) ⊎ ((e : Endpoint) × (es : List Endpoint) × (eps ≡ e ∷ es))
is_nil-cases [] = inl refl
is_nil-cases (e ∷ es) = inr (e, es, refl)

pub recipients-HasEndpoint :
    (local_uuid : String) (ps : List Peer) → All HasEndpoint (filter (is_recipient local_uuid) ps)
recipients-HasEndpoint local_uuid [] = tt
recipients-HasEndpoint local_uuid (p ∷ ps) = elim (Bool-cases (is_recipient local_uuid p)) [
  | inr other ↦ rw other (recipients-HasEndpoint local_uuid ps)
  | inl chosen ↦ elim (is_nil-cases p.endpoints) [
    | inl empty ↦ absurd (ground arith)
    | inr h ↦ rw chosen (h, recipients-HasEndpoint local_uuid ps)
  ]
]

module _ {T P : Type 0} where
  pub deliveries_to-Addressed :
      (predict : Predict T P) (pbat : Bool) (source : String) (size : ℕ) (ps : List Peer)
      (config : Option P)
      → Addressed ps (deliveries_to predict pbat source size config ps).1
  unfolding deliveries_to
  deliveries_to-Addressed predict pbat source size [] config = nobody
  deliveries_to-Addressed predict pbat source size (p ∷ ps) config =
      also p ps _ _ refl refl refl (deliveries_to-Addressed predict pbat source size ps _)

  -- The world after the copies: the same model, and the errors in the observers' queues.
  pub record Reports (es : List AppEvent) (w w' : World T P) : Type 0 where
    pub model : w'.model ≡ w.model
    pub events :
        (j : ℕ)
        → (w'.handlers j).events ≡ (w.handlers j).events ++ heard (count j w.model.observers) es

  -- What `send_each` comes to.
  abbrev pub Outcome : Net → ChatMessage T → List Peer → World T P → Type 0
  Outcome net m ps w =
      (w' : World T P) × (ts : List (SendTask T)) × (es : List AppEvent) × (send_each net m ps w
        ≡ some (w', ts))
      × Copies net m ps ts es
      × Reports es w w'

  Reports-cons :
      (e : AppEvent) (es : List AppEvent) (w w' : World T P)
      → Reports es (notify_observers e w) w'
      → Reports (e ∷ es) w w'
  unfolding notify_observers
  Reports-cons e es w w' r = record {
    model = r.model;
    events = λ j.
        r.events j
        ∙ ap (λ q. q ++ heard (count j w.model.observers) es) (notify_observers-Hears e w j).events
        ∙ append_assoc (w.handlers j).events _ _;
  }

  send_to_peer-eq-some :
      (net : Net) (m : ChatMessage T) (p : Peer) (e : Endpoint) (eps : List Endpoint)
      (w : World T P) (r : Result GenericSocket)
      → p.endpoints ≡ e ∷ eps
      → new_socket net e ≡ r
      → send_to_peer net m p w ≡ some (spawn_or_report m p.name r w)
  unfolding send_to_peer
  send_to_peer-eq-some net m p e eps w r q n =
      subst (λ x. send_with x ≡ some (spawn_or_report m p.name r w)) (sym q)
        (ap (λ x. some (spawn_or_report m p.name x w)) n)
    where
      send_with : List Endpoint → Option (World T P × List (SendTask T))
      send_with x = elim x [
        | [] ↦ none
        | endpoint ∷ more ↦ some (spawn_or_report m p.name (new_socket net endpoint) w)
      ]

  send_each-cons :
      (net : Net) (m : ChatMessage T) (p : Peer) (ps : List Peer) (e : Endpoint)
      (eps : List Endpoint) (w : World T P) (r : Result GenericSocket)
      → p.endpoints ≡ e ∷ eps
      → new_socket net e ≡ r
      → ((v : World T P) → Outcome net m ps v)
      → Outcome net m (p ∷ ps) w
  unfolding send_each spawn_or_report
  send_each-cons net m p ps e eps w (ok s) q n ih =
      let (w', ts, es, f, c, r) = ih w in
      (
        w',
        _,
        es,
        rw (send_to_peer-eq-some net m p e eps w (ok s) q n, send_each) (rw f refl),
        Copies.sends p e eps s ps ts es q n c,
        r,
      )
  send_each-cons net m p ps e eps w (err x) q n ih =
      let (w', ts, es, f, c, r) = ih (notify_observers (init_failed p.name) w) in
      (
        w',
        ts,
        init_failed p.name ∷ es,
        rw (send_to_peer-eq-some net m p e eps w (err x) q n, send_each) (rw f refl),
        Copies.fails p e eps x ps ts es q n c,
        Reports-cons (init_failed p.name) es w w' r,
      )

  pub send_each-Copies :
      (net : Net) (m : ChatMessage T) (ps : List Peer)
      → All HasEndpoint ps
      → (w : World T P) → Outcome net m ps w
  unfolding send_each
  send_each-Copies net m [] h w =
      (w, [], [], refl, Copies.done, record { model = refl; events = λ j. sym (append-nil _) })
  send_each-Copies net m (p ∷ ps) h w =
      let (e, eps, q) = h.0 in
      send_each-cons net m p ps e eps w (new_socket net e) q refl (send_each-Copies net m ps h.1)
