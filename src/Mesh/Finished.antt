-- ===== src/Mesh/Finished.antt =====
-- The assertions of src/mesh_integration.rs when all has arrived.
use Prim.Native.String.{String}
use package.text.Mathlib.TextEquality.{eq_iff}
use mathlib.Core.Option
use dtchat.Prelude.{
  ℕ, ◌-◌, ◌≤◌, ◌<◌, ◌≡◌, ◌≢◌, ◌⊎◌, refl, ap, inl, inr, true, false, List, [], ◌∷◌, none, some,
  get_elem?, length, All, ℕ_eq, String_eq, ◌==◌, arith,
}
use dtchat.Time.{Instant}
use dtchat.Endpoint.{Endpoint}
use dtchat.Message.{ChatMessage}
use dtchat.Proto.{construct_proto_message}
use dtchat.Proto.RoundTrip.{OnWire}
use dtchat.Socket.{send}
use dtchat.Socket.Made.{new_socket-fresh}
use dtchat.Listener.Started.{Opens}
use dtchat.Mesh.{
  new_recorder, message_count, ack_count, System, Mesh, Arrival, deliver_each, send_copies, node_b,
  node_c, mesh_nodes, mesh_message, run_mesh_round_trip, passes,
}
use dtchat.Mesh.Parts.{Fits, start_node-listening, send_copy-one}
use dtchat.Mesh.Flights.{Tag, to_b, to_c, reply, total, to_come, Carried}
use dtchat.Mesh.Heard.{Heard}
use dtchat.Mesh.Passing.{Acks, Holds, Carries, nodes, copy_bytes, deliver_each-Holds}

module _ {T : Type 0} where
  first_text :
      (text : String) (ms : List (ChatMessage T))
      → length ms ≡ 1
      → All (λ m. m.text ≡ text) ms
      → (elim (get_elem? ms 0) [ none ↦ false | some m ↦ m.text == text ]) ≡ true
  first_text text [] e a = absurd (omega arith)
  first_text text (m ∷ ms) e a = (eq_iff m.text text).1 a.0

  -- With nothing in flight, all assertions hold.
  Heard-passes :
      (ep_a ep_b ep_c : Endpoint) (uuid : String) (now : T) (s : Mesh T)
      → Heard uuid (mesh_message ep_a ep_b ep_c uuid now).text s.recorders []
      → passes ep_a ep_b ep_c uuid now s ≡ true
  unfolding passes message_count total
  Heard-passes ep_a ep_b ep_c uuid now s h =
      let one_b : length (s.recorders 1).messages ≡ 1 = omega (arith, h.at_b) in
      ground (
        arith,
        h.quiet,
        h.replies,
        h.at_c,
        first_text (mesh_message ep_a ep_b ep_c uuid now).text (s.recorders 1).messages one_b
            h.text_b,
      )

nothing_left : {A : Type 0} (C : Tag → A → Type 0) (os : List A) → Carried C [] os → os ≡ []
nothing_left C [] h = refl
nothing_left C (o ∷ os) h = absurd h

something_left :
    {A : Type 0} (C : Tag → A → Type 0) (t : Tag) (ts : List Tag) (os : List A)
    → Carried C (t ∷ ts) os
    → os ≢ []
something_left C t ts [] h e = h
something_left C t ts (o ∷ os) h e = cc

to_come-pos : (t : Tag) → 0 < to_come t
to_come-pos to_b = omega arith
to_come-pos to_c = omega arith
to_come-pos reply = omega arith

module _ {T : Type 0} ⦃i : Instant T⦄ (sys : System) (ep_a ep_b ep_c : Endpoint) (uuid : String)
    (now tx : T) (o_a : Opens sys.env.net sys.grants_listening ep_a)
    (o_b : Opens sys.env.net sys.grants_listening ep_b)
    (o_c : Opens sys.env.net sys.grants_listening ep_c) where
  -- The two copies in flight, and nothing heard yet.
  abbrev pub fanned_out : Mesh T
  fanned_out = record {
    recorders = λ o. new_recorder;
    flying =
        record { socket = o_b.socket; bytes = copy_bytes sys ep_a ep_b ep_c uuid now tx }
        ∷ record { socket = o_c.socket; bytes = copy_bytes sys ep_a ep_b ep_c uuid now tx }
        ∷ [];
  }

  mesh_nodes-nodes : mesh_nodes ep_a ep_b ep_c sys ≡ nodes sys ep_a ep_b ep_c uuid now tx
  mesh_nodes-nodes =
      rw
        (
          start_node-listening sys ep_a o_a.socket o_a.valid o_a.made 0 "10" "earth" 2 _
              o_a.granted,
          start_node-listening sys ep_b o_b.socket o_b.valid o_b.made 1 "20" "moon" 3 _ o_b.granted,
          start_node-listening sys ep_c o_c.socket o_c.valid o_c.made 2 "30" "mars" 1 _ o_c.granted,
        )
        refl

  fanned_out-Holds : Holds sys ep_a ep_b ep_c uuid now tx fanned_out (to_b ∷ to_c ∷ [])
  unfolding message_count ack_count total
  fanned_out-Holds = record {
    carried = (
      ((new_socket-fresh sys.env.net ep_b o_b.socket o_b.made).1, refl),
      (((new_socket-fresh sys.env.net ep_c o_c.socket o_c.made).1, refl), tt),
    );
    heard = record { quiet = refl; replies = refl; at_b = refl; at_c = refl; text_b = tt };
  }

  -- What holds of a state of the test after so many arrivals.
  Holds-finished :
      (s : Mesh T) (ts : List Tag) (n : ℕ)
      → Holds sys ep_a ep_b ep_c uuid now tx s ts
      → total to_come ts ≡ total to_come (to_b ∷ to_c ∷ []) - n
      → ((n < 4) × (s.flying ≢ []))
        ⊎ ((4 ≤ n) × (s.flying ≡ []) × (passes ep_a ep_b ep_c uuid now s ≡ true))
  unfolding total
  Holds-finished s [] n h e = inr (
    omega (arith, e),
    nothing_left (Carries sys ep_a ep_b ep_c uuid now tx) s.flying h.carried,
    Heard-passes ep_a ep_b ep_c uuid now s h.heard,
  )
  Holds-finished s (t ∷ ts) n h e = inl (
    omega (arith, e, to_come-pos t),
    something_left (Carries sys ep_a ep_b ep_c uuid now tx) t ts s.flying h.carried,
  )

  send_copies-two :
      (send sys.grants_sending o_b.socket (copy_bytes sys ep_a ep_b ep_c uuid now tx)).1 ≡ true
      → (send sys.grants_sending o_c.socket (copy_bytes sys ep_a ep_b ep_c uuid now tx)).1 ≡ true
      → send_copies sys
          (mesh_message ep_a ep_b ep_c uuid now)
          (node_b ep_a ep_b ep_c ∷ node_c ep_a ep_b ep_c ∷ [])
        ≡ some fanned_out.flying
  unfolding send_copies
  send_copies-two sends_b sends_c =
      let m = mesh_message ep_a ep_b ep_c uuid now in
      rw (send_copy-one sys ep_b o_b.socket o_b.valid o_b.made m "20" "moon" 3 sends_b, send_copies)
        (rw
          (
            send_copy-one sys ep_c o_c.socket o_c.valid o_c.made m "30" "mars" 1 sends_c,
            send_copies,
          )
          refl)

  -- The mesh test passes on every schedule: three nodes with different endpoints that can be listened on
  -- are started, and the first sends to the others. In whatever order the payloads in flight arrive,
  -- fewer than four leave something in flight, and after four nothing is left and all assertions hold;
  -- at no time has the first node heard a message. The system grants the calls of the senders, the crates
  -- work for the message and for its ACKs, and these fit into the buffer of their listener.
  pub run_mesh_round_trip-passes :
      (as' : List (Arrival T))
      → (ep_a ≢ ep_b) × (ep_a ≢ ep_c) × (ep_b ≢ ep_c)
      → (send sys.grants_sending o_b.socket (copy_bytes sys ep_a ep_b ep_c uuid now tx)).1 ≡ true
      → (send sys.grants_sending o_c.socket (copy_bytes sys ep_a ep_b ep_c uuid now tx)).1 ≡ true
      → OnWire sys.env.codec (construct_proto_message (mesh_message ep_a ep_b ep_c uuid now))
      → i.of_millis (i.millis now) ≡ some tx
      → Fits ep_b (copy_bytes sys ep_a ep_b ep_c uuid now tx)
        × Fits ep_c (copy_bytes sys ep_a ep_b ep_c uuid now tx)
      → All
          (λ a.
            Acks sys ep_a ep_b ep_c uuid now tx o_a.socket a "20"
            × Acks sys ep_a ep_b ep_c uuid now tx o_a.socket a "30")
          as'
      → (s : Mesh T) × (run_mesh_round_trip ep_a ep_b ep_c uuid now sys as' ≡ some s)
        × (message_count (s.recorders 0) ≡ 0)
        × (((length as' < 4) × (s.flying ≢ []))
            ⊎ ((4 ≤ length as') × (s.flying ≡ []) × (passes ep_a ep_b ep_c uuid now s ≡ true)))
  unfolding run_mesh_round_trip
  run_mesh_round_trip-passes as' apart sends_b sends_c wire sent_at fits acks =
      let (ts, h, e) =
        deliver_each-Holds sys ep_a ep_b ep_c uuid now tx o_a.socket apart o_a.valid o_a.made wire
          sent_at fits as' fanned_out (to_b ∷ to_c ∷ []) fanned_out-Holds acks in
      (
        deliver_each sys (mesh_nodes ep_a ep_b ep_c sys) as' fanned_out,
        ap
            (Option.map (λ os.
              deliver_each sys (mesh_nodes ep_a ep_b ep_c sys) as'
                (record { recorders = λ o. new_recorder; flying = os })))
            (send_copies-two sends_b sends_c),
        rw mesh_nodes-nodes h.heard.quiet,
        rw mesh_nodes-nodes (Holds-finished _ ts (length as') h e),
      )
