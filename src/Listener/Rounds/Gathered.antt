-- ===== src/Listener/Rounds/Gathered.antt =====
-- What the tasks of the listening threads leave in a chat model (src/utils/socket.rs and src/app.rs).
use mathlib.Core.List.{Perm, append_assoc, append-nil}
use mathlib.Core.List.Perm
use mathlib.Core.Option
use mathlib.Mathlib.Data.Multiset.Defs.{of_list, coe-eq-coe}
use dtchat.Prelude.{
  ℕ, ◌≡◌, refl, sym, ap, inl, inr, Option-cases, flat_map-flat_map, flat_map-ext, ◌∙◌, List, [],
  ◌∷◌, ◌++◌, Option, none, some, map, take, flat_map, flat_map-perm, perm_between,
}
use dtchat.Time.{Instant}
use dtchat.Endpoint.{Endpoint, tcp}
use dtchat.Proto.{DeserializedMessage, chat_message, ack, deserialize_message}
use dtchat.Model.Events.{count}
use dtchat.Model.Runs.{run, IsOrdered}
use dtchat.Model.History.{Said, said, abstract_run, history, history-run}
use dtchat.Controller.{
  SocketController, Draws, Env, Models, model_observer, buffer_size, datagram_endpoint,
  handle_payload, handle_datagram,
}
use dtchat.Controller.Steps.{calls_of, repeat, handle_payload-run}
use dtchat.Controller.Transports.{handle_tcp_connection-whole}
use dtchat.Listener.Rounds.{Incoming, datagram, stream, Listening, tasks_of, run_incoming, run_each}
use dtchat.Listener.Rounds.Payloads.{payloads, payload_of, tasks_of-payloads}
use dtchat.Listener.Rounds.News.{says, news, news-any}

abstract_run-calls_of :
    {T : Type 0} (r : Option (DeserializedMessage T)) (xs : List Said)
    → abstract_run (calls_of r) (of_list xs) ≡ of_list (says r ++ xs)
abstract_run-calls_of none xs = refl
abstract_run-calls_of (some (chat_message m)) xs = refl
abstract_run-calls_of (some (ack u a t r)) xs = refl

module _ {T P : Type 0} ⦃i : Instant T⦄ (env : Env) (c : SocketController) where
  payload-history :
      (d : Draws T) (on : Option Endpoint) (payload : List ℕ) (models : Models T P) (j : ℕ)
      → count j c.observers ≡ 1
      → history ((handle_payload env d c on payload models).1 j)
        ≡ of_list (news env c d.rx_time payload ++ map said (models j).model.messages)
  payload-history d on payload models j once =
      let r = deserialize_message env.codec d.rx_time payload c.peers in
      ap history ((handle_payload-run env d c on payload models j).0)
      ∙ ap (λ n. history (run (repeat n (calls_of r)) (models j))) once
      ∙ ap (λ cs. history (run cs (models j))) (append-nil (calls_of r))
      ∙ history-run (calls_of r) (models j)
      ∙ abstract_run-calls_of r (map said (models j).model.messages)

  incoming-history :
      (t : T) (d : Draws T) (x : Incoming) (models : Models T P) (j : ℕ)
      → count j c.observers ≡ 1
      → history ((run_incoming env c d x models).1 j)
        ≡ of_list (flat_map (news env c t) (payload_of x) ++ map said (models j).model.messages)
  unfolding run_incoming handle_datagram
  incoming-history t d (datagram address bytes) models j once =
      payload-history d (some (datagram_endpoint address)) (take buffer_size bytes) models j once
      ∙ ap (λ xs. of_list (xs ++ map said (models j).model.messages))
          (news-any env c d.rx_time t (take buffer_size bytes)
            ∙ sym (append-nil (news env c t (take buffer_size bytes))))
  incoming-history t d (stream s) models j once = elim (Option-cases s.content) [
    | inl e ↦ rw e refl
    | inr (buffer, e) ↦
        rw (e, handle_tcp_connection-whole env d c s.peer_addr buffer models)
          (payload-history d (Option.map tcp s.peer_addr) buffer models j once
            ∙ ap (λ xs. of_list (xs ++ map said (models j).model.messages))
                (news-any env c d.rx_time t buffer ∙ sym (append-nil (news env c t buffer))))
  ]

  run_each-history :
      (t : T) (order : List (Incoming × Draws T)) (models : Models T P) (j : ℕ)
      → count j c.observers ≡ 1
      → history (run_each env c order models j)
        ≡ of_list (
            flat_map (λ x. flat_map (news env c t) (payload_of x)) (map (λ x. x.0) order)
            ++ map said (models j).model.messages)
  unfolding run_each
  run_each-history t [] models j once = refl
  run_each-history t ((x, d) ∷ rest) models j once =
      let says_rest =
        flat_map (λ y. flat_map (news env c t) (payload_of y)) (map (λ y. y.0) rest) in
      let says_x = flat_map (news env c t) (payload_of x) in
      let before = map said (models j).model.messages in
      let now = (coe-eq-coe {α = Said}).0 (incoming-history t d x models j once) in
      run_each-history t rest (run_incoming env c d x models).1 j once
      ∙ (coe-eq-coe {α = Said}).1 (Perm.append_left says_rest now)
      ∙ (coe-eq-coe {α = Said}).1 (perm_between says_rest says_x before)
      ∙ ap of_list (sym (append_assoc says_x says_rest before))

  incoming-IsOrdered :
      (d : Draws T) (x : Incoming) (models : Models T P) (j : ℕ)
      → IsOrdered (models j)
      → IsOrdered ((run_incoming env c d x models).1 j)
  unfolding run_incoming handle_datagram
  incoming-IsOrdered d (datagram address bytes) models j o =
      (handle_payload-run env d c (some (datagram_endpoint address)) (take buffer_size bytes) models
          j).1
        o
  incoming-IsOrdered d (stream s) models j o = elim (Option-cases s.content) [
    | inl e ↦ rw e o
    | inr (buffer, e) ↦
        rw (e, handle_tcp_connection-whole env d c s.peer_addr buffer models)
          ((handle_payload-run env d c (Option.map tcp s.peer_addr) buffer models j).1 o)
  ]

  run_each-IsOrdered :
      (order : List (Incoming × Draws T)) (models : Models T P) (j : ℕ)
      → IsOrdered (models j)
      → IsOrdered (run_each env c order models j)
  unfolding run_each
  run_each-IsOrdered [] models j o = o
  run_each-IsOrdered ((x, d) ∷ rest) models j o =
      run_each-IsOrdered rest (run_incoming env c d x models).1 j
        (incoming-IsOrdered d x models j o)

  -- Nothing that comes in is lost or shown twice. Whatever the listening threads receive, and in
  -- whatever order their tasks get hold of the controller: once all have run, a model that observes it
  -- once holds what it held before and, once for each, the chat messages that are decoded from what was
  -- received before a thread's first error, that is from the first 1024 bytes of each datagram and from
  -- each stream that could be read to its end; and it is in order if it was.
  pub run_each-gathers :
      (threads : List Listening) (order : List (Incoming × Draws T)) (models : Models T P) (j : ℕ)
      → Perm (map (λ x. x.0) order) (flat_map tasks_of threads)
      → count j c.observers ≡ 1
      → (t : T)
      → (history (run_each env c order models j)
          ≡ of_list (
              flat_map (news env c t) (flat_map payloads threads)
              ++ map said (models j).model.messages))
        × (IsOrdered (models j) → IsOrdered (run_each env c order models j))
  run_each-gathers threads order models j all once t =
      let heard : Incoming → List Said = λ x. flat_map (news env c t) (payload_of x) in
      let before = map said (models j).model.messages in
      let same : flat_map heard (flat_map tasks_of threads)
          ≡ flat_map (news env c t) (flat_map payloads threads) =
        sym (flat_map-flat_map (news env c t) payload_of (flat_map tasks_of threads))
        ∙ ap (flat_map (news env c t)) (
            flat_map-flat_map payload_of tasks_of threads
            ∙ flat_map-ext _ payloads tasks_of-payloads threads) in
      (
        run_each-history t order models j once
            ∙ (coe-eq-coe {α = Said}).1 (Perm.append_right before (flat_map-perm heard all))
            ∙ ap (λ xs. of_list (xs ++ before)) same,
        run_each-IsOrdered order models j,
      )
