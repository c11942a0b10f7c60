-- ===== src/Locks/Nested.antt =====
-- The locks of the jobs, in the order of their levels.
use mathlib.Core.List.{append-nil, append_assoc}
use dtchat.Prelude.{
  flat_map, ℕ, suc, ◌<◌, ◌≤◌, refl, Bool, true, false, if◌then◌else◌, List, [], ◌∷◌, ◌++◌, Option,
  none, some, All, All-imp, arith,
}
use dtchat.Proto.{DeserializedMessage, chat_message, ack}
use dtchat.Panel.{RoomView, table, graph, list, split}
use dtchat.App.{NavigationItems, rooms, contacts}
use dtchat.Locks.{
  Lock, controller, model, nodes, router, queue, Act, release, locked, notify_locks, predict_locks,
  Shared, on_socket_event_locks, on_ack_received_locks, receive_locks, report_locks,
  manage_send_locks, message_prompt_locks, message_graph_locks, view_locks, display_locks, Job,
  adds_model, adds_handler, receives, draws, sends, sends_copy, locks_of,
}
use dtchat.Locks.Threads.{level, Nested}

-- A thread whose locks are below `k` may do `acts` before it goes on.
abbrev Above : ℕ → List Act → Type 0
Above k acts =
    (held : List Lock) (rest : List Act)
    → All (λ h. level h < k) held
    → Nested held rest
    → Nested held (acts ++ rest)

Above-nil : (k : ℕ) → Above k []
Above-nil k held rest below nested = nested

Above-append : (k : ℕ) (xs ys : List Act) → Above k xs → Above k ys → Above k (xs ++ ys)
Above-append k xs ys a b held rest below nested =
    rw append_assoc (a held (ys ++ rest) below (b held rest below nested))

Above-locked :
    (k : ℕ) (l : Lock) (body : List Act)
    → k ≤ level l
    → Above (suc (level l)) body
    → Above k (locked l body)
Above-locked k l body le a held rest below nested =
    let lower : All (λ h. level h < level l) held = All-imp (λ h lt. omega arith) held below in
    let inside : All (λ h. level h < suc (level l)) (l ∷ held) =
      (omega arith, All-imp (λ h lt. omega arith) held lower) in
    (lower, rw append_assoc (a (l ∷ held) (release l ∷ rest) inside (refl, nested)))

Above-flat_map {ℓ} :
    {A : Type ℓ} (k : ℕ) (f : A → List Act) (xs : List A)
    → ((x : A) → Above k (f x))
    → Above k (flat_map f xs)
Above-flat_map k f [] a = Above-nil k
Above-flat_map k f (x ∷ xs) a = Above-append k (f x) (flat_map f xs) (a x) (Above-flat_map k f xs a)

Above-if :
    (k : ℕ) (b : Bool) (xs ys : List Act) → Above k xs → Above k ys → Above k (if b then xs else ys)
Above-if k true xs ys a b = a
Above-if k false xs ys a b = b

-- A lock that is taken and released at once.
Above-touch : (k : ℕ) (l : Lock) → k ≤ level l → Above k (locked l [])
Above-touch k l le = Above-locked k l [] le (Above-nil (suc (level l)))

notify-Above : (k : ℕ) (handles : List ℕ) → k ≤ 3 → Above k (notify_locks handles)
notify-Above k handles le =
    Above-flat_map k (λ h. locked (queue h) []) handles (λ h. Above-touch k (queue h) le)

predict-Above : (source dest : Option ℕ) → Above 2 (predict_locks source dest)
unfolding predict_locks
predict-Above none dest = Above-touch 2 nodes (omega arith)
predict-Above (some a) none =
    Above-append 2 (locked nodes []) (locked nodes []) (Above-touch 2 nodes (omega arith))
      (Above-touch 2 nodes (omega arith))
predict-Above (some a) (some b) =
    Above-append 2 (locked nodes []) (locked nodes [] ++ locked router [])
      (Above-touch 2 nodes (omega arith))
      (Above-append 2 (locked nodes []) (locked router []) (Above-touch 2 nodes (omega arith))
        (Above-touch 2 router (omega arith)))

module _ (s : Shared) where
  report-Above : (o : ℕ) → Above 0 (report_locks s o)
  report-Above o =
      Above-locked 0 (model o) (notify_locks (s.queues o)) (omega arith)
        (notify-Above 2 (s.queues o) (omega arith))

  on_socket_event-Above : (o : ℕ) → Above 1 (on_socket_event_locks s o)
  on_socket_event-Above o =
      Above-locked 1 (model o) (notify_locks (s.queues o)) (omega arith)
        (notify-Above 2 (s.queues o) (omega arith))

  on_ack_received-Above : (marks : Bool) (o : ℕ) → Above 1 (on_ack_received_locks s marks o)
  on_ack_received-Above marks o =
      Above-locked 1 (model o) (if marks then notify_locks (s.queues o) else []) (omega arith) (
        Above-if 2 marks (notify_locks (s.queues o)) [] (notify-Above 2 (s.queues o) (omega arith))
          (Above-nil 2))

  receive-Above :
      {T : Type 0} (marks : ℕ → Bool) (decoded : Option (DeserializedMessage T))
      → Above 0 (receive_locks s marks decoded)
  unfolding receive_locks
  receive-Above marks none = Above-touch 0 controller (omega arith)
  receive-Above marks (some (chat_message m)) =
      Above-locked 0 controller (flat_map (on_socket_event_locks s) s.models) (omega arith)
        (Above-flat_map 1 (on_socket_event_locks s) s.models on_socket_event-Above)
  receive-Above marks (some (ack uuid read at acker)) =
      Above-locked 0 controller (flat_map (λ o. on_ack_received_locks s (marks o) o) s.models)
        (omega arith)
        (Above-flat_map 1 (λ o. on_ack_received_locks s (marks o) o) s.models
          (λ o. on_ack_received-Above (marks o) o))

  manage_send-Above :
      (o : ℕ) (asks : Bool) (source : Option ℕ) (recipients : List (Option ℕ × Bool))
      → Above 0 (manage_send_locks s o asks source recipients)
  unfolding manage_send_locks
  manage_send-Above o asks source recipients =
      let asked : List Act =
        flat_map (λ (dest, made). if asks then predict_locks source dest else []) recipients in
      Above-append 0 (locked (model o) (asked ++ notify_locks (s.queues o)))
        (flat_map (λ (dest, made). if made then [] else report_locks s o) recipients)
        (Above-locked 0 (model o) (asked ++ notify_locks (s.queues o)) (omega arith) (
          Above-append 2 asked (notify_locks (s.queues o))
            (Above-flat_map 2 (λ (dest, made). if asks then predict_locks source dest else [])
              recipients
              (λ (dest, made).
                Above-if 2 asks (predict_locks source dest) [] (predict-Above source dest)
                  (Above-nil 2)))
            (notify-Above 2 (s.queues o) (omega arith))))
        (Above-flat_map 0 (λ (dest, made). if made then [] else report_locks s o) recipients
          (λ (dest, made). Above-if 0 made [] (report_locks s o) (Above-nil 0) (report-Above o)))

model-Above : (o : ℕ) → Above 0 (locked (model o) [])
model-Above o = Above-touch 0 (model o) (omega arith)

graph-Above : (o h : ℕ) → Above 0 (message_graph_locks o h)
graph-Above o h =
    Above-append 0 (locked (model o) []) (locked (queue h) []) (model-Above o)
      (Above-touch 0 (queue h) (omega arith))

view-Above : (o h : ℕ) (view : RoomView) → Above 0 (view_locks o h view)
view-Above o h table = Above-nil 0
view-Above o h graph = graph-Above o h
view-Above o h list = model-Above o
view-Above o h split =
    Above-append 0 (locked (model o) []) (message_graph_locks o h) (model-Above o) (graph-Above o h)

prompt-Above : (o h : ℕ) (sending : Bool) → Above 0 (message_prompt_locks o h sending)
prompt-Above o h sending =
    Above-append 0 (locked (queue h) []) (if sending then locked (model o) [] else [])
      (Above-touch 0 (queue h) (omega arith))
      (Above-if 0 sending (locked (model o) []) [] (model-Above o) (Above-nil 0))

display-Above :
    (o h : ℕ) (item : NavigationItems) (view : RoomView) (sending : Bool)
    → Above 0 (display_locks o h item view sending)
unfolding display_locks
display-Above o h contacts view sending = Above-nil 0
display-Above o h rooms view sending =
    let below : List Act = message_prompt_locks o h sending ++ view_locks o h view in
    Above-append 0 (locked (model o) []) (locked (model o) [] ++ below) (model-Above o) (
      Above-append 0 (locked (model o) []) below (model-Above o) (
        Above-append 0 (message_prompt_locks o h sending) (view_locks o h view)
          (prompt-Above o h sending) (view-Above o h view)))

locks_of-Above : {T : Type 0} (s : Shared) (job : Job T) → Above 0 (locks_of s job)
unfolding locks_of
locks_of-Above s adds_model = Above-touch 0 controller (omega arith)
locks_of-Above s (adds_handler o) = model-Above o
locks_of-Above s (receives marks decoded) = receive-Above s marks decoded
locks_of-Above s (draws o h item view sending) = display-Above o h item view sending
locks_of-Above s (sends o asks source recipients) = manage_send-Above s o asks source recipients
locks_of-Above s (sends_copy o is_sent) =
    Above-if 0 is_sent [] (report_locks s o) (Above-nil 0) (report-Above s o)

pub locks_of-Nested : {T : Type 0} (s : Shared) (job : Job T) → Nested [] (locks_of s job)
locks_of-Nested s job = rw (← append-nil (locks_of s job)) (locks_of-Above s job [] [] tt refl)
