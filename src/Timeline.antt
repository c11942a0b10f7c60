-- ===== src/Timeline.antt =====
-- The timeline of src/layout/rooms/views/message_graph.rs: the bars that it draws for the messages and
-- the part of the time axis that it shows. The drawing is left out. Times are whole milliseconds since
-- the epoch, which `f64` holds exactly; `millis` is `timestamp_millis`.
pub mod Bars
pub mod Labels
use Prim.Native.String
use Prim.Native.String.{String}
use dtchat.Prelude.{
  ℕ, ◌+◌, ◌-◌, ◌*◌, ℤ, pos, negsuc, Bool, true, false, List, [], ◌∷◌, ◌++◌, Option, none, some,
  is_some, leb, ltb, String_eq, ◌==◌, if◌then◌else◌, ◌or_else◌, find,
}
use dtchat.Config.{Peer, Color32, gray, get_color}
use dtchat.Message.{ChatMessage, Delivery, sent, received}
use dtchat.Model.{ChatModel}

abbrev pub window_duration_ms : ℕ
window_duration_ms = 300000

abbrev pub min_bar_ms : ℕ
min_bar_ms = 500

abbrev pub visible_rows : ℕ
visible_rows = 12

abbrev pub max_ms : ℕ → ℕ → ℕ
max_ms a b = if leb a b then b else a

-- A bar with the peer whose series it joins.
pub record Bar : Type 0 where
  pub peer_uuid : String
  pub peer_name : String
  pub color : Color32
  pub row : ℕ
  pub start_ms : ℕ
  pub end_ms : ℕ
  pub confirmed : Bool
  pub label : String

pub record Series : Type 0 where
  pub name : String
  pub color : Color32
  pub elems : List Bar

-- `push_bar`, on the map of series as a list of pairs with different keys.
pub push_bar : Bar → List (String × Series) → List (String × Series)
push_bar b [] = (b.peer_uuid, record { name = b.peer_name; color = b.color; elems = b ∷ [] }) ∷ []
push_bar b ((uuid, s) ∷ series) =
    let rest = push_bar b series in
    if uuid == b.peer_uuid
    then (uuid, record s { elems = s.elems ++ b ∷ [] }) ∷ series
    else (uuid, s) ∷ rest

-- What the loop over the messages changes.
pub record Timeline : Type 0 where
  pub series : List (String × Series)
  pub row : ℕ
  pub max_end_ms : ℕ

-- The end of each branch: the bar is pushed, the furthest end and the next row follow.
pub add_bar : Bar → Timeline → Timeline
unfolding push_bar
add_bar b t = record {
  series = push_bar b t.series;
  row = t.row + 1;
  max_end_ms = max_ms t.max_end_ms b.end_ms;
}

module _ {T : Type 0} (millis : T → ℕ) (color_of : String → Color32) where
  -- `predicted_arrival.or(acked_at)` in milliseconds, or the start; at least the shortest bar.
  pub delivery_end : ℕ → Delivery T → ℕ
  delivery_end start d = elim (d.predicted_arrival or_else d.acked_at) [
    | none ↦ max_ms start (start + min_bar_ms)
    | some t ↦ max_ms (millis t) (start + min_bar_ms)
  ]

  pub delivery_bar : String → ℕ → ℕ → Delivery T → Bar
  unfolding delivery_end
  delivery_bar text start row d = record {
    peer_uuid = d.peer_uuid;
    peer_name = d.peer_name;
    color = color_of d.peer_uuid;
    row = row;
    start_ms = start;
    end_ms = delivery_end start d;
    confirmed = is_some d.acked_at;
    label = String.◌++◌ text (String.◌++◌ " -> " d.peer_name);
  }

  pub received_bar : ChatMessage T → T → T → ℕ → Bar
  unfolding get_color
  received_bar m tx rx row = record {
    peer_uuid = m.sender.uuid;
    peer_name = m.sender.name;
    color = get_color m.sender;
    row = row;
    start_ms = millis tx;
    end_ms = max_ms (millis rx) (millis tx + min_bar_ms);
    confirmed = true;
    label = m.text;
  }

  -- The loop over the deliveries of a message.
  pub add_deliveries : String → ℕ → List (Delivery T) → Timeline → Timeline
  unfolding add_bar delivery_bar
  add_deliveries text start [] t = t
  add_deliveries text start (d ∷ ds) t =
      add_deliveries text start ds (add_bar (delivery_bar text start t.row d) t)

  -- One message, and the loop over all.
  pub add_message_bars : ChatMessage T → Timeline → Timeline
  unfolding add_bar received_bar add_deliveries
  add_message_bars m t = elim m.shipment_status [
    | received tx rx ↦ add_bar (received_bar m tx rx t.row) t
    | sent tx ds ↦ add_deliveries m.text (millis tx) ds t
  ]

  pub add_messages : List (ChatMessage T) → Timeline → Timeline
  unfolding add_message_bars
  add_messages [] t = t
  add_messages (m ∷ ms) t = add_messages ms (add_message_bars m t)

-- `color_of`: the colour of a peer or of ourselves, else gray.
pub color_of : {T P : Type 0} → ChatModel T P → String → Color32
unfolding get_color
color_of m uuid = elim (find (λ p. p.uuid == uuid) (m.peers ++ m.localpeer ∷ [])) [
  | none ↦ gray
  | some p ↦ get_color p
]

-- The bars that `show` draws.
pub timeline : {T P : Type 0} → (T → ℕ) → ℕ → ChatModel T P → Timeline
unfolding add_messages color_of
timeline millis now_ms m =
    add_messages millis (color_of m) m.messages
      (record { series = []; row = 0; max_end_ms = now_ms })

-- The window of the time axis: `f64` goes below zero, which a time since the epoch does not.
pub window : ℕ → Timeline → ℕ × ℕ
window now_ms t =
    let window_end_ms = max_ms now_ms t.max_end_ms in
    (window_end_ms - window_duration_ms, window_end_ms)

-- `y_lo` and `y_hi`, in halves.
rows_shown : Timeline → ℤ × ℤ
rows_shown t = (
  if ltb visible_rows t.row then pos (2 * (t.row - visible_rows) + 1) else negsuc 0,
  pos (2 * t.row + 1),
)
