-- ===== src/App/Views.antt =====
-- The message list and the timeline as the window shows them, `show` of
-- src/layout/rooms/views/message_list.rs and message_graph.rs, and the central panel of src/layout/ui.rs.

use dtchat.Prelude.{
  ℕ, ◌+◌, Bool, not, ◌&&◌, ◌||◌, List, [], ◌∷◌, ◌++◌, Option, none, some, map, ℕ_eq, String_eq, ltb,
  if◌then◌else◌,
}
use dtchat.Time.{Instant}
use dtchat.Config.{Peer, get_color}
use dtchat.Message.{ChatMessage}
use dtchat.Model.{ChatModel, sort_messages}
use dtchat.Model.Order.{SortStrategy, standard, relative}
use dtchat.Panel.{RoomView, table, graph, list, split, MessagePanel}
use dtchat.MessageList.{get_str_for_strat, avatar_letter, timestamps_str}
use dtchat.Timeline.{timeline, window}
use dtchat.App.{
  Button, by_standard, by_local, by_peer, reset_view, Input, Row, Part, table_view, list_view,
  graph_view,
}

-- The peers of the menu, with their places.
clicked_peer : (Button → Bool) → ℕ → List Peer → Option Peer → Option Peer
clicked_peer clicked k [] found = found
clicked_peer clicked k (p ∷ ps) found =
    clicked_peer clicked (k + 1) ps (if clicked (by_peer k) then some p else found)

-- The strategies by which the menu of `MessageListView::show` sorts, in order: of the peers that were
-- clicked the last one counts.
pub chosen_sorts : (Button → Bool) → Peer → List Peer → List SortStrategy
unfolding clicked_peer
chosen_sorts clicked localpeer peers =
    (if clicked by_standard then standard ∷ [] else [])
    ++ ((if clicked by_local then relative localpeer ∷ [] else [])
        ++ elim (clicked_peer clicked 0 peers none) [ none ↦ [] | some p ↦ relative p ∷ [] ])

pub row_of : {T : Type 0} ⦃i : Instant T⦄ → ChatMessage T → Row
unfolding get_color
row_of m = record {
  letter = avatar_letter m.sender.name;
  color = get_color m.sender;
  name = m.sender.name;
  timestamps = timestamps_str m.shipment_status;
  text = m.text;
}

module _ {T P : Type 0} ⦃i : Instant T⦄ where
  unfoldable pub sort_each : List SortStrategy → ChatModel T P → ChatModel T P
  unfolding sort_messages
  sort_each [] m = m
  sort_each (s ∷ ss) m = sort_each ss (sort_messages s m)

  -- `MessageListView::show`: the button has the strategy of before, the rows are those of afterwards.
  unfoldable pub show_list : (Button → Bool) → ChatModel T P → ChatModel T P × Part
  unfolding sort_each chosen_sorts row_of
  show_list clicked m =
      let m' = sort_each (chosen_sorts clicked m.localpeer m.peers) m in
      (m', list_view (get_str_for_strat m.localpeer.uuid m.sort_strategy) (map row_of m'.messages))

  -- `MessageGraphView::show`: a click resumes, and the plot follows the messages until the user pans it.
  pub show_graph : (T → ℕ) → Input T → ChatModel T P → MessagePanel → MessagePanel × Part
  show_graph millis input m panel =
      let t = timeline millis input.now_ms m in
      let resumed = input.clicked reset_view || panel.graph_track_live in
      let track_live = resumed && not input.panned in
      (
        record panel { graph_track_live = track_live },
        graph_view t (if track_live then window input.now_ms t else input.bounds) (not resumed),
      )

  -- The central panel of `display`, by its view. `none` is the panic of
  -- `clamp(200.0, total_width - 200.0)`, whose least value is above the greatest on a panel that is
  -- narrower than 400 points.
  unfoldable pub show_view :
      (T → ℕ)
      → Input T
      → ChatModel T P
      → MessagePanel
      → RoomView
      → Option (ChatModel T P × MessagePanel × List Part)
  unfolding show_list show_graph
  show_view millis input m panel table = some (m, panel, table_view ∷ [])
  show_view millis input m panel graph =
      let (panel', part) = show_graph millis input m panel in some (m, panel', part ∷ [])
  show_view millis input m panel list =
      let (m', part) = show_list input.clicked m in some (m', panel, part ∷ [])
  show_view millis input m panel split =
      let (m', left) = show_list input.clicked m in
      let (panel', right) = show_graph millis input m' panel in
      if ltb input.width 400 then none else some (m', panel', left ∷ right ∷ [])

  unfoldable pub show_central :
      (T → ℕ)
      → Input T
      → ChatModel T P
      → MessagePanel
      → Option (ChatModel T P × MessagePanel × List Part)
  unfolding show_view
  show_central millis input m panel = show_view millis input m panel panel.message_view
