-- ===== src/App.antt =====
-- The application's window: `ChatApp` of src/app.rs and what src/layout shows of it. egui draws every
-- frame anew: a frame reads what the user did since the last one, changes the state and lists the parts
-- that it shows. Fonts, colours of widgets and layout are left out.
pub mod Views
pub mod Frames
pub mod Sorts
pub mod Panics
pub mod Session
use Prim.Native.String
use Prim.Native.String.{String}
use dtchat.Prelude.{
  ℕ, zero, suc, ◌+◌, ◌≡◌, refl, Bool, true, false, not, ◌&&◌, ◌||◌, List, [], ◌∷◌, ◌++◌, Option,
  none, some, map, filter, ℕ_eq, String_eq, ◌==◌, if◌then◌else◌,
}
use dtchat.Time.{Instant}
use dtchat.Config.{Peer, Room, Color32, get_color}
use dtchat.Message.{ChatMessage}
use dtchat.Model.{ChatModel, EventHandler, World, sort_messages}
use dtchat.Model.Order.{SortStrategy, standard, relative}
use dtchat.Panel.{
  RoomView, table, graph, list, split, MessagePanel, new_panel, take_events, press_send,
}
use dtchat.MessageList.{get_str_for_strat, avatar_letter, timestamps_str}
use dtchat.Timeline.{Timeline, timeline, window}

-- `NavigationItems` of src/layout/menu_bar.rs.
pub data NavigationItems : Type 0 where
  rooms contacts : NavigationItems

-- `ChatApp`; the model and the handlers are shared, and stand in a World. `handler` is the handle of
-- its own event handler.
pub record ChatApp : Type 0 where
  pub handler : ℕ
  pub context_menu : NavigationItems
  pub message_panel : MessagePanel

-- `ChatApp::new`
unfoldable pub new_app : ℕ → ChatApp
unfolding new_panel
new_app handler = record { handler = handler; context_menu = rooms; message_panel = new_panel }

-- What can be clicked. `by_peer k` is the peer `k` in the menu of relative orders.
pub data Button : Type 0 where
  go_rooms go_contacts new_room cancel by_standard by_local send reset_view : Button
  show_view : RoomView → Button
  by_peer : ℕ → Button

-- What the user did since the last frame, and what the frame draws: the uuid and the readings of the
-- clock. `bounds` is the part of the time axis that the plot shows, and `width` the whole part of the
-- width, in points, that the central panel has for its views.
pub record Input (T : Type 0) : Type 0 where
  pub clicked : Button → Bool
  pub edit : String → String
  pub enter : Bool
  pub toggles_pbat : Bool
  pub panned : Bool
  pub bounds : ℕ × ℕ
  pub width : ℕ
  pub uuid : String
  pub now : T
  pub now_ms : ℕ

-- A message as the list shows it.
pub record Row : Type 0 where
  pub letter : ℕ
  pub color : Color32
  pub name : String
  pub timestamps : String
  pub text : String

-- The parts of a frame.
pub data Part : Type 0 where
  settings_bar : (room : String) → (modal_open : Bool) → Part
  forge : String → Option String → Part
  status : String → Part
  table_view contacts_view : Part
  list_view : (strategy : String) → List Row → Part
  graph_view : Timeline → (bounds : ℕ × ℕ) → (paused : Bool) → Part

-- `selectable_value`: a click chooses.
abbrev choose {ℓ} : {A : Type ℓ} → Bool → A → A → A
choose is_clicked value current = if is_clicked then value else current

-- `MenuBar::show`
pub show_menu : (Button → Bool) → NavigationItems → NavigationItems
show_menu clicked item =
    choose (clicked go_contacts) contacts (choose (clicked go_rooms) rooms item)

-- Whether `MessageSettingsBar::show` shows the form.
abbrev pub modal_shown : (Button → Bool) → MessagePanel → Bool
modal_shown clicked panel = clicked new_room || panel.create_modal_open

-- `CreateRoomForm::show`, which makes no room.
show_create_room : (Button → Bool) → MessagePanel → MessagePanel
show_create_room clicked panel =
    if clicked cancel then record panel { create_modal_open = false } else panel

-- `MessageSettingsBar::show`: the choice of the view, the button and the form.
pub show_settings : (Button → Bool) → MessagePanel → MessagePanel
unfolding show_create_room
show_settings clicked panel =
    let view = choose (clicked (show_view list)) list (
      choose (clicked (show_view graph)) graph (
        choose (clicked (show_view table)) table
          (choose (clicked (show_view split)) split panel.message_view))) in
    let panel' : MessagePanel = record panel {
      message_view = view;
      create_modal_open = modal_shown clicked panel;
    } in
    if panel'.create_modal_open then show_create_room clicked panel' else panel'

-- `members.join(", ")`
join : List String → String
join [] = ""
join (s ∷ []) = s
join (s ∷ t ∷ ss) = String.◌++◌ s (String.◌++◌ ", " (join (t ∷ ss)))

module _ {T P : Type 0} where
  -- `MessageForge::show`: the room, and the members beside it.
  pub show_forge : ChatModel T P → Part
  unfolding join
  show_forge m =
      let members = map (λ p. p.name) (filter (λ p. not (p.uuid == m.localpeer.uuid)) m.peers) in
      forge (String.◌++◌ "Send to room: " (elim m.rooms [ [] ↦ "room" | r ∷ rs ↦ r.name ]))
        (elim members [
          | [] ↦ none
          | s ∷ ss ↦ some (String.◌++◌ "(" (String.◌++◌ (join (s ∷ ss)) ")"))
        ])
