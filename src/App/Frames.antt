-- ===== src/App/Frames.antt =====
-- A frame of the window: the prompt's panel (src/layout/rooms/message_prompt.rs) and `display` of
-- src/layout/ui.rs.

use mathlib.Core.Option
use dtchat.Prelude.{
  ℕ, Bool, not, ◌||◌, List, [], ◌∷◌, Option, none, some, ℕ_eq, String_eq, ◌==◌, if◌then◌else◌,
}
use dtchat.Time.{Instant}
use dtchat.Config.{Room}
use dtchat.Message.{ChatMessage}
use dtchat.Model.{ChatModel, World}
use dtchat.Panel.{MessagePanel, take_events, press_send}
use dtchat.App.{
  NavigationItems, NavigationItems, rooms, contacts, ChatApp, send, Input, Part, settings_bar,
  status, contacts_view, show_menu, modal_shown, show_settings, show_forge,
}
use dtchat.App.Views.{show_central}

module _ {T P : Type 0} where
  -- `MessagePrompt::show`: the message that a task is spawned for, with the PBAT flag, if there is one.
  unfoldable pub show_prompt :
      Input T
      → ℕ
      → World T P
      → MessagePanel
      → World T P × MessagePanel × Option (ChatMessage T × Bool)
  unfolding take_events press_send
  show_prompt input handler w panel =
      let (panel', h) = take_events panel (w.handlers handler) in
      let edited = record panel' {
        message_to_send = input.edit panel'.message_to_send;
        pbat_enabled = if input.toggles_pbat then not panel'.pbat_enabled else panel'.pbat_enabled;
      } in
      let (spawned, panel'') =
        press_send (input.enter || input.clicked send) input.uuid input.now w.model.localpeer
          edited in
      (record w { handlers = λ j. if j == handler then h else w.handlers j }, panel'', spawned)

-- A frame: the state afterwards, what is shown, and what is sent.
pub record Frame (T P : Type 0) : Type 0 where
  pub world : World T P
  pub app : ChatApp
  pub parts : List Part
  pub spawned : Option (ChatMessage T × Bool)

module _ {T P : Type 0} ⦃i : Instant T⦄ where
  -- The rooms' page of `display`, whose first room is `room`; `none` is a panic of the central panel.
  unfoldable pub show_rooms : (T → ℕ) → Input T → Room → World T P → ChatApp → Option (Frame T P)
  unfolding show_settings show_forge show_prompt show_central
  show_rooms millis input room w app =
      let settings = show_settings input.clicked app.message_panel in
      let (w', panel, spawned) = show_prompt input app.handler w settings in
      let frame : ChatModel T P × MessagePanel × List Part → Frame T P = λ shown. record {
        world = record w' { model = shown.0 };
        app = record app { message_panel = shown.1 };
        parts =
            settings_bar room.name (modal_shown input.clicked app.message_panel)
            ∷ show_forge w.model
            ∷ status (elim panel.send_status [ none ↦ "" | some text ↦ text ])
            ∷ shown.2;
        spawned = spawned;
      } in
      Option.map frame (show_central millis input w'.model panel)

  -- The match of `display`, with the rooms of the model; `none` is a panic: of `rooms[0]` in
  -- the settings bar, or of the central panel.
  unfoldable pub show_page :
      (T → ℕ) → Input T → World T P → ChatApp → NavigationItems → List Room → Option (Frame T P)
  unfolding show_rooms
  show_page millis input w app contacts rs =
      some (record { world = w; app = app; parts = contacts_view ∷ []; spawned = none })
  show_page millis input w app rooms [] = none
  show_page millis input w app rooms (room ∷ others) = show_rooms millis input room w app

  -- `display`
  unfoldable pub display : (T → ℕ) → Input T → World T P → ChatApp → Option (Frame T P)
  unfolding show_menu show_page
  display millis input w app =
      let item = show_menu input.clicked app.context_menu in
      show_page millis input w (record app { context_menu = item }) item w.model.rooms
