-- ===== src/App/Sorts.antt =====
-- A frame of the window (src/layout/ui.rs) that is wide enough changes the chat model by sorts.

use mathlib.Core.Option
use dtchat.Prelude.{
  ltb, false, arith, Bool, if◌then◌else◌, none, ◌≤◌, ℕ, ◌≡◌, refl, ap, ◌∙◌, List, [], ◌∷◌, some,
  map,
}
use dtchat.Time.{Instant}
use dtchat.Config.{Room}
use dtchat.Model.{ChatModel, World, sort_messages}
use dtchat.Model.Order.{SortStrategy}
use dtchat.Model.Runs.{sorts, step, run}
use dtchat.Panel.{RoomView, table, graph, list, split, MessagePanel}
use dtchat.App.{NavigationItems, rooms, contacts, ChatApp, Input, Part, show_menu, show_settings}
use dtchat.App.Views.{sort_each, show_list, show_view, show_central, chosen_sorts}
use dtchat.App.Frames.{Frame, show_prompt, show_rooms, show_page, display}

drawn_if {ℓ} : {A : Type ℓ} {a : A} (b : Bool) → b ≡ false → (if b then none else some a) ≡ some a
drawn_if b e = rw e refl

module _ {T P : Type 0} ⦃i : Instant T⦄ where
  sort_each-run :
      (ss : List SortStrategy) (w : World T P) → sort_each ss w.model ≡ (run (map sorts ss) w).model
  unfolding sort_each run step
  sort_each-run [] w = refl
  sort_each-run (s ∷ ss) w = sort_each-run ss (record w { model = sort_messages s w.model })

  -- The central panel changes the model by sorts.
  show_view-sorts :
      (millis : T → ℕ) (input : Input T) (m : ChatModel T P) (panel : MessagePanel)
      (view : RoomView)
      → 400 ≤ input.width
      → (shown : ChatModel T P × MessagePanel × List Part) × (ss : List SortStrategy) × (show_view
            millis input m panel view
          ≡ some shown)
        × (shown.0 ≡ sort_each ss m)
  unfolding show_view show_list sort_each
  show_view-sorts millis input m panel table wide = (_, [], refl, refl)
  show_view-sorts millis input m panel graph wide = (_, [], refl, refl)
  show_view-sorts millis input m panel list wide =
      (_, chosen_sorts input.clicked m.localpeer m.peers, refl, refl)
  show_view-sorts millis input m panel split wide =
      let fits : ltb input.width 400 ≡ false = ground arith in
      (_, chosen_sorts input.clicked m.localpeer m.peers, drawn_if _ fits, refl)

  -- So does a frame of the rooms' page.
  show_rooms-sorts :
      (millis : T → ℕ) (input : Input T) (room : Room) (w : World T P) (app : ChatApp)
      → 400 ≤ input.width
      → (f : Frame T P) × (ss : List SortStrategy) × (show_rooms millis input room w app ≡ some f)
        × (f.world.model ≡ sort_each ss w.model)
  unfolding show_rooms show_prompt show_central
  show_rooms-sorts millis input room w app wide =
      let (shown, ss, e, k) =
        show_view-sorts millis input w.model
          (show_prompt input app.handler w (show_settings input.clicked app.message_panel)).1 _
          wide in
      (_, ss, ap (Option.map _) e, k)

  module _ (millis : T → ℕ) where
    -- What a frame does to the model, if it is drawn.
    abbrev pub Drawn : Input T → World T P → ChatApp → Type 0
    Drawn input w app =
        (f : Frame T P) × (ss : List SortStrategy) × (display millis input w app ≡ some f)
        × (f.world.model ≡ (run (map sorts ss) w).model)

    show_page-Drawn :
        (input : Input T) (w : World T P) (app : ChatApp) (page : NavigationItems) (room : Room)
        (others : List Room)
        → 400 ≤ input.width
        → (f : Frame T P) × (ss : List SortStrategy) × (show_page millis input w app page
              (room ∷ others)
            ≡ some f)
          × (f.world.model ≡ (run (map sorts ss) w).model)
    unfolding show_page run
    show_page-Drawn input w app contacts room others wide = (_, [], refl, refl)
    show_page-Drawn input w app rooms room others wide =
        let (f, ss, e, k) = show_rooms-sorts millis input room w app wide in
        (f, ss, e, k ∙ sort_each-run ss w)

    -- With a room, a frame that is wide enough is drawn, and changes the model by sorts.
    pub display-Drawn :
        (input : Input T) (w : World T P) (app : ChatApp) (room : Room) (others : List Room)
        → 400 ≤ input.width
        → w.model.rooms ≡ room ∷ others
        → Drawn input w app
    unfolding display
    display-Drawn input w app room others wide e =
        let item = show_menu input.clicked app.context_menu in
        let app' = record app { context_menu = item } in
        let (f, ss, h, k) = show_page-Drawn input w app' item room others wide in
        (f, ss, ap (show_page millis input w app' item) e ∙ h, k)
