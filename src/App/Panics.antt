-- ===== src/App/Panics.antt =====
-- When `display` of src/layout/ui.rs panics.

use mathlib.Core.Option.{map-eq-none_iff}
use dtchat.Prelude.{
  ℕ, ◌<◌, ◌≡◌, ◌↔◌, ◌⊎◌, inl, inr, refl, Bool-cases, ltb, sym, ◌∙◌, List, [], ◌∷◌, none, arith,
}
use dtchat.Time.{Instant}
use dtchat.Config.{Room}
use dtchat.Model.{ChatModel, World}
use dtchat.Panel.{RoomView, table, graph, list, split, MessagePanel, take_events, press_send}
use dtchat.App.{NavigationItems, rooms, contacts, ChatApp, Input, show_menu, show_settings}
use dtchat.App.Views.{show_view, show_central}
use dtchat.App.Frames.{show_prompt, show_rooms, show_page, display}

module _ {T P : Type 0} ⦃i : Instant T⦄ where
  -- The prompt leaves the view as it is.
  show_prompt-view :
      (input : Input T) (handler : ℕ) (w : World T P) (panel : MessagePanel)
      → (show_prompt input handler w panel).1.message_view ≡ panel.message_view
  unfolding show_prompt take_events press_send
  show_prompt-view input handler w panel = ground arith

-- The view is split, on a panel that is too narrow for both halves.
abbrev IsCramped : {T : Type 0} → Input T → RoomView → Type 0
IsCramped input view = (view ≡ split) × (input.width < 400)

module _ {T P : Type 0} ⦃i : Instant T⦄ (millis : T → ℕ) where
  show_view-eq-none_iff :
      (input : Input T) (m : ChatModel T P) (panel : MessagePanel) (view : RoomView)
      → (show_view millis input m panel view ≡ none) ↔ IsCramped input view
  unfolding show_view
  show_view-eq-none_iff input m panel table = ground arith
  show_view-eq-none_iff input m panel graph = ground arith
  show_view-eq-none_iff input m panel list = ground arith
  show_view-eq-none_iff input m panel split = elim (Bool-cases (ltb input.width 400)) [
    | inl cramped ↦
        rw cramped (let less : input.width < 400 = ground arith in ((λ _. (refl, less)), λ _. refl))
    | inr fits ↦ rw fits (let more : ¬ (input.width < 400) = ground arith in ground arith)
  ]

  show_page-eq-none_iff :
      (input : Input T) (w : World T P) (app : ChatApp) (page : NavigationItems) (rs : List Room)
      → (show_page millis input w app page rs ≡ none) ↔ (
          (page ≡ rooms)
          × ((rs ≡ [])
              ⊎ IsCramped input (show_settings input.clicked app.message_panel).message_view))
  unfolding show_page show_rooms show_central
  show_page-eq-none_iff input w app contacts rs = ground arith
  show_page-eq-none_iff input w app rooms [] = ground arith
  show_page-eq-none_iff input w app rooms (room ∷ others) =
      let settings = show_settings input.clicked app.message_panel in
      let shown = show_prompt input app.handler w settings in
      let view = show_prompt-view input app.handler w settings in
      let panics = show_view-eq-none_iff input shown.0.model shown.1 shown.1.message_view in
      (
        λ e.
            let cramped = panics.0 ((map-eq-none_iff _ _).0 e) in
            (refl, inr (sym view ∙ cramped.0, cramped.1)),
        λ h.
            (map-eq-none_iff _ _).1
              (panics.1 (elim h.1 [ inl e ↦ cc | inr cramped ↦ (view ∙ cramped.0, cramped.1) ])),
      )

  -- A frame panics exactly on the rooms' page, and there if the node has no room, or if the view after
  -- the user's choice is the split one and the central panel is narrower than 400 points.
  pub display-eq-none_iff :
      (input : Input T) (w : World T P) (app : ChatApp)
      → (display millis input w app ≡ none) ↔ (
          (show_menu input.clicked app.context_menu ≡ rooms)
          × ((w.model.rooms ≡ [])
              ⊎ (((show_settings input.clicked app.message_panel).message_view ≡ split)
                  × (input.width < 400))))
  unfolding display
  display-eq-none_iff input w app =
      let item = show_menu input.clicked app.context_menu in
      show_page-eq-none_iff input w (record app { context_menu = item }) item w.model.rooms
