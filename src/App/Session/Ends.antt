-- ===== src/App/Session/Ends.antt =====
-- A session that ends at its first frame (src/layout/ui.rs).
use dtchat.Prelude.{ℕ, ◌≡◌, refl, inl, inr, Bool, false, Bool-cases, List, [], ◌∷◌, none}
use dtchat.Time.{Instant}
use dtchat.Socket.{Net}
use dtchat.Prompt.{Predict}
use dtchat.App.{rooms, Button, go_rooms, go_contacts, Input, show_menu}
use dtchat.App.Frames.{display}
use dtchat.App.Panics.{display-eq-none_iff}
use dtchat.App.Session.{Happening, draws, Sitting, happen, session}

-- The rooms' page is left only by a click.
show_menu-rooms :
    (clicked : Button → Bool) → clicked go_contacts ≡ false → show_menu clicked rooms ≡ rooms
unfolding show_menu
show_menu-rooms clicked stays = elim (Bool-cases (clicked go_rooms)) [
  | inl on ↦ rw (stays, on) refl
  | inr off ↦ rw (stays, off) refl
]

module _ {T P : Type 0} ⦃i : Instant T⦄ (net : Net) (predict : Predict T P) (millis : T → ℕ) where
  pub session-no_room :
      (input : Input T) (hs : List (Happening T)) (s : Sitting T P)
      → s.app.context_menu ≡ rooms
      → s.world.model.rooms ≡ []
      → input.clicked go_contacts ≡ false
      → session net predict millis (draws input ∷ hs) s ≡ none
  unfolding session happen
  session-no_room input hs s page no_room stays =
      let shown : show_menu input.clicked s.app.context_menu ≡ rooms =
        rw page (show_menu-rooms input.clicked stays) in
      let ends : display millis input s.world s.app ≡ none =
        (display-eq-none_iff millis input s.world s.app).1 (shown, inl no_room) in
      rw (ends, session, happen) refl
