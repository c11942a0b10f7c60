-- ===== src/Colors.antt =====
-- src/utils/colors.rs, and the colour that fills the button of src/layout/rooms/message_prompt.rs.
use dtchat.Prelude.{List, [], ◌∷◌, Option, get_elem?}
use dtchat.Config.{Color32, rgb}

-- `COLORS`
colors : List Color32
colors = rgb 0 255 0 ∷ rgb 255 0 0 ∷ rgb 0 120 215 ∷ rgb 255 255 0 ∷ []

-- The fill of the button "Send"; `none` is a panic.
unfoldable pub send_fill : Option Color32
unfolding colors
send_fill = get_elem? colors 2
