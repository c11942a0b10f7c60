-- ===== src/Panel.antt =====
-- The prompt's panel, `show` of src/layout/rooms/message_prompt.rs: the events that it takes from its
-- queue, and the message that it sends. The drawing is left out.
pub mod Drain
use Prim.Native.Char.{Char, code}
use Prim.Native.String.{String, [], ◌∷◌}
use dtchat.Prelude.{
  ℕ, Bool, true, false, not, ◌&&◌, ◌||◌, List, [], ◌∷◌, Option, none, some, ℕ_eq, ◌==◌, leb,
  if◌then◌else◌,
}
use dtchat.Config.{Peer}
use dtchat.Message.{ChatMessage, sent}
use dtchat.Model.{AppEvent, EventHandler}

-- `RoomView` of src/layout/rooms/message_settings_bar.rs.
pub data RoomView : Type 0 where
  table graph list split : RoomView

pub record MessagePanel : Type 0 where
  pub message_view : RoomView
  pub create_modal_open : Bool
  pub message_to_send : String
  pub send_status : Option String
  pub pbat_enabled : Bool
  pub graph_track_live : Bool

-- The panel of `ChatApp::new`.
unfoldable pub new_panel : MessagePanel
new_panel = record {
  message_view = split;
  create_modal_open = false;
  message_to_send = "";
  send_status = none;
  pbat_enabled = true;
  graph_track_live = true;
}

abbrev pub text_of : AppEvent → String
text_of (AppEvent.error msg) = msg
text_of (AppEvent.sent msg) = msg
text_of (AppEvent.received msg) = msg

-- `events.retain(..)`, which keeps no event.
pub drain : List AppEvent → Option String → List AppEvent × Option String
drain [] status = ([], status)
drain (e ∷ es) status = drain es (some (text_of e))

unfoldable pub take_events : MessagePanel → EventHandler → MessagePanel × EventHandler
unfolding drain
take_events panel h =
    let (events, status) = drain h.events panel.send_status in
    (record panel { send_status = status }, record h { events = events })

-- `char::is_whitespace`: the property White_Space of Unicode.
is_whitespace : Char → Bool
is_whitespace c =
    (leb 9 (code c) && leb (code c) 13)
    || code c == 0x20
    || code c == 0x85
    || code c == 0xa0
    || code c == 0x1680
    || (leb 0x2000 (code c) && leb (code c) 0x200a)
    || code c == 0x2028
    || code c == 0x2029
    || code c == 0x202f
    || code c == 0x205f
    || code c == 0x3000

-- `s.trim().is_empty()`
pub is_blank : String → Bool
unfolding is_whitespace
is_blank [] = true
is_blank (c ∷ s) = is_whitespace c && is_blank s

module _ {T : Type 0} where
  -- The end of `show`: the message for `manage_send`, if one is sent, and the panel.
  unfoldable pub press_send :
      Bool
      → (uuid : String) → (now : T) → Peer
      → MessagePanel
      → Option (ChatMessage T × Bool) × MessagePanel
  unfolding is_blank
  press_send send_message uuid now localpeer panel =
      if send_message && not (is_blank panel.message_to_send)
      then (
        some (
          record {
            uuid = uuid;
            response = none;
            sender = localpeer;
            text = panel.message_to_send;
            shipment_status = sent now [];
          },
          panel.pbat_enabled,
        ),
        record panel { message_to_send = "" },
      )
      else (none, panel)
