-- ===== src/Tests/Windows.antt =====
-- The window at concrete inputs: a node without a room, and a session in which the user types a message
-- while another arrives.
use mathlib.Core.List.{Perm}
use dtchat.Prelude.{
  arith, ℕ, ◌<◌, ◌⊎◌, ◌≡◌, ◌↔◌, refl, Bool, true, false, List, [], ◌∷◌, ◌++◌, none, some,
}
use dtchat.Colors.{send_fill}
use dtchat.Config.{Room, rgb}
use dtchat.Model.{World, MessageDirection, new_model, new_handler}
use dtchat.Model.Runs.{adds}
use dtchat.App.{NavigationItems, Button, Input, new_app, show_menu, show_settings}
use dtchat.Panel.{split}
use dtchat.App.Frames.{display}
use dtchat.App.Panics.{display-eq-none_iff}
use dtchat.App.Session.{Happening, draws, calls, sends, Sitting, all_uuids, session, said}
use dtchat.App.Session.Kept.{Fits, session-Fits}
use dtchat.Tests.Samples.{clock, earth, moon, mars, inbound_at}
use dtchat.Tests.Codecs.{net, predict_size}

abbrev world_with : List Room → World ℕ ℕ
world_with rooms = record {
  model = new_model (earth ∷ moon ∷ mars ∷ []) earth rooms none;
  handlers = λ j. new_handler;
}

abbrev pub presses : Button → Bool
presses Button.send = true
presses Button.by_local = true
presses b = false

abbrev pub types : Input ℕ
types = record {
  clicked = presses;
  edit = λ text. "hi";
  enter = false;
  toggles_pbat = false;
  panned = false;
  bounds = (0, 300000);
  width = 800;
  uuid = "m";
  now = 310;
  now_ms = 310;
}

-- The rooms' page of a node without a room.
display-eq-none_iff_example : (display (λ t. t) types (world_with []) (new_app 0) ≡ none) ↔ (
    (show_menu presses (new_app 0).context_menu ≡ NavigationItems.rooms)
    × (((world_with []).model.rooms ≡ [])
        ⊎ (((show_settings presses (new_app 0).message_panel).message_view ≡ split) × (800 < 400))))
display-eq-none_iff_example = display-eq-none_iff (λ t. t) types (world_with []) (new_app 0)

display_panics : display (λ t. t) types (world_with []) (new_app 0) ≡ none
unfolding new_app new_model display
display_panics = refl

-- The split view, which is the first, on a panel that is too narrow.
display_panics-narrow :
    display
      (λ t. t)
      (record types { width = 399 })
      (world_with (record { uuid = "default"; name = "mesh" } ∷ []))
      (new_app 0)
    ≡ none
unfolding new_app new_model display
display_panics-narrow = refl

abbrev at_first : Sitting ℕ ℕ
at_first = record {
  world = world_with (record { uuid = "default"; name = "mesh" } ∷ []);
  app = new_app 0;
  spawned = [];
}

-- The user sends, a message arrives from mars, and then the task runs.
abbrev evening : List (Happening ℕ)
evening =
    draws types
    ∷ calls (adds (inbound_at "r" mars 100 320) MessageDirection.received)
    ∷ sends 0
    ∷ []

session-Fits_example :
    (s' : Sitting ℕ ℕ) × (session net predict_size (λ t. t) evening at_first ≡ some s')
    × Fits s'.world
    × Perm (all_uuids s') (said net predict_size (λ t. t) evening at_first ++ all_uuids at_first)
unfolding new_model
session-Fits_example =
    session-Fits net predict_size (λ t. t) evening at_first (omega arith, (tt, (tt, tt)))
      (record {
        ordered = tt;
        room = record { uuid = "default"; name = "mesh" };
        others = [];
        has_room = refl;
      })

send_fill-test : send_fill ≡ some (rgb 0 120 215)
unfolding send_fill
send_fill-test = refl
