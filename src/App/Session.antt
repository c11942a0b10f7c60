-- ===== src/App/Session.antt =====
-- Sessions: frames of the window (src/layout/ui.rs) between calls of the chat model (src/app.rs) by the
-- transport's threads and the tasks that send (src/layout/rooms/message_prompt.rs). The mutex of the
-- model makes each of them one step.
use Prim.Native.String.{String}
use dtchat.Prelude.{
  ℕ, ◌≤◌, ◌%◌, Bool, List, [], ◌∷◌, ◌++◌, Option, none, some, get_elem?, remove, length, map,
}
use dtchat.Time.{Instant}
use dtchat.Message.{ChatMessage}
use dtchat.Socket.{Net}
use dtchat.Model.{World}
use dtchat.Model.Runs.{Call, step, added, uuids}
use dtchat.Prompt.{Predict, manage_send}
use dtchat.App.{ChatApp, Input}
use dtchat.App.Frames.{display}
pub mod Kept
pub mod Ends

-- What can happen: a frame is drawn, a thread calls the model, or one of the spawned tasks runs, whose
-- number is counted round.
pub data Happening (T : Type 0) : Type 0 where
  draws : Input T → Happening T
  calls : Call T → Happening T
  sends : ℕ → Happening T

-- A frame that is drawn has room for both halves of the split view.
abbrev pub IsWide : {T : Type 0} → Happening T → Type 0
IsWide (draws input) = 400 ≤ input.width
IsWide (calls c) = Unit
IsWide (sends k) = Unit

-- The state of a session: the messages whose tasks wait to run stand with their PBAT flags.
pub record Sitting (T P : Type 0) : Type 0 where
  pub world : World T P
  pub app : ChatApp
  pub spawned : List (ChatMessage T × Bool)

abbrev pub to_list {ℓ} : {A : Type ℓ} → Option A → List A
to_list none = []
to_list (some a) = a ∷ []

abbrev pub uuids_of : {T : Type 0} → List (ChatMessage T × Bool) → List String
uuids_of spawned = map (λ x. x.0.uuid) spawned

-- The messages of a node by uuid: those in the list, and those that are about to be sent.
abbrev pub all_uuids : {T P : Type 0} → Sitting T P → List String
all_uuids s = uuids s.world.model.messages ++ uuids_of s.spawned

module _ {T P : Type 0} ⦃i : Instant T⦄ (net : Net) (predict : Predict T P) (millis : T → ℕ) where
  -- A spawned task runs.
  pub run_spawned : ℕ → Option (ChatMessage T × Bool) → Sitting T P → Option (Sitting T P)
  unfolding manage_send
  run_spawned k none s = some s
  run_spawned k (some (m, pbat)) s = elim (manage_send net predict m pbat s.world) [
    | none ↦ none
    | some (w, tasks) ↦ some (record s { world = w; spawned = remove k s.spawned })
  ]

  pub happen : Happening T → Sitting T P → Option (Sitting T P)
  unfolding display run_spawned step
  happen (draws input) s = elim (display millis input s.world s.app) [
    | none ↦ none
    | some f ↦
        some (record { world = f.world; app = f.app; spawned = s.spawned ++ to_list f.spawned })
  ]
  happen (calls c) s = some (record s { world = step c s.world })
  happen (sends k) s =
      let place = k % length s.spawned in run_spawned place (get_elem? s.spawned place) s

  -- A session; `none` is a panic.
  pub session : List (Happening T) → Sitting T P → Option (Sitting T P)
  unfolding happen
  session [] s = some s
  session (h ∷ hs) s = elim (happen h s) [ none ↦ none | some s' ↦ session hs s' ]

  -- The uuids of what is said in a session: typed by the user, or added by a call.
  pub news : Happening T → Sitting T P → List String
  news (draws input) s = elim (display millis input s.world s.app) [
    | none ↦ []
    | some f ↦ uuids_of (to_list f.spawned)
  ]
  news (calls c) s = added (c ∷ [])
  news (sends k) s = []

  pub said : List (Happening T) → Sitting T P → List String
  unfolding happen news
  said [] s = []
  said (h ∷ hs) s = elim (happen h s) [ none ↦ [] | some s' ↦ said hs s' ++ news h s ]
