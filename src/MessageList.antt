-- ===== src/MessageList.antt =====
-- The texts of src/layout/rooms/views/message_list.rs. The drawing is left out.
pub mod Letters
use Prim.Native.Char.{Char, code}
use Prim.Native.String
use Prim.Native.String.{String, [], ◌∷◌}
use dtchat.Prelude.{
  ℕ, ◌+◌, ◌-◌, Bool, true, false, ◌&&◌, ◌||◌, leb, ℕ_eq, String_eq, ◌==◌, if◌then◌else◌, length,
}
use dtchat.Text.{show}
use dtchat.Time.{Instant, to_jst}
use dtchat.Message.{MessageStatus, sent, received, acked}
use dtchat.Model.Order.{SortStrategy, standard, relative}

-- `get_str_for_strat`
pub get_str_for_strat : String → SortStrategy → String
get_str_for_strat local_peer_uuid standard = "Standard"
get_str_for_strat local_peer_uuid (relative peer) =
    if peer.uuid == local_peer_uuid
    then "Local"
    else (String.◌++◌ "Relative (" (String.◌++◌ peer.name ")"))

-- `to_ascii_lowercase` and `to_ascii_uppercase` of a character, by its code.
unfoldable pub lower : ℕ → ℕ
lower b = if leb b'A' b && leb b b'Z' then b + 32 else b

upper : ℕ → ℕ
upper b = if leb b'a' b && leb b b'z' then b - 32 else b

-- `s.to_ascii_lowercase() == t`
pub eq_lower : String → String → Bool
unfolding lower
eq_lower [] [] = true
eq_lower [] (d ∷ t) = false
eq_lower (c ∷ s) [] = false
eq_lower (c ∷ s) (d ∷ t) = lower (code c) == code d && eq_lower s t

-- The last case of `avatar_letter`.
pub initial : String → ℕ
unfolding lower upper
initial [] = b'?'
initial (c ∷ s) = upper (lower (code c))

-- `avatar_letter`, as the code of the letter.
pub avatar_letter : String → ℕ
unfolding eq_lower initial
avatar_letter name =
    if eq_lower name "moon" || eq_lower name "lunar"
    then b'L'
    else if eq_lower name "earth"
    then b'E'
    else if eq_lower name "mars"
    then b'M'
    else initial name

-- `timestamps_str`
pub timestamps_str : {T : Type 0} ⦃i : Instant T⦄ → MessageStatus T → String
timestamps_str ⦃i⦄ (sent tx ds) = String.◌++◌ "sent " (
    String.◌++◌ (i.hms (to_jst tx)) (
      String.◌++◌ " · "
        (String.◌++◌ (show (acked ds)) (String.◌++◌ "/" (String.◌++◌ (show (length ds)) " ack")))))
timestamps_str ⦃i⦄ (received tx rx) =
    String.◌++◌ "sent "
      (String.◌++◌ (i.hms (to_jst tx)) (String.◌++◌ " · recv " (i.hms (to_jst rx))))
