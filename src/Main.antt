-- ===== src/Main.antt =====
-- src/main.rs: the messages that a node starts with, and the order in which it is set up.
pub mod Setup
pub mod Program
pub mod Nodes
pub mod Shown
use Prim.Native.String.{String}
use dtchat.Prelude.{ℕ, ◌+◌, List, [], ◌∷◌, ◌++◌, Option, none, some, get_elem?}
use dtchat.Time.{Instant}
use dtchat.Config.{Peer, AppConfigManager}
use dtchat.Message.{ChatMessage, received}
use dtchat.Model.{ChatModel, new_model, sort_messages, add_observer}
use dtchat.Model.Order.{standard}

-- `pick`: a peer by its index, else the local peer.
pick : Peer → List Peer → ℕ → Peer
pick local_peer peers i = elim (get_elem? peers i) [ none ↦ local_peer | some p ↦ p ]

-- The lines of `demo` with those of `gaps`: sender, text, delay of arrival, and gap to the line
-- before, in seconds.
pub record Line : Type 0 where
  pub sender : Peer
  pub text : String
  pub rx_offset : ℕ
  pub gap : ℕ

abbrev line : Peer → String → ℕ → ℕ → Line
line sender text rx_offset gap = record {
  sender = sender;
  text = text;
  rx_offset = rx_offset;
  gap = gap;
}

pub demo : Peer → List Peer → List Line
unfolding pick
demo local_peer peers =
    line local_peer "Hello from local peer" 10 0
    ∷ line (pick local_peer peers 2) "Bob at your service !" 30 2
    ∷ line (pick local_peer peers 0) "Hello local peer, how are you?" 10 1
    ∷ line (pick local_peer peers 0) "I'm john does" 10 2
    ∷ line local_peer "Hello john doe, Some news from alice ?" 10 13
    ∷ line (pick local_peer peers 1) "Sorry, I'm a bit late!" 12 5
    ∷ []

module _ {T : Type 0} (after : T → ℕ → T) (fresh : ℕ → String) where
  -- The loop of `seed_demo_messages`, from the time of the line before and the number of uuids that
  -- were generated. `after` adds seconds.
  pub seed_lines : T → ℕ → List Line → List (ChatMessage T)
  seed_lines now n [] = []
  seed_lines now n (l ∷ ls) =
      record {
        uuid = fresh n;
        response = none;
        sender = l.sender;
        text = l.text;
        shipment_status = received (after now l.gap) (after (after now l.gap) l.rx_offset);
      }
      ∷ seed_lines (after now l.gap) (n + 1) ls

  -- `seed_demo_messages`; `start` is forty seconds ago.
  seed_demo_messages : {P : Type 0} → T → Peer → List Peer → ChatModel T P → ChatModel T P
  unfolding seed_lines demo
  seed_demo_messages start local_peer peers m = record m {
    messages = m.messages ++ seed_lines start 0 (demo local_peer peers);
  }

  -- `main`, up to the window: the model with its messages sorted, and the handler that observes it.
  unfoldable pub set_up :
      {P : Type 0} ⦃i : Instant T⦄ → T → AppConfigManager → Option P → ℕ → ChatModel T P
  unfolding seed_demo_messages sort_messages new_model add_observer
  set_up start config prediction handler = add_observer handler (
      sort_messages standard (
        seed_demo_messages start config.local_peer config.peer_list
          (new_model config.peer_list config.local_peer config.room_list prediction)))
