-- ===== src/Model/Order.antt =====
-- The two orders of the message list (src/app.rs), and that they are total preorders.
use Prim.Native.String.{String}
use dtchat.Prelude.{Ordering, String_eq, ◌==◌, if◌then◌else◌, arith}
use dtchat.Time.{Instant, cmp, then_with}
use dtchat.Config.{Peer}
use dtchat.Message.{MessageStatus, sent, received, ChatMessage, tx_time}
use dtchat.Slice.Order.{IsOrder}

pub data SortStrategy : Type 0 where
  standard : SortStrategy
  relative : Peer → SortStrategy

module _ {T : Type 0} where
  -- When the local node learned of a message.
  unfoldable pub arrival_time : MessageStatus T → T
  arrival_time (sent tx deliveries) = tx
  arrival_time (received tx rx) = rx

  -- The closure `anchor` of `relative_cmp`.
  unfoldable pub anchor : String → ChatMessage T → T
  anchor ctx_peer_uuid m = elim m.shipment_status [
    | sent tx deliveries ↦ tx
    | received tx rx ↦ if m.sender.uuid == ctx_peer_uuid then tx else rx
  ]

module _ {T : Type 0} ⦃i : Instant T⦄ where
  unfoldable pub standard_cmp : ChatMessage T → ChatMessage T → Ordering
  unfolding arrival_time tx_time
  standard_cmp a b =
      then_with (cmp (arrival_time a.shipment_status) (arrival_time b.shipment_status))
        (cmp (tx_time a.shipment_status) (tx_time b.shipment_status))

  unfoldable pub relative_cmp : String → ChatMessage T → ChatMessage T → Ordering
  unfolding anchor
  relative_cmp ctx_peer_uuid a b = cmp (anchor ctx_peer_uuid a) (anchor ctx_peer_uuid b)

  -- The comparison that `add_message` and `sort_messages` choose by the strategy.
  unfoldable pub strategy_cmp : SortStrategy → ChatMessage T → ChatMessage T → Ordering
  unfolding standard_cmp relative_cmp
  strategy_cmp standard = standard_cmp
  strategy_cmp (relative peer) = relative_cmp peer.uuid

  pub standard_cmp-IsOrder : IsOrder standard_cmp
  unfolding standard_cmp
  standard_cmp-IsOrder = record { swaps = λ a b. ground arith; trans = λ a b d p q r. ground arith }

  pub relative_cmp-IsOrder : (uuid : String) → IsOrder (relative_cmp uuid)
  unfolding relative_cmp
  relative_cmp-IsOrder uuid = record {
    swaps = λ a b. ground arith;
    trans = λ a b d p q r. ground arith;
  }

  -- Whatever the strategy, messages are compared by a total preorder, as the searches and sorts of
  -- the standard library ask.
  pub strategy_cmp-IsOrder : (s : SortStrategy) → IsOrder (strategy_cmp s)
  unfolding strategy_cmp
  strategy_cmp-IsOrder standard = standard_cmp-IsOrder
  strategy_cmp-IsOrder (relative peer) = relative_cmp-IsOrder peer.uuid
