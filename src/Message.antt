-- ===== src/Message.antt =====
-- src/utils/message.rs: a chat message, its shipment status, and how an ACK marks a delivery.
pub mod Marks
pub mod Complete
use Prim.Native.String.{String, ◌++◌}
use dtchat.Prelude.{
  ℕ, Bool, true, false, List, [], ◌∷◌, Option, some, String_eq, is_some, ◌==◌, if◌then◌else◌,
  filter, length,
}
use dtchat.Text.{show}
use dtchat.Time.{Instant, to_jst}
use dtchat.Config.{Peer}

pub record Delivery (T : Type 0) : Type 0 where
  pub peer_uuid : String
  pub peer_name : String
  pub predicted_arrival : Option T
  pub acked_at : Option T

-- `received`: the sender's time of sending, our time of arrival.
pub data MessageStatus (T : Type 0) : Type 0 where
  sent : (tx : T) → (deliveries : List (Delivery T)) → MessageStatus T
  received : (tx rx : T) → MessageStatus T

pub record ChatMessage (T : Type 0) : Type 0 where
  pub uuid : String
  pub response : Option String
  pub sender : Peer
  pub text : String
  pub shipment_status : MessageStatus T

module _ {T : Type 0} where
  unfoldable pub tx_time : MessageStatus T → T
  tx_time (sent tx deliveries) = tx
  tx_time (received tx rx) = tx

  -- `deliveries.iter().filter(|d| d.acked_at.is_some()).count()`
  pub acked : List (Delivery T) → ℕ
  acked ds = length (filter (λ d. is_some d.acked_at) ds)

  get_shipment_status_str : ⦃i : Instant T⦄ → ChatMessage T → String
  unfolding acked show
  get_shipment_status_str ⦃i⦄ m = elim m.shipment_status [
    | sent tx ds ↦
        "["
        ++ i.hms (to_jst tx)
        ++ " -> "
        ++ show (acked ds)
        ++ "/"
        ++ show (length ds)
        ++ " ack]["
        ++ m.sender.name
        ++ "]"
    | received tx rx ↦
        "[" ++ i.hms (to_jst tx) ++ " -> " ++ i.hms (to_jst rx) ++ "][" ++ m.sender.name ++ "]"
  ]

  -- The loop of `mark_ack` over the deliveries: the first one of the peer is marked.
  unfoldable pub mark_first : String → T → List (Delivery T) → List (Delivery T) × Bool
  mark_first acker ack_time [] = ([], false)
  mark_first acker ack_time (d ∷ ds) =
      if d.peer_uuid == acker
      then (record d { acked_at = some ack_time } ∷ ds, true)
      else (let (ds', done) = mark_first acker ack_time ds in (d ∷ ds', done))

  mark_status : String → T → MessageStatus T → MessageStatus T × Bool
  unfolding mark_first
  mark_status acker ack_time (sent tx ds) =
      let (ds', done) = mark_first acker ack_time ds in (sent tx ds', done)
  mark_status acker ack_time (received tx rx) = (received tx rx, false)

  unfoldable pub mark_ack : ChatMessage T → String → T → ChatMessage T × Bool
  unfolding mark_status
  mark_ack m acker ack_time =
      let (status, done) = mark_status acker ack_time m.shipment_status in
      (record m { shipment_status = status }, done)
