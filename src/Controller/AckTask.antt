-- ===== src/Controller/AckTask.antt =====
-- The task that sends an ACK, src/utils/ack.rs: what it calls, what comes of it and what it logs.
use Prim.Native.String
use Prim.Native.String.{String}
use dtchat.Prelude.{ℕ, Bool, List, Option, none, some, if◌then◌else◌}
use dtchat.Time.{Instant}
use dtchat.Message.{ChatMessage}
use dtchat.Proto.{Codec}
use dtchat.Socket.{GenericSocket, SysCall, send}
use dtchat.Controller.{Draws, create_ack_message, send_ack_message}

pub data AckError : Type 0 where
  network serialization invalid_message : String → AckError

-- `Display for AckError`
pub error_text : AckError → String
error_text (network err) = String.◌++◌ "Network error during ACK: " err
error_text (serialization msg) = String.◌++◌ "Serialization error during ACK: " msg
error_text (invalid_message msg) = String.◌++◌ "Invalid message format for ACK: " msg

-- `AckResult<()>`
pub data AckResult : Type 0 where
  done : AckResult
  failed : AckError → AckResult

-- What `send_ack_message_non_blocking` hands to the task: clones of its arguments.
pub record AckTask (T : Type 0) : Type 0 where
  pub message : ChatMessage T
  pub socket : GenericSocket
  pub local_peer_uuid : String
  pub is_read : Bool

-- What is logged of a result.
abbrev pub log_of : AckResult → Option String
log_of done = none
log_of (failed e) = some (String.◌++◌ "Failed to send ACK message: " (error_text e))

module _ {T : Type 0} ⦃i : Instant T⦄ (codec : Codec) (draws : Draws T) (works : SysCall → Bool)
    (e : String) where
  -- `send_ack_message` to its end: the calls of the system, which grants those that `works` says and
  -- refuses others with the error `e`. `encode` into a buffer that grows does not fail.
  pub send_ack : AckTask T → List SysCall × AckResult
  unfolding send send_ack_message
  send_ack task =
      let out =
        send_ack_message codec draws task.socket task.message task.local_peer_uuid task.is_read in
      let (calls, sent) = send works out.socket out.bytes in
      (calls, if sent then done else failed (network e))

  -- The task that `send_ack_message_non_blocking` spawns: the calls, and the line that it logs.
  pub run_ack_task : AckTask T → List SysCall × Option String
  unfolding send_ack error_text
  run_ack_task task = let (calls, result) = send_ack task in (calls, log_of result)

  -- The bytes of the ACK of a task.
  abbrev pub ack_bytes : AckTask T → List ℕ
  ack_bytes task =
      codec.base64_encode (
        codec.proto_encode
          (create_ack_message draws task.message task.local_peer_uuid task.is_read))
