-- ===== src/Network.antt =====
-- Nodes that send to each other: how src/layout/rooms/message_prompt.rs, src/utils/socket.rs,
-- src/utils/ack.rs and src/app.rs work together. The network may lose what is sent, deliver it late,
-- often, to anyone and with junk behind it; it does not make up messages.
pub mod Grows
pub mod Truth
pub mod Sound
pub mod Heard
pub mod Live
pub mod Listed
pub mod Carried
pub mod Answering
pub mod Through
use Prim.Native.String.{String}
use dtchat.Prelude.{
  ℕ, ◌≡◌, Bool, false, get_elem?, List, [], ◌∷◌, ◌++◌, Option, none, some, map, ℕ_eq, ◌==◌,
  if◌then◌else◌,
}
use dtchat.Time.{Instant}
use dtchat.Endpoint.{Endpoint}
use dtchat.Message.{ChatMessage}
use dtchat.Proto.{Codec, ProtoMessage, construct_proto_message}
use dtchat.Proto.Base64.{Stops}
use dtchat.Model.{World}
use dtchat.Controller.{
  model_observer, SocketController, Outgoing, Draws, Env, Models, create_ack_message,
  handle_payload,
}
use dtchat.Controller.Handling.{IsAnswer, handle_payload-IsAnswer}
use dtchat.Prompt.{Predict, SendTask, manage_send}

-- All nodes: their chat models, and the messages that were put on the wire.
pub record Network (T P : Type 0) : Type 0 where
  pub models : Models T P
  pub wire : List ProtoMessage

-- The model of one node after a call.
abbrev pub set_model : {T P : Type 0} → ℕ → World T P → Models T P → Models T P
set_model i w models = λ j. if j == i then w else models j

-- The bytes of a message on the wire, with junk behind them.
abbrev pub payload_of : Codec → ProtoMessage → List ℕ → List ℕ
payload_of codec p rest = codec.base64_encode (codec.proto_encode p) ++ rest

-- The message whose bytes an answer is.
abbrev pub ack_of :
    {T : Type 0} ⦃i : Instant T⦄ {env : Env} {c : SocketController} {on : Option Endpoint}
    {payload : List ℕ} {o : Outgoing} (d : Draws T)
    → IsAnswer env d c on payload o
    → ProtoMessage
ack_of d a = create_ack_message d a.message a.me.uuid false

module _ {T P : Type 0} ⦃i : Instant T⦄ (env : Env) (controllers : ℕ → SocketController)
    (predict : Predict T P) where
  -- The user of a node sends a message; a payload arrives at a node and is not answered, or is.
  pub data Step (s : Network T P) : Network T P → Type 0 where
    posts :
        (n : ℕ) (m : ChatMessage T) (pbat : Bool) (w : World T P) (tasks : List (SendTask T))
        → manage_send env.net predict m pbat (s.models n) ≡ some (w, tasks)
        → Step s (record {
          models = set_model n w s.models;
          wire = map (λ t. construct_proto_message t.message) tasks ++ s.wire;
        })
    arrives :
        (n : ℕ) (d : Draws T) (on : Option Endpoint) (k : ℕ) (p : ProtoMessage) (rest : List ℕ)
        → get_elem? s.wire k ≡ some p
        → Stops rest
        → (handle_payload env d (controllers n) on (payload_of env.codec p rest) s.models).0 ≡ none
        → Step s (record {
          models =
              (handle_payload env d (controllers n) on (payload_of env.codec p rest) s.models).1;
          wire = s.wire;
        })
    is_answered :
        (n : ℕ) (d : Draws T) (on : Option Endpoint) (k : ℕ) (p : ProtoMessage) (rest : List ℕ)
        (o : Outgoing)
        → get_elem? s.wire k ≡ some p
        → Stops rest
        → (e : (handle_payload env d (controllers n) on (payload_of env.codec p rest) s.models).0
            ≡ some o)
        → Step s (record {
          models =
              (handle_payload env d (controllers n) on (payload_of env.codec p rest) s.models).1;
          wire =
              ack_of d (
                handle_payload-IsAnswer env d
                  (controllers n)
                  on
                  (payload_of env.codec p rest)
                  s.models
                  o
                  e)
              ∷ s.wire;
        })

  -- Steps after one another.
  pub data Reaches (s : Network T P) : Network T P → Type 0 where
    start : Reaches s s
    next : (t u : Network T P) → Reaches s t → Step t u → Reaches s u
