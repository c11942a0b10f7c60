-- ===== src/Controller/Transports.antt =====
-- The two listeners of src/utils/socket.rs, each with its own treatment of a message, on the same bytes.
use Prim.Native.String.{String}
use mathlib.Core.Option
use dtchat.Prelude.{ℕ, ◌≤◌, ◌≡◌, refl, sym, ap, ◌∙◌, List, Option, none, some, length, take_all}
use dtchat.Time.{Instant}
use dtchat.Endpoint.{Endpoint, tcp}
use dtchat.Proto.{DeserializedMessage, chat_message, ack, deserialize_message}
use dtchat.Controller.{
  SocketController, Draws, Env, SocketObserver, dispatch, dispatch_stream, handle_payload,
  buffer_size, datagram_endpoint, handle_datagram, handle_tcp_connection,
}

module _ {T O : Type 0} ⦃i : Instant T⦄ ⦃ob : SocketObserver T O⦄ (env : Env) (d : Draws T)
    (c : SocketController) where
  -- The two listeners' treatments of a decoded message agree, but for the endpoint it is said to have
  -- come by.
  dispatch-dispatch_stream :
      (on : Option Endpoint) (r : Option (DeserializedMessage T)) (models : ℕ → O)
      → dispatch_stream env d c on r models ≡ dispatch env d c on r models
  unfolding dispatch dispatch_stream
  dispatch-dispatch_stream on none models = refl
  dispatch-dispatch_stream on (some (chat_message m)) models = refl
  dispatch-dispatch_stream on (some (ack u r t a)) models = refl

  models-dispatch :
      (on on' : Option Endpoint) (r : Option (DeserializedMessage T)) (models : ℕ → O)
      → (dispatch env d c on r models).1 ≡ (dispatch env d c on' r models).1
  unfolding dispatch
  models-dispatch on on' none models = refl
  models-dispatch on on' (some (chat_message m)) models = refl
  models-dispatch on on' (some (ack u r t a)) models = refl

  -- A datagram that fits into the buffer is handled as it is.
  pub handle_datagram-whole :
      (address : String) (payload : List ℕ) (models : ℕ → O)
      → length payload ≤ buffer_size
      → handle_datagram env d c address payload models
        ≡ handle_payload env d c (some (datagram_endpoint address)) payload models
  unfolding handle_datagram
  handle_datagram-whole address payload models h = rw (take_all buffer_size payload h) refl

  -- What a stream brought is handled as a payload from its other side.
  pub handle_tcp_connection-whole :
      (peer_addr : Option String) (payload : List ℕ) (models : ℕ → O)
      → handle_tcp_connection env d c peer_addr payload models
        ≡ handle_payload env d c (Option.map tcp peer_addr) payload models
  unfolding handle_tcp_connection handle_payload
  handle_tcp_connection-whole peer_addr payload models =
      dispatch-dispatch_stream _ (deserialize_message env.codec d.rx_time payload c.peers) models

  -- A payload that fits into the buffer of the datagram listener has the same effect on the models
  -- when it comes as a datagram, to whatever address, as when it comes through a TCP stream.
  pub handle_datagram-handle_tcp_connection :
      (address : String) (peer_addr : Option String) (payload : List ℕ) (models : ℕ → O)
      → length payload ≤ buffer_size
      → (handle_datagram env d c address payload models).1
        ≡ (handle_tcp_connection env d c peer_addr payload models).1
  unfolding handle_payload
  handle_datagram-handle_tcp_connection address peer_addr payload models h =
      ap (λ x. x.1) (handle_datagram-whole address payload models h)
      ∙ models-dispatch _ _ (deserialize_message env.codec d.rx_time payload c.peers) models
      ∙ ap (λ x. x.1) (sym (handle_tcp_connection-whole peer_addr payload models))
