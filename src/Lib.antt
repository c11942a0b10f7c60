-- ===== src/Lib.antt =====
-- DTChat: a chat program for delay tolerant networks. A node keeps a list of messages, sends each
-- message to every peer of its room, and marks a delivery when the peer's ACK comes back.
--
-- The parts, and the files that model them:
--   Prelude, Text, Slice    Rust's lists, texts, binary search, insertion and stable sort
--   Time                    src/utils/time.rs and what the program uses of the crate chrono
--   Endpoint, Config        src/utils/socket.rs (Endpoint), src/utils/config.rs
--   Colors                  src/utils/colors.rs
--   Message                 src/utils/message.rs: statuses, deliveries, mark_ack
--   Model                   src/app.rs: ChatModel, add_message, sort_messages, ACKs, observers
--   Proto                   src/utils/proto.rs, src/proto/message.proto: the wire format
--   Socket, Controller      src/utils/socket.rs, src/utils/ack.rs: sockets, incoming payloads, ACKs
--   Listener                src/utils/socket.rs: start_listener with its loops, init_controller
--   Mesh                    src/mesh_integration.rs: three nodes on a loopback network
--   Prompt, Panel           src/layout/rooms/message_prompt.rs: sending a message, and the panel
--   Prediction              src/utils/prediction_config.rs
--   Timeline, MessageList   src/layout/rooms/views: the bars of the timeline, and the texts of the list
--   App                     src/layout/ui.rs and what it shows: frames of the window, and sessions
--   Main                    src/main.rs: the messages at the start, the set-up of a node, and main
--   Suite                   the tests that src/app.rs and src/utils/proto.rs carry
--   Locks                   the mutexes that the threads of a node take: src/main.rs and all that it calls
--   Network                 all of these together: nodes that send to each other, as steps
--   Tests                   runs at concrete inputs
--
-- The controller decodes a payload (Proto), answers a chat message with an ACK, and passes messages
-- and ACKs on to the chat models that observe it (Model), which change their lists and tell the event
-- queues of the user interface. A mutex makes each call of a model one step, so that threads are
-- sequences of calls; Locks has the order in which the threads take the mutexes. Shared observers are
-- handles into a function from handles to states; what observes a controller implements the trait
-- SocketObserver, an instance argument. A frame of the window is a function of what the user did since
-- the last one. What the listening threads read, and the order in which their tasks run, are lists.
--
-- Parameters: chrono's instants are a type with an instance of Instant; prost and base64 are a Codec;
-- the operating system's sockets and the parser of socket addresses are a Net. What is assumed of a
-- codec stands in Proto.RoundTrip.OnWire. The router of a-sabr is a Router, and floating-point numbers
-- are a Float; a prediction in the sending of a message is one that does not panic, which
-- Prediction.Prompted gives where chrono has the instants. What the clock reads at a call, and the
-- uuids that are generated, are arguments; what main finds in its environment is a Host.
--
-- Fuel: the binary search has as much fuel as the list is long, and each round shortens its range; the
-- padding loop needs at most three rounds; decimal digits have one round for each unit of the number;
-- the wait of the mesh test sleeps 20 ms a round and gives up after five seconds, in at most 251 rounds.
--
-- Bounds: a datagram is read into 1024 bytes, the numbers of an EID have 32 bits, the timeline has whole
-- milliseconds since the epoch, and the width of the window's central panel is read in whole points.
--
-- Not modelled: widgets, fonts and layout (egui), the parsers of files, the routing library, most log
-- lines, and the tests that read a file.
pub mod Prelude
pub mod Text
pub mod Time
pub mod Endpoint
pub mod Colors
pub mod Config
pub mod Message
pub mod Slice
pub mod Model
pub mod Proto
pub mod Socket
pub mod Controller
pub mod Listener
pub mod Prompt
pub mod Prediction
pub mod Panel
pub mod App
pub mod Timeline
pub mod MessageList
pub mod Main
pub mod Network
pub mod Mesh
pub mod Locks
pub mod Suite
mod Tests
