-- ===== src/Lib.antt =====
-- The terminal client of an end-to-end encrypted messenger: a model of its parts that keep, order
-- and recover messages, and the theorems on them.
--
-- The parts and their files (paths of the repository):
--   src/grpc/framing.rs, error.rs, stream.rs  Grpc/Framing, Grpc/Error, Grpc/Pump. `encode_frame` and
--       `decode_frame` are functions on byte lists; the loop of `pump_task` that cuts `recv_buf` into
--       frames is `cut_frames`, one received chunk is `on_chunk`, a connection is `receive`.
--   src/storage.rs  Storage and its modules. A value of `Storage` has the rows of every table in the
--       order of their rowids; a method is an action of `Db` with the method's name, by the meaning of
--       its SQL. `faults` decides which statements SQLite refuses; a refused statement changes nothing.
--   src/streaming.rs  Streaming/Tracker is `CursorTracker` with the database it writes to,
--       Streaming/Buffer the buffer of outgoing envelopes and the back-off, Streaming/Incoming
--       `dispatch_incoming`, Streaming/Worker the loop of `run_worker` with `wait_backoff` as a state
--       machine. An input of a step is what the loop waits for: a command, a frame, a tick, an outcome.
--       An envelope is `queued` when it stands in the channel of the connection, which `pump_task` writes
--       from later; what is lost of that channel with a connection is not modelled.
--   src/knst.rs  Knst, the frame around a plaintext: `frame_whole`, `is_frame`, `decode_text`,
--       `disposition`.
--   src/invite.rs  Invite with the data, `canonical_string` and `is_expired`, Invite/Encode and
--       Invite/Decode the binary form, Invite/Link `https_link` and `parse_invite`, Invite/Mint `mint`.
--       The `Reader` is the bytes that it has not read yet.
--   src/orchestrator_task.rs  Orchestrator. A `Task` is the state of `run`: the core, the tracker with
--       the database, the timers, the times of the sessions; a `Cycle` adds the follow-ups and the
--       contacts of one round. Orchestrator/Dispatch has `dispatch`, one function per arm that changes
--       state (the two that set up and heal sessions stand in Orchestrator/Actions),
--       Orchestrator/Session `establish_session` and `prepare_outgoing`, Orchestrator/Loop
--       `handle_command` and `run`. The core is a record of functions, `Core`; the answers of the
--       clock, of the random source and of the server are numbered functions, `World`; sends, events
--       for the application and spawned jobs are the list `outputs`.
--       The end of the job that fetches a key bundle is `on_bundle_fetched`.
--
--   src/grpc/client.rs  Grpc/Client: `GrpcClient` with its session, Grpc/Client/Status
--       `check_grpc_status`, Grpc/Client/Unary `do_unary`, `unary_once` and `unary`. The record
--       `Network` says what a dial and what the steps of an exchange come to; the calls made are a list.
--   src/grpc/auth.rs, invite.rs, users.rs, paths.rs  Grpc/Auth, Grpc/Users and, for what these share,
--       Grpc/Service. The protobuf codecs are the records `AuthCodec` and `UserCodec`.
--   src/bridge.rs  Bridge, the methods of `TuiBridge`, and Bridge/Refresh, `token_refresh_loop` and
--       `do_refresh`.
--   src/config/mod.rs  Config with the data, Config/Fs the three files and their paths, Config/Keys the
--       keys of a passphrase, Config/Vault the encrypted session, Config/Plain the plain one,
--       `clear_session` and the configuration. JSON, base64 and the ciphers are the record `Libs`.
--   src/auth.rs  Auth: `register_new_device` and `link_existing_device`, Auth/Saved
--       `authenticate_saved_session` and `try_restore_session`. The core library is the record `Crypto`;
--       the generated keys are arguments, the reported steps a second result.
--   src/screens/*.rs  Screens, one module per pane or, in Screens/Fields, for the four forms. The text
--       of a field is changed by `push_char` and `pop_char` of Prelude/Text.
--   src/app.rs, src/event.rs  App has the state `App`, the effects and the record `Env` of what a
--       handler asks the machine for. App/Keys has `handle_event` and the handler of each screen,
--       App/Events `handle_internal`, App/Chat, App/Contacts, App/Session and App/Login what these
--       call, App/Start `start_orchestrator`, App/Relay the relay of the stream with
--       `resolve_inbound_envelope`. A spawned job is an effect, its result a later `InternalEvent`.
--
-- A received chunk passes Grpc/Pump, its frames Streaming/Incoming, and their events reach the
-- application, whose relay (App/Relay) gives a message to the orchestrator task. That task notes its cursor in the
-- tracker, lets the core decrypt it, stores its text and then commits the cursor, by
-- Storage/Secure; the worker subscribes from the committed cursor after a reconnect.
--
-- Conventions: a byte is a natural number below 256, a string or a byte vector a list of bytes, and a
-- string from SQLite is valid UTF-8 (Prelude/Utf8). Machine integers are natural numbers with the
-- wrap-around or the saturation of the source written out; `i64` is a type of integers (Prelude/Int).
-- `cut_frames` runs on fuel; the length of the buffer is enough, as each round removes five bytes.
-- `strip_all` runs on the length of its text, since each round removes a prefix that is not empty.
--
-- Not modelled: the drawing of the screens, the loops over channels and terminal, the generation of
-- keys, the calls of the key service, TLS, h2, SQLite, the clock, random jitter, base64, hex,
-- UUIDs, the ciphers and hashes, the protocol core and the protobuf messages, which are generated.
-- A decoder or an outcome of these is a parameter or an input. A refused call of the file system
-- changes nothing in the model; a write that fails half way is not modelled.
pub mod Prelude
pub mod Grpc
pub mod Storage
pub mod Knst
pub mod Invite
pub mod Streaming
pub mod Orchestrator
mod Tests
pub mod Screens
pub mod Config
pub mod Bridge
pub mod App
pub mod Auth
