-- ===== src/Lib.antt =====
-- Kraken Blackbox: a recorder of the order books of Kraken's WebSocket interface, which verifies each
-- book against the checksum of the exchange and keeps the evidence of every mismatch.
--
-- The parts and how they interact. A client (crates/blackbox-ws) connects, subscribes, parses frames
-- and hands events over a channel to the server (crates/blackbox-server). The server applies them to
-- the books (crates/blackbox-core), verifies the checksums, counts the verdicts in the health of each
-- symbol, and records frames and incidents. A replayer plays recordings back, with faults if asked.
-- An HTTP interface and a terminal interface show the shared state.
--
-- The files:
--   Base, Ord, BTree, DashMap, Json, Words, Decimal: lists, options and tests; std's ordered maps as
--     sorted association lists; the maps keyed by symbol; JSON documents; 64-bit words, times and
--     floats; decimals. These are the language's, its library's and the dependencies' parts.
--   Orderbook: crates/blackbox-core/src/orderbook.rs. `insert_positive` and `apply_levels` are its
--     loops, `truncate_asks` and `truncate_bids` the halves of `truncate`.
--   Precision: crates/blackbox-core/src/precision.rs, `format_fixed` and `parse_decimal`.
--   Checksum: crates/blackbox-core/src/checksum.rs. `push_levels` is the body of its loops.
--   Health: crates/blackbox-core/src/health.rs. The deductions of `health_score` are functions.
--   Types: crates/blackbox-core/src/types.rs.
--   Recorder: crates/blackbox-core/src/recorder.rs.
--   Replayer: crates/blackbox-core/src/replayer.rs. `Defs` holds its state and methods and `Mutate`
--     the change of a quantity.
--   Incident: crates/blackbox-core/src/incident.rs and crates/blackbox-server/src/incident.rs.
--   Parser, Subscriptions, Client: crates/blackbox-ws/src/parser.rs, subscriptions.rs and client.rs.
--     `Client.Decode` reads instruments and levels, `Client.Connection` is `connect_and_run` as a
--     loop over what arrives, and `Client.Backoff` the delays of `run`.
--   State: crates/blackbox-server/src/state.rs, with `State.Aggregate` for the event panel and
--     `State.Overall` for `overall_health`.
--   Integrity: crates/blackbox-server/src/integrity.
--   Processor: crates/blackbox-server/src/main.rs. `Run` is `process_ws_events`, `Capture` and `Logged`
--     are `process_ws_events_with_logging`, `Defs` what both do, and `Books` the book of one symbol as
--     the events describe it, which both loops are compared with.
--   Export, Playback, Cli: crates/blackbox-server/src/main.rs, `export_incident_for_symbol`,
--     `replay_recording_internal`, `replay_recording`, `replay_incident_bundle`, and the meaning of
--     the options.
--   Mock, Setup: crates/blackbox-server/src/main.rs, `mock_data_generator`, and what `run_tui_mode` and
--     `run_client` do before their tasks run. Live: the client joined by its channel with the loop over
--     the events, and the recording of such a session played back into that loop.
--   Http: crates/blackbox-server/src/http.rs.
--   Tui: crates/blackbox-server/src/tui. `Keys`, `App` and `Snapshot` are files of that name, `Actions`
--     and `Export` the handlers of ui.rs, `Console` its loop, and `Screen`, `Tab` and `Widgets` what is
--     shown, as data. Utf8: the lengths and slices of texts by bytes.
--   Tasks: the handlers of the terminal mode as steps on the shared state, which come in any order. Each
--     handler is taken as one step.
--   Tests: the theorems at concrete inputs.
--
-- State is passed explicitly: a method takes the record and returns the new one with its result. A
-- lock or an atomic is the value that it guards; where a guard is held across a call that takes it
-- again, the loop of `run` has the outcome `deadlock`. Each reading of the clock is an argument.
--
-- Parameters: the decimals of `rust_decimal` (`Decimal`: a total preorder, and the sign of a difference
-- is the order of its operands), CRC-32 (`Hasher`), floats (`Float`), serde's readers and writers
-- (`DecimalParser`, `Deserializers`, `JsonApi`, `Encoder`, `Wire`, `Tools`) and the texts that
-- `format!` makes of a time. Nothing else is assumed of them.
--
-- Bounds and fuel: numbers are natural numbers; a counter of 64 bits wraps at 2 ^ 64, and a saturating
-- subtraction stops at 0. `next_frame` takes fuel, since it calls itself after a dropped frame;
-- each such call moves on by one frame, so the number of frames that are left is enough. The loop of
-- `replay_recording` takes a number of turns: as fast as possible, twice the number of the frames and
-- one is enough, since each turn does away with a frame or with the one that is held back. At other
-- speeds the loop waits for the clock, and how many turns it makes depends on that. The loop of
-- `replay_recording_internal` breaks off at the hundred and first answer of nothing in a row: as fast as
-- possible, as many turns as there are frames and 101 more are what it makes.
--
-- Not modelled: the format of an archive, layout, fixed texts and drawing of the terminal interface, the
-- web page, metrics, the parsing of options, and the starting of the tasks. Where input or output can
-- fail, the model has the outcome only if the program goes on with it, and not what an export that
-- fails leaves on the disk. Panics on the overflow of a decimal are outside the model.
pub mod Base
pub mod Ord
pub mod BTree
pub mod Decimal
pub mod Orderbook
pub mod Precision
pub mod Checksum
pub mod Words
pub mod Health
pub mod Json
pub mod Subscriptions
pub mod DashMap
pub mod Types
pub mod Integrity
pub mod Recorder
pub mod State
pub mod Replayer
pub mod Incident
pub mod Parser
pub mod Client
pub mod Export
pub mod Processor
pub mod Playback
pub mod Cli
pub mod Tui
pub mod Http
pub mod Tests
pub mod Tasks
pub mod Utf8
pub mod Mock
pub mod Setup
pub mod Live
