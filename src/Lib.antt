-- ===== src/Lib.antt =====
-- Verification of iRacing Teleport: teleport/src, a program that sends the shared memory in which
-- iRacing publishes telemetry from the PC of the game (the source) over UDP to another PC (the
-- target), where it is published again.
--
-- The parts, and how they interact. The source's loop waits for the game's signal, chooses a
-- session-info frame (the static prefix of the memory) or a partial frame (header and one variable
-- buffer, whole or as the exclusive or with the last one), compresses it and hands it to the
-- sender, which cuts it into datagrams. The target's loop hands datagrams to the receiver, which
-- assembles them; an assembled frame is decompressed, rebuilt and copied into the target's memory in
-- an order that lets other programs see the status field only with complete variables. The target
-- asks for a session-info frame while it has none. On request the target's memory is also recorded
-- into .ibt files, after each frame that was copied. Both loops keep statistics.
--
-- Which file models which part:
-- - Base: tests, lists and byte buffers indexed by native numbers, little-endian words, texts.
-- - Protocol/Header, Protocol/Sender, Protocol/Receiver, Protocol/Delta: teleport/src/protocol.rs.
--   `send`, `send_heartbeat`, `ingest`, `reset`, `xor_delta` have the names of the code; `send_loop`
--   is the loop over the fragments; `prepare`, `accept` and `finish` are the three parts of `ingest`.
--   Protocol/Sender/Chunks, Datagrams and Plain, Protocol/Receiver/Valid and Dropped,
--   Protocol/Reassembly and Protocol/Delta/Bits, ZipXor and Bytewise hold the proofs.
-- - Stats: teleport/src/stats.rs; `record_frame` is `Stats::record`, `window_line` and
--   `summary_line` hold the whole numbers of the lines that are printed. Proofs in Stats/Totals,
--   Stats/Ranks and Stats/Window.
-- - Platform: teleport/src/platform.rs on Windows, with the names of the code; `acquire_timer` and
--   `drop_timer` are those of `HighResTimer`, `acquire_mmcss` and `drop_mmcss` of `MmcssGuard`.
-- - Telemetry: teleport/src/telemetry/mod.rs and windows.rs, `active_var_buf` and `clear_status`.
--   Proofs in Telemetry/Slots. Telemetry/Windows: `open_telemetry`, `create_telemetry` and
--   `drop_telemetry` are `open`, `create` and `drop` of `WindowsTelemetry`; `wait_for_data`,
--   `signal_data_ready` and `zero_on_exit` have its names. Proofs in Telemetry/Windows/Balance.
--   Telemetry/Mock is teleport/src/telemetry/mock.rs.
-- - Source, Source/Loop, Source/Round: the loop of teleport/src/source.rs. `choose` and `payload_of`
--   are the two large `let` of a round with data, `transmit` what follows them, `idle` a round
--   without data, `step` a round. Proofs in Source/Prefix, Source/Ticks, Source/Cadence, Source/Kept
--   (what the parts of a round leave alone) and Source/Valid (the invariant of the loop).
-- - Source/Run: `run` of teleport/src/source.rs from its first line to its return, with the memory of
--   the game that it opens and drops. `connect` is the loop around `try_open`, `round` the body of the
--   loop over the system, `reconnect` what follows a silence of the game. Proofs in
--   Source/Run/Transport, Neutral, Held and Closed (handles and views), Source/Run/Returns,
--   Source/Run/Refines (a round over the system against the round of the loop), Source/Run/Reach
--   (the states that the loop reaches) and Source/Run/Slices (what it slices there).
-- - Target, Target/Loop: the loop of teleport/src/target.rs. `session_info` and `partial` are the two
--   branches of a frame, `recv`, `idle` and `step` the branches of a round. Proofs in Target/Status
--   (what can be seen in the memory), Target/Sizes and Target/Valid (the invariant of the loop).
--   Target/Stub is `FanalabStub`, Target/Directory `ibt_telemetry_dir`, and Target/Run `run` from its
--   first line to its return, with a proof in Target/Run/Returns.
-- - Config: teleport/src/lib.rs. Cli: teleport/src/main.rs, teleport/src/bin/source.rs and
--   teleport/src/bin/target.rs; the `main` of these are `main`, `source_main` and `target_main`.
--   Proofs in Cli/Same.
-- - Setup: how the loops set up their sockets, before their first round. Proofs in Setup/Calls.
-- - Control: how a round of a loop ends.
-- - Ibt, Ibt/Writer: teleport/src/ibt_writer.rs. `layout_of` is what `MapLayout::parse` reads,
--   `disk_header` the header in `build_prefix`; `update`, `ensure_open`, `append_active` and
--   `append_new` are parts of `on_map_update` and `append_row`. Proofs in Ibt/Prefix, Ibt/Names and
--   Ibt/Reread (the file as it is read), Ibt/Recording, Ibt/Feed, Ibt/Session and Ibt/Closed (a
--   session), Ibt/Rolled (the next session), Ibt/Parsed, Ibt/Counts and Ibt/Unique.
-- - Link: both sides together. Link/Frame is one partial frame, Link/Frames the same over the
--   compression, Link/Session a run of partial frames, Link/Start a session from its session-info
--   frame on, Link/Visible what can be seen of it.
--   Link/Delivered is a message from the sender's datagrams to the memory of the target, over
--   Link/Rounds and Link/Wire, and Link/Through a partial frame all the way. Link/Message is one
--   message after another, over Protocol/Reassembly/Current, Link/Transmit a frame with its
--   compression, and Link/Broadcast a run of rounds of the source, with proofs in
--   Link/Broadcast/Steps, Rounds, Delivery and Answered.
--   Link/Recorder is the loop of the target with the .ibt writer, with
--   proofs in Link/Unseen and Link/Together.
-- - Examples: tests and instances at small inputs.
--
-- Choices. Numbers are natural numbers, with the wrap-around of the code's types written out where
-- the code can reach it; an i32 is kept as its 32 bits. Bytes in the order of the machine are
-- little-endian, as on x64. The counters of statistics and of dropped sequences are unbounded. The
-- program is the release build: sums wrap and do not panic. A write past a buffer changes nothing in
-- the model, and a slice past its end is cut off, where the code would panic: `IsReceiver` and
-- `IsTarget` bound the indices of the receiver and the target, whatever arrives; for the slices that
-- the source takes of the memory of the game this needs `IsPlainMemory` in Source/Run/Slices, and
-- for a malformed memory (a prefix longer than the buffers, a buffer with a negative offset) the code
-- panics where the model goes on. An `Instant` is a number of microseconds, and the
-- difference of an Instant and a duration stops at 0. A round of a loop reads the clock once. All
-- recursion is structural: the loops over fragments, words, buffers and attempts count down, so no
-- fuel is needed. The two endless loops are modelled by their round, and as a run over a list of
-- rounds with what each gets from the outside; their result is `none` where the list ends first.
--
-- Parameters: the transport of the sender is a function on a state `W`, which fails or succeeds;
-- compression and decompression (lz4_flex) are functions with the law, stated in
-- Link/Frames as `Codec`, that decompressing what was compressed gives it back; the shared memory of
-- the game is what the three reads of a round show; creating the target's memory, starting the
-- FanaLab process and the clock are inputs of a round. What a round of the target does to the outside
-- is its list of effects.
--
-- For the .ibt writer the file system is a record of operations on a state, each of which can fail;
-- Ibt/Recording states as `IsReliable` what the operations do where none fails. The name of a file is
-- its date and its number; an f64 is its 64 bits, and the order of f64 is a parameter. The calls of
-- Win32 are a record of functions on a state, with what they do to open handles, mapped views and a
-- clock of pauses stated in Telemetry/Windows/Balance as `Counts` and `Pauses`. The calls of the
-- network and the parsing of addresses are parameters of Setup, with what they add to a log stated in
-- Setup/Calls as `IsLogged`; so are files and processes in Target/Stub, with `Renames`. Where sizes
-- of messages matter, Link/Transmit states as `IsBounded` that the compression of some bytes is some
-- and at most so many bytes. The calls of the system in Platform are a record `Os`; that these calls,
-- those of the network and the transport leave handles and views of the memory alone is stated in
-- Source/Run/Neutral as `IsApart`. Reading the command line (clap) is a function that gives the
-- options that are there, or fails; the Ctrl-C handler is whether a round finds shutdown requested.
--
-- Not modelled: printed lines, with the rates that only they show; the names of the shared memory and
-- of the temporary files, and the security descriptor, which are inside the calls of the system; the
-- empty functions of teleport/src/platform.rs, which stand in on other systems; what clap does with a
-- command line, and the texts that it shows.
mod Base
pub mod Protocol
pub mod Stats
pub mod Telemetry
pub mod Control
pub mod Platform
pub mod Setup
pub mod Target
pub mod Source
pub mod Ibt
pub mod Config
pub mod Cli
pub mod Link
pub mod Examples
