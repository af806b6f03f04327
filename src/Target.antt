-- ===== src/Target.antt =====
-- teleport/src/target.rs, the loop of `run`: what a received datagram and a quiet socket do.
-- Outside it, and so parameters: the decompression (lz4_flex), the creation of the shared memory,
-- the start of the FanaLab process, the clock. What the loop does to the outside is a list of
-- effects. The clock is read once in each round of the loop. `partial_staging` holds only what was
-- decompressed in the same round, and is a local value here.
pub mod Loop
pub mod Status
pub mod Valid
pub mod Sizes
pub mod Stub
pub mod Directory
pub mod Run
use iracing_teleport.Base.{
  ℕ, ◌+◌, ◌-◌, ◌*◌, ◌/◌, ◌%◌, ◌^◌, min, List, [], ◌∷◌, ◌++◌, Bool, true, false, not, ◌&&◌, ◌||◌,
  Option, none, some, length, take, drop, replicate, slice, overwrite, ltb, leb, ◌==◌,
  if◌then◌else◌,
}
use iracing_teleport.Protocol.Header.{delta_bit, u32_max}
use iracing_teleport.Protocol.Sender.{ErrorKind, other}
use iracing_teleport.Protocol.Receiver.{Receiver, Ingested, ingest}
use iracing_teleport.Protocol.Delta.{xor_delta}
use iracing_teleport.Stats.{Stats, record_frame, record_dropped, maybe_print, lifetime_snapshot}
use iracing_teleport.Telemetry.{irsdk_header_size}

abbrev pub resync_request_interval : ℕ
resync_request_interval = 1000000

-- What the loop does to the outside, in order. A `write` copies bytes into the shared memory.
pub data Effect : Type 0 where
  create : Effect
  write : ℕ → List ℕ → Effect
  first_data : Effect
  spawn_stub : Effect
  stop_stub : Effect
  signal_data_ready : Effect
  stats_callback : ℕ → ℕ → ℕ → Effect
  map_update : List ℕ → Effect
  finish_ibt : Effect
  stale : Effect
  send_to : ℕ → List ℕ → Effect

-- The arguments of `run` that the loop reads: which callbacks are given, too.
pub record Config : Type 0 where
  pub fanalab : Bool
  pub write_ibt : Bool
  pub has_first_data : Bool
  pub has_stale : Bool
  pub has_stats : Bool
  pub stale_timeout : ℕ

-- What a round of the loop gets from the outside: the time, the shared memory if its creation
-- succeeds, and whether the FanaLab process starts.
pub record Env : Type 0 where
  pub now : ℕ
  pub created : Option (List ℕ)
  pub spawned : Bool

-- The variables of the loop.
pub record Target : Type 0 where
  pub proto : Receiver
  pub prev_varbuf : List ℕ
  pub reconstruct_buf : List ℕ
  pub telemetry : Option (List ℕ)
  pub last_update : ℕ
  pub stats : Stats
  pub seq_start : Option ℕ
  pub has_full_frame : Bool
  pub first_data_called : Bool
  pub source_addr : Option ℕ
  pub last_resync_request : ℕ
  pub fanalab_stub : Bool

-- How a frame was handled: the round is over (`continue`), the memory was written from so many
-- decompressed bytes, or nothing was done.
pub data Handled : Type 0 where
  continued : Handled
  wrote : ℕ → Handled
  unwritten : Handled

unfoldable pub when : Bool → List Effect → List Effect
when true effects = effects
when false effects = []

-- The memory after one effect.
unfoldable pub apply_effect : List ℕ → Effect → List ℕ
apply_effect m (write at src) = overwrite m at src
apply_effect m _ = m

unfoldable pub apply_effects : List ℕ → List Effect → List ℕ
apply_effects m [] = m
apply_effects m (e ∷ es) = apply_effects (apply_effect m e) es

-- The copies of a session-info frame: bytes 4 to 8, the status, are skipped.
unfoldable pub prefix_writes : List ℕ → List ℕ → List Effect
prefix_writes m prefix =
    let n = min (length prefix) (length m) in
    write 0 (take 4 prefix) ∷ when (ltb 8 n) (write 8 (slice prefix 8 n) ∷ [])

-- The copies of a partial frame: the variables first, the header last.
unfoldable pub partial_writes : ℕ → List ℕ → List Effect
partial_writes real_off frame =
    write real_off (drop irsdk_header_size frame) ∷ write 0 (take irsdk_header_size frame) ∷ []

-- The branch of a session-info frame. The memory is never shorter than eight bytes.
unfoldable pub session_info :
    Config → Env → Target → List ℕ → Option (List ℕ) → Handled × Target × List Effect
session_info cfg env t m none = (continued, t, [])
session_info cfg env t m (some prefix) =
    let writes = prefix_writes m prefix in
    let start = cfg.fanalab && not t.fanalab_stub in
    if ltb (length prefix) 8 then (continued, t, []) else (
      wrote (length prefix),
      record t {
        telemetry = some (apply_effects m writes);
        has_full_frame = true;
        first_data_called = true;
        prev_varbuf = replicate (length t.prev_varbuf) 0;
        fanalab_stub = if start then env.spawned else t.fanalab_stub;
      },
      writes
          ++ when (not t.first_data_called && cfg.has_first_data) (first_data ∷ [])
          ++ when start (spawn_stub ∷ []),
    )

-- The branch of a partial frame, full or delta.
unfoldable pub partial :
    Target → List ℕ → Bool → ℕ → Option (List ℕ) → Handled × Target × List Effect
partial t m is_delta real_off none = (continued, t, [])
partial t m is_delta real_off (some dec) =
    let dec_len = length dec in
    let rebuilt = xor_delta dec (take dec_len t.prev_varbuf) (take dec_len t.reconstruct_buf) in
    let frame = if is_delta then rebuilt else dec in
    let t' : Target =
      if is_delta
      then record t { reconstruct_buf = overwrite t.reconstruct_buf 0 rebuilt }
      else t in
    let writes = partial_writes real_off frame in
    let var_len = dec_len - irsdk_header_size in
    if ltb dec_len irsdk_header_size
    then (continued, t, [])
    else if is_delta && ltb (length t.prev_varbuf) dec_len
    then (continued, t, [])
    else if ltb (length m) irsdk_header_size || ltb (length m) (real_off + var_len)
    then (continued, t', [])
    else (
      wrote dec_len,
      record t' {
        prev_varbuf = overwrite t.prev_varbuf 0 frame;
        telemetry = some (apply_effects m writes);
      },
      writes,
    )

-- `res.buf_offset != u32::MAX && (res.buf_offset & DELTA_BIT != 0)`
unfoldable pub is_delta_offset : ℕ → Bool
is_delta_offset buf_offset = not (buf_offset == u32_max) && (buf_offset / delta_bit % 2 == 1)

module _ (decompress_into : List ℕ → Option (List ℕ)) where
  -- The three branches of an assembled frame.
  unfoldable pub write_frame :
      Config → Env → Target → List ℕ → List ℕ → ℕ → Handled × Target × List Effect
  write_frame cfg env t m compressed buf_offset =
      if buf_offset == u32_max
      then session_info cfg env t m (decompress_into compressed)
      else if t.has_full_frame
      then partial t m (is_delta_offset buf_offset) (buf_offset % delta_bit)
          (decompress_into compressed)
      else (unwritten, t, [])

-- `if let Some(start) = seq_start.take()`
unfoldable pub record_latency : Env → Target → ℕ → ℕ → ℕ → Target
record_latency env t compressed_len dec_len buf_offset = elim t.seq_start [
  | none ↦ t
  | some start ↦
      let recorded =
        record_frame t.stats compressed_len dec_len t.proto.last_source_us (env.now - start)
          (buf_offset == u32_max) (is_delta_offset buf_offset) in
      record t {
        seq_start = none;
        stats = record_dropped recorded t.proto.dropped_sequences;
        proto = record t.proto { dropped_sequences = 0 };
      }
]

-- `if wrote`: the memory's bytes go to the .ibt writer.
unfoldable pub after_write : Config → Env → Target → ℕ → ℕ → ℕ → List ℕ → Target × List Effect
after_write cfg env t compressed_len dec_len buf_offset m =
    let t' = record_latency env t compressed_len dec_len buf_offset in
    let (printed, stats) = maybe_print t'.stats env.now in
    let (msgs, bytes, avg_lat) = lifetime_snapshot stats in
    (
      record t' { stats = stats; last_update = env.now },
      (signal_data_ready ∷ [])
          ++ when (printed && cfg.has_stats) (stats_callback msgs bytes avg_lat ∷ [])
          ++ when cfg.write_ibt (map_update m ∷ []),
    )

-- `if !has_full_frame`: the request for a session-info frame, at most one each second.
unfoldable pub request_resync : Env → Target → Target × List Effect
request_resync env t = elim t.source_addr [
  | none ↦ (t, [])
  | some addr ↦
      if not t.has_full_frame && leb resync_request_interval (env.now - t.last_resync_request)
      then (record t { last_resync_request = env.now }, send_to addr (1 ∷ 1 ∷ []) ∷ [])
      else (t, [])
]
