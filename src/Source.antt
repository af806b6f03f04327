-- ===== src/Source.antt =====
-- teleport/src/source.rs: which frame a round of the loop of `run` sends, and its payload.
-- The shared memory changes while the program reads it: a round reads it three times, to choose the
-- frame, to copy it, and to check the tick again.
pub mod Loop
pub mod Round
pub mod Prefix
pub mod Ticks
pub mod Cadence
pub mod Valid
pub mod Kept
pub mod Run
use iracing_teleport.Base.{
  ℕ, zero, suc, ◌+◌, ◌-◌, ◌*◌, ◌%◌, ◌^◌, min, List, ◌++◌, Bool, true, false, not, ◌&&◌, ◌||◌,
  Option, none, some, length, take, replicate, slice, overwrite, ltb, leb, ◌==◌, if◌then◌else◌,
}
use iracing_teleport.Protocol.Header.{delta_bit, u32_max}
use iracing_teleport.Protocol.Sender.{Sender}
use iracing_teleport.Protocol.Delta.{xor_delta}
use iracing_teleport.Stats.{Stats, record_dropped}
use iracing_teleport.Telemetry.{
  max_telemetry_size, irsdk_header_size, read_i32, as_usize, active_var_buf,
}

-- Times are in microseconds.
abbrev pub heartbeat_interval : ℕ
heartbeat_interval = 1000000

abbrev pub full_frame_interval : ℕ
full_frame_interval = 10 * 1000000

-- -1 as an i32, by its bits.
abbrev pub minus_one : ℕ
minus_one = 2 ^ 32 - 1

-- The loop of `session_info_end`, with `left` rounds to go.
unfoldable pub least_offset : ℕ → ℕ → List ℕ → ℕ → ℕ
least_offset zero i bytes min_off = min_off
least_offset (suc left) i bytes min_off =
    let b = 48 + i * 16 in
    let off = as_usize (read_i32 bytes (b + 4)) in
    let nearer =
      if ltb irsdk_header_size off && ltb off (length bytes) then min min_off off else min_off in
    let rest = least_offset left (i + 1) bytes nearer in
    if ltb (length bytes) (b + 8) then length bytes else rest

unfoldable pub session_info_end : List ℕ → ℕ
session_info_end bytes =
    let num_buf = min (as_usize (read_i32 bytes 32)) 4 in
    if ltb (length bytes) irsdk_header_size
    then length bytes
    else if num_buf == 0
    then length bytes
    else least_offset num_buf 0 bytes (length bytes)

-- The arguments of `run` that the loop reads; times in microseconds.
pub record Config : Type 0 where
  pub no_delta : Bool
  pub keyframe_interval : ℕ
  pub reconnect_timeout : ℕ
  pub has_stats : Bool

-- The variables of the loop. An i32 is kept as its 32 bits. The contents of `partial_staging` are
-- written in the round that reads them, and are a local value here.
pub record Source : Type 0 where
  pub sender : Sender
  pub stats : Stats
  pub last_data : ℕ
  pub last_heartbeat : ℕ
  pub got_data : Bool
  pub last_session_update : ℕ
  pub last_full_frame : ℕ
  pub pending_resync : Bool
  pub prev_varbuf : List ℕ
  pub delta_buf : List ℕ
  pub target_supports_delta : Bool
  pub tick_counter : ℕ
  pub last_tick : ℕ

-- `(buf_offset, payload_slice, tick_before, tick_field_off)`; the slice starts at `start` and is
-- `len` bytes long.
pub record Choice : Type 0 where
  pub buf_offset : ℕ
  pub start : ℕ
  pub len : ℕ
  pub tick_before : ℕ
  pub tick_field_off : ℕ

abbrev full_choice : List ℕ → Choice
full_choice seen = record {
  buf_offset = u32_max;
  start = 0;
  len = length seen;
  tick_before = 0;
  tick_field_off = 0;
}

-- The choice of the frame.
unfoldable pub choose : ℕ → List ℕ → Source → Choice × Source
choose now seen s =
    let force_full = leb full_frame_interval (now - s.last_full_frame) || s.pending_resync in
    let session_update = if leb 16 (length seen) then read_i32 seen 12 else 0 in
    if not (session_update == s.last_session_update) || force_full
    then (
      full_choice seen,
      record s {
        last_session_update = session_update;
        last_full_frame = now;
        pending_resync = false;
      },
    )
    else elim (active_var_buf seen) [
      | none ↦ (full_choice seen, record s { last_full_frame = now; pending_resync = false })
      | some a ↦ (
        record {
          buf_offset = a.off % 2 ^ 32;
          start = a.off;
          len = a.len;
          tick_before = a.tick;
          tick_field_off = a.tick_off;
        },
        s,
      )
    ]

-- What is compressed and sent, or that the round ends (`continue`).
pub data Payload : Type 0 where
  skip : Payload
  frame : List ℕ → Bool → ℕ → Payload

-- The payload of a session-info frame: the static prefix with the status zeroed. A prefix longer than
-- `partial_staging` makes the code panic, and is taken whole here.
unfoldable pub prefix_payload : List ℕ → Source → Payload × Source
prefix_payload copied s = (
  frame (take (session_info_end copied) (overwrite copied 4 (replicate 4 0))) false u32_max,
  record s { tick_counter = 0; last_tick = minus_one },
)

-- Whether a partial frame is sent as a delta.
unfoldable pub uses_delta : Config → Source → Bool
uses_delta cfg s =
    not cfg.no_delta
    && s.target_supports_delta
    && ltb 0 cfg.keyframe_interval
    && not (s.tick_counter % cfg.keyframe_interval == 0)

-- The end of the branch of a partial frame, on the bytes that were staged.
unfoldable pub encode : Config → ℕ → List ℕ → Source → Payload × Source
encode cfg buf_offset staged s =
    let full_len = length staged in
    let delta = xor_delta staged (take full_len s.prev_varbuf) (take full_len s.delta_buf) in
    let s' : Source = record s {
      prev_varbuf = overwrite s.prev_varbuf 0 staged;
      tick_counter = (s.tick_counter + 1) % 2 ^ 32;
    } in
    if uses_delta cfg s
    then (
      frame delta true (buf_offset % delta_bit + delta_bit),
      record s' { delta_buf = overwrite s.delta_buf 0 delta },
    )
    else (frame staged false buf_offset, s')

-- The payload of a partial frame: the header, then the variables. A slice past the memory makes the
-- code panic, and is cut off here.
unfoldable pub partial_payload : Config → Choice → List ℕ → List ℕ → Source → Payload × Source
partial_payload cfg c copied rechecked s =
    let staged = take irsdk_header_size copied ++ slice copied c.start (c.start + c.len) in
    let tick_after =
      if leb (c.tick_field_off + 4) (length rechecked)
      then read_i32 rechecked c.tick_field_off
      else c.tick_before in
    if ltb max_telemetry_size (irsdk_header_size + c.len)
    then (skip, s)
    else if not (tick_after == c.tick_before)
    then (skip, record s { stats = record_dropped s.stats 1 })
    else if c.tick_before == s.last_tick
    then (skip, s)
    else encode cfg c.buf_offset staged (record s { last_tick = c.tick_before })

unfoldable pub payload_of : Config → Choice → List ℕ → List ℕ → Source → Payload × Source
payload_of cfg c copied rechecked s =
    if c.buf_offset == u32_max
    then prefix_payload copied s
    else partial_payload cfg c copied rechecked s
