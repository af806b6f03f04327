-- ===== src/Source/Loop.antt =====
-- teleport/src/source.rs, a round of the loop of `run`, and `try_open`. Outside it, and so
-- parameters: the compression (lz4_flex), the socket, with a state `W`, and the clock, which is
-- read once in a round and once more for the time that the compression took.
use iracing_teleport.Base.{
  ℕ, ◌-◌, ◌%◌, List, [], ◌∷◌, Bool, true, false, Option, none, some, replicate, leb, ◌==◌,
  if◌then◌else◌, min, max,
}
use iracing_teleport.Control.{Control, running, stopped, failed}
use iracing_teleport.Protocol.Sender.{
  invalid_data, would_block, timed_out, other, Result, ok, err, with_datagram_size, send_heartbeat,
}
use iracing_teleport.Stats
use iracing_teleport.Stats.{record_frame, record_dropped, maybe_print, lifetime_snapshot}
use iracing_teleport.Telemetry.{max_telemetry_size}
use iracing_teleport.Source.{Source, Config, minus_one, full_frame_interval, heartbeat_interval}

-- `datagram_size.clamp(64, 65_507)`
unfoldable pub clamp_datagram_size : ℕ → ℕ
clamp_datagram_size datagram_size = min (max datagram_size 64) 65507

-- The variables before the loop.
unfoldable pub new : ℕ → ℕ → Source
new datagram_size now = record {
  sender = with_datagram_size (clamp_datagram_size datagram_size);
  stats = Stats.new now;
  last_data = now;
  last_heartbeat = now;
  got_data = false;
  last_session_update = minus_one;
  last_full_frame = now;
  pending_resync = false;
  prev_varbuf = replicate max_telemetry_size 0;
  delta_buf = replicate max_telemetry_size 0;
  target_supports_delta = false;
  tick_counter = 0;
  last_tick = minus_one;
}

-- The result of `Telemetry::open`.
pub data Opening : Type 0 where
  opened : Opening
  unavailable : Opening
  refused : Opening

pub data OpenResult : Type 0 where
  connected : OpenResult
  retry : OpenResult
  shutdown : OpenResult

-- `try_open`; the flag says whether shutdown is requested in the five seconds that it waits.
unfoldable pub try_open : Opening → Bool → Result OpenResult
try_open opened requested = ok connected
try_open refused requested = err other
try_open unavailable requested = ok (if requested then shutdown else retry)

-- The loop around `try_open`, over the attempts that were made; `none` while it still waits.
unfoldable pub wait_for_game : List (Opening × Bool) → Option (Result OpenResult)
wait_for_game [] = none
wait_for_game ((opening, requested) ∷ attempts) =
    let later = wait_for_game attempts in
    elim (try_open opening requested) [
      | ok connected ↦ some (ok connected)
      | ok shutdown ↦ some (ok shutdown)
      | ok retry ↦ later
      | err e ↦ some (err e)
    ]

-- A packet from a target asks for a full frame, and says what the target can do.
unfoldable pub poll_cap : Config → Option (ℕ × ℕ) → Source → Source
poll_cap cfg none s = s
poll_cap cfg (some (flag, capabilities)) s = record s {
  pending_resync = true;
  target_supports_delta = if cfg.no_delta then s.target_supports_delta else capabilities % 2 == 1;
}

-- The first data of a connection forces a full frame.
unfoldable pub start_data : ℕ → Source → Source
start_data now s = record s {
  got_data = true;
  last_full_frame = if s.got_data then s.last_full_frame else now - full_frame_interval;
  last_data = now;
}

-- The state that is reset before the program waits for the game again.
unfoldable pub disconnect : ℕ → Source → Source
disconnect now s = record s {
  got_data = false;
  last_session_update = minus_one;
  last_full_frame = now - full_frame_interval;
  tick_counter = 0;
  last_tick = minus_one;
}

-- The statistics of a frame that was handed to the socket.
unfoldable pub record_sent : ℕ → ℕ → ℕ → Bool → Bool → Result ℕ → Source → Source
record_sent compressed_len payload_len source_us is_full is_delta (ok n) s = record s {
  stats = record_frame s.stats compressed_len payload_len source_us 0 is_full is_delta;
}
record_sent compressed_len payload_len source_us is_full is_delta (err would_block) s = record s {
  stats = record_dropped s.stats 1;
}
record_sent compressed_len payload_len source_us is_full is_delta (err invalid_data) s = s
record_sent compressed_len payload_len source_us is_full is_delta (err timed_out) s = s
record_sent compressed_len payload_len source_us is_full is_delta (err other) s = s

module _ {W : Type 0} (send_fn : List ℕ → W → Result (Unit {0}) × W) where
  -- A round without data: packets of targets, the heartbeat.
  unfoldable pub keep_alive : Config → ℕ → Option (ℕ × ℕ) → Source → W → Source × W
  keep_alive cfg now cap s w =
      let polled = poll_cap cfg cap s in
      let (sent, sender, w') = send_heartbeat send_fn polled.sender w in
      if leb heartbeat_interval (now - polled.last_heartbeat)
      then (record polled { sender = sender; last_heartbeat = now }, w')
      else (polled, w)

  -- A round without data. `attempts` are those of opening the memory again, should the reconnect
  -- timeout have passed, and `later` is the time then; `none` while the program still waits.
  unfoldable pub idle :
      Config
      → ℕ
      → Option (ℕ × ℕ)
      → List (Opening × Bool)
      → ℕ
      → Source
      → W
      → Option (Control × Source × W)
  idle cfg now cap attempts later s w =
      let (s', w') = keep_alive cfg now cap s w in
      let gone = disconnect now s' in
      let back = record gone { last_data = later; stats = Stats.new later } in
      if leb cfg.reconnect_timeout (now - s'.last_data)
      then elim (wait_for_game attempts) [
        | none ↦ none
        | some (ok connected) ↦ some (running, back, w')
        | some (ok shutdown) ↦ some (stopped, gone, w')
        | some (ok retry) ↦ none
        | some (err e) ↦ some (failed e, gone, w')
      ]
      else some (running, s', w')
