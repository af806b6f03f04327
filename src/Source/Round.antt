-- ===== src/Source/Round.antt =====
-- teleport/src/source.rs, a round of the loop of `run` that has data, and the round as a whole.
use iracing_teleport.Base.{ℕ, List, Bool, ◌&&◌, Option, none, some, length, ◌==◌, if◌then◌else◌}
use iracing_teleport.Control.{Control, running, stopped}
use iracing_teleport.Protocol.Header.{u32_max}
use iracing_teleport.Protocol.Sender.{Result, send}
use iracing_teleport.Stats.{maybe_print, lifetime_snapshot}
use iracing_teleport.Source.{Source, Config, Payload, skip, frame, choose, payload_of}
use iracing_teleport.Source.Loop.{Opening, poll_cap, start_data, idle, record_sent}

-- What a round gets from the outside: the time, what the three reads of the shared memory show, the
-- time that the compression took, and a packet of a target.
pub record Env : Type 0 where
  pub now : ℕ
  pub seen : List ℕ
  pub copied : List ℕ
  pub rechecked : List ℕ
  pub source_us : ℕ
  pub cap : Option (ℕ × ℕ)

-- The numbers for the callback, if the window of the statistics ended.
unfoldable pub report : Config → ℕ → Source → Source × Option (ℕ × ℕ × ℕ)
report cfg now s =
    let (printed, stats) = maybe_print s.stats now in
    let snapshot : Option (ℕ × ℕ × ℕ) =
      if printed && cfg.has_stats then some (lifetime_snapshot stats) else none in
    (record s { stats = stats }, snapshot)

-- What starts a round.
pub data Event : Type 0 where
  shutdown : Event
  no_data : ℕ → Option (ℕ × ℕ) → List (Opening × Bool) → ℕ → Event
  new_data : Env → Event

module _ (compress_into : List ℕ → Option (List ℕ)) {W : Type 0}
    (send_fn : List ℕ → W → Result (Unit {0}) × W) where
  -- What follows the compression, which can fail.
  unfoldable pub send_compressed :
      Config
      → Env
      → ℕ
      → ℕ
      → Bool
      → ℕ
      → Option (List ℕ)
      → Source
      → W
      → Source × Option (ℕ × ℕ × ℕ) × W
  send_compressed cfg env buf_offset payload_len is_delta wire none s w = (s, none, w)
  send_compressed cfg env buf_offset payload_len is_delta wire (some compressed) s w =
      let (sent, sender, w') = send send_fn s.sender compressed env.source_us wire w in
      let recorded =
        record_sent (length compressed) payload_len env.source_us (buf_offset == u32_max) is_delta
          sent (record s { sender = sender }) in
      let polled = poll_cap cfg env.cap (record recorded { last_heartbeat = s.last_data }) in
      let (s', snapshot) = report cfg env.now polled in (s', snapshot, w')

  -- The compression, the sending and what follows it.
  unfoldable pub transmit :
      Config → Env → ℕ → Payload → Source → W → Source × Option (ℕ × ℕ × ℕ) × W
  transmit cfg env buf_offset skip s w = (s, none, w)
  transmit cfg env buf_offset (frame payload is_delta wire) s w =
      send_compressed cfg env buf_offset (length payload) is_delta wire (compress_into payload) s w

  -- A round with data.
  unfoldable pub send_data : Config → Env → Source → W → Source × Option (ℕ × ℕ × ℕ) × W
  send_data cfg env s w =
      let (choice, chosen) = choose env.now env.seen (start_data env.now s) in
      let (payload, s') = payload_of cfg choice env.copied env.rechecked chosen in
      transmit cfg env choice.buf_offset payload s' w

  -- A round of the loop; `none` while it waits for the game. On shutdown the memory of the game is
  -- zeroed by the system, on which the state does not depend.
  unfoldable pub step :
      Config → Source → W → Event → Option (Control × Source × Option (ℕ × ℕ × ℕ) × W)
  step cfg s w shutdown = some (stopped, s, none, w)
  step cfg s w (no_data now cap attempts later) =
      elim (idle send_fn cfg now cap attempts later s w) [
        | none ↦ none
        | some (control, s', w') ↦ some (control, s', none, w')
      ]
  step cfg s w (new_data env) =
      let (s', snapshot, w') = send_data cfg env s w in some (running, s', snapshot, w')
