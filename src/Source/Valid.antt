-- ===== src/Source/Valid.antt =====
-- What holds of the source's variables in every round (teleport/src/source.rs): its sender stays
-- valid, its buffers keep their sizes and the counter of partial frames is a u32.
use iracing_teleport.Base.{
  ℕ, ◌+◌, ◌^◌, ◌<◌, ◌≡◌, subst, List, ◌++◌, Bool, Option, none, some, arith, length, take, slice,
  length-overwrite, length-replicate, min, max, ◌==◌,
}
use iracing_teleport.Control.{Control}
use iracing_teleport.Protocol.Header.{header_bytes, u32_max}
use iracing_teleport.Protocol.Sender.{
  Sender, Result, send, send_heartbeat, with_datagram_size, heartbeat_header,
}
use iracing_teleport.Protocol.Sender.Datagrams.{IsSender, send_refines}
use iracing_teleport.Protocol.Delta.{xor_delta}
use iracing_teleport.Telemetry.{max_telemetry_size, irsdk_header_size}
use iracing_teleport.Source.{
  Source, Config, Choice, Payload, skip, frame, choose, prefix_payload, partial_payload, payload_of,
  encode,
}
use iracing_teleport.Source.Loop.{
  new, clamp_datagram_size, poll_cap, start_data, disconnect, keep_alive, idle, record_sent,
  Opening,
}
use iracing_teleport.Source.Round.{
  Env, Event, shutdown, no_data, new_data, report, send_compressed, transmit, send_data, step,
}

pub record IsSource (s : Source) : Type 0 where
  pub sender : IsSender s.sender
  pub prev_size : length s.prev_varbuf ≡ max_telemetry_size
  pub delta_size : length s.delta_buf ≡ max_telemetry_size
  pub counter_u32 : s.tick_counter < 2 ^ 32

pub new-IsSource : (datagram_size now : ℕ) → IsSource (new datagram_size now)
unfolding new with_datagram_size clamp_datagram_size
new-IsSource datagram_size now = record {
  sender = ground (arith, length-replicate {A = ℕ} (max (min (max datagram_size 64) 65507) 25) 0);
  prev_size = length-replicate {A = ℕ} max_telemetry_size 0;
  delta_size = length-replicate {A = ℕ} max_telemetry_size 0;
  counter_u32 = omega arith;
}

poll_cap-IsSource :
    (cfg : Config) (cap : Option (ℕ × ℕ)) (s : Source) → IsSource s → IsSource (poll_cap cfg cap s)
unfolding poll_cap
poll_cap-IsSource cfg none s v = v
poll_cap-IsSource cfg (some (flag, capabilities)) s v = ground arith

pub choose-IsSource :
    (now : ℕ) (seen : List ℕ) (s : Source)
    → IsSource s
    → IsSource (choose now seen (start_data now s)).1
unfolding choose start_data
choose-IsSource now seen s v = ground arith

encode-IsSource :
    (cfg : Config) (off : ℕ) (staged : List ℕ) (s : Source)
    → IsSource s
    → IsSource (encode cfg off staged s).1
unfolding encode
encode-IsSource cfg off staged s v =
    let n = length staged in
    ground (
      arith,
      length-overwrite s.prev_varbuf 0 staged,
      length-overwrite s.delta_buf 0 (xor_delta staged (take n s.prev_varbuf) (take n s.delta_buf)),
    )

payload_of-IsSource :
    (cfg : Config) (c : Choice) (copied rechecked : List ℕ) (s : Source)
    → IsSource s
    → IsSource (payload_of cfg c copied rechecked s).1
unfolding payload_of prefix_payload partial_payload
payload_of-IsSource cfg c copied rechecked s v =
    let staged = take irsdk_header_size copied ++ slice copied c.start (c.start + c.len) in
    let ticked : Source = record s { last_tick = c.tick_before } in
    let ticked_valid : IsSource ticked = ground arith in
    ground (arith, encode-IsSource cfg c.buf_offset staged ticked ticked_valid)

record_sent-IsSource :
    (a b c : ℕ) (full delta : Bool) (sent : Result ℕ) (s : Source)
    → IsSource s
    → IsSource (record_sent a b c full delta sent s)
unfolding record_sent
record_sent-IsSource a b c full delta sent s v = ground arith

report-IsSource : (cfg : Config) (now : ℕ) (s : Source) → IsSource s → IsSource (report cfg now s).0
unfolding report
report-IsSource cfg now s v = ground arith

module _ {W : Type 0} (send_fn : List ℕ → W → Result (Unit {0}) × W) where
  send_heartbeat-IsSender :
      (s : Sender) (w : W) → IsSender s → IsSender (send_heartbeat send_fn s w).1
  unfolding send_heartbeat
  send_heartbeat-IsSender s w v =
      ground (arith, length-overwrite s.buf 0 (header_bytes heartbeat_header))

  keep_alive-IsSource :
      (cfg : Config) (now : ℕ) (cap : Option (ℕ × ℕ)) (s : Source) (w : W)
      → IsSource s
      → IsSource (keep_alive send_fn cfg now cap s w).0
  unfolding keep_alive
  keep_alive-IsSource cfg now cap s w v =
      let polled = poll_cap cfg cap s in
      let polled_valid = poll_cap-IsSource cfg cap s v in
      ground (arith, polled_valid, send_heartbeat-IsSender polled.sender w polled_valid.sender)

  -- The state after a round without data, if the program does not still wait for the game.
  abbrev IdleValid : Option (Control × Source × W) → Type 0
  IdleValid none = Unit
  IdleValid (some (control, s, w)) = IsSource s

  idle-IsSource :
      (cfg : Config) (now : ℕ) (cap : Option (ℕ × ℕ)) (attempts : List (Opening × Bool)) (later : ℕ)
      (s : Source) (w : W)
      → IsSource s
      → IdleValid (idle send_fn cfg now cap attempts later s w)
  unfolding idle disconnect
  idle-IsSource cfg now cap attempts later s w v =
      ground (arith, keep_alive-IsSource cfg now cap s w v)

  module _ (compress_into : List ℕ → Option (List ℕ)) where
    send_compressed-IsSource :
        (cfg : Config) (env : Env) (off len : ℕ) (is_delta : Bool) (wire : ℕ)
        (compressed : Option (List ℕ)) (s : Source) (w : W)
        → IsSource s
        → IsSource
            (send_compressed compress_into send_fn cfg env off len is_delta wire compressed s w).0
    unfolding send_compressed
    send_compressed-IsSource cfg env off len is_delta wire none s w v = v
    send_compressed-IsSource cfg env off len is_delta wire (some c) s w v =
        let (sent, sender, w') = send send_fn s.sender c env.source_us wire w in
        let (_, sender_valid, _) = send_refines send_fn s.sender c env.source_us wire w v.sender in
        let handed : Source = record s { sender = sender } in
        let handed_valid : IsSource handed = record {
          sender = sender_valid;
          prev_size = v.prev_size;
          delta_size = v.delta_size;
          counter_u32 = v.counter_u32;
        } in
        let recorded =
          record_sent (length c) len env.source_us (off == u32_max) is_delta sent handed in
        let recorded_valid =
          record_sent-IsSource (length c) len env.source_us (off == u32_max) is_delta sent handed
            handed_valid in
        let beaten : Source = record recorded { last_heartbeat = s.last_data } in
        let beaten_valid : IsSource beaten = record {
          sender = recorded_valid.sender;
          prev_size = recorded_valid.prev_size;
          delta_size = recorded_valid.delta_size;
          counter_u32 = recorded_valid.counter_u32;
        } in
        report-IsSource cfg env.now (poll_cap cfg env.cap beaten)
          (poll_cap-IsSource cfg env.cap beaten beaten_valid)

    transmit-IsSource :
        (cfg : Config) (env : Env) (off : ℕ) (p : Payload) (s : Source) (w : W)
        → IsSource s
        → IsSource (transmit compress_into send_fn cfg env off p s w).0
    unfolding transmit
    transmit-IsSource cfg env off skip s w v = v
    transmit-IsSource cfg env off (frame bytes is_delta wire) s w v =
        send_compressed-IsSource cfg env off (length bytes) is_delta wire (compress_into bytes) s w
          v

    send_data-IsSource :
        (cfg : Config) (env : Env) (s : Source) (w : W)
        → IsSource s
        → IsSource (send_data compress_into send_fn cfg env s w).0
    unfolding send_data
    send_data-IsSource cfg env s w v =
        let (choice, chosen) = choose env.now env.seen (start_data env.now s) in
        let (payload, s') = payload_of cfg choice env.copied env.rechecked chosen in
        transmit-IsSource cfg env choice.buf_offset payload s' w (
          payload_of-IsSource cfg choice env.copied env.rechecked chosen
            (choose-IsSource env.now env.seen s v))

    -- The state after a round, if there is one.
    abbrev pub RoundValid : Option (Control × Source × Option (ℕ × ℕ × ℕ) × W) → Type 0
    RoundValid none = Unit
    RoundValid (some (control, s, snapshot, w)) = IsSource s

    pub step-RoundValid :
        (cfg : Config) (s : Source) (w : W) (event : Event)
        → IsSource s
        → RoundValid (step compress_into send_fn cfg s w event)
    unfolding step
    step-RoundValid cfg s w shutdown v = v
    step-RoundValid cfg s w (no_data now cap attempts later) v =
        ground (arith, idle-IsSource cfg now cap attempts later s w v)
    step-RoundValid cfg s w (new_data env) v = send_data-IsSource cfg env s w v

    -- Each round of the source keeps it valid, whatever the memory of the game shows and whatever
    -- the transport does, unless the program still waits for the game at the end of it.
    pub step-IsSource :
        (cfg : Config) (s s' : Source) (w w' : W) (event : Event) (control : Control)
        (snapshot : Option (ℕ × ℕ × ℕ))
        → IsSource s
        → step compress_into send_fn cfg s w event ≡ some (control, s', snapshot, w')
        → IsSource s'
    step-IsSource cfg s s' w w' event control snapshot v e =
        subst RoundValid e (step-RoundValid cfg s w event v)
