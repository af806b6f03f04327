-- ===== src/Source/Kept.antt =====
-- What the parts of a round of teleport/src/source.rs leave alone: the last frame, the buffer of the
-- deltas, the counter of partial frames, and the sender.
use iracing_teleport.Base.{
  ℕ, ◌+◌, ◌≡◌, refl, inl, inr, List, ◌++◌, Bool, not, Option, none, some, arith, length, take,
  slice, ltb, leb, ◌==◌, if◌then◌else◌, Bool-cases,
}
use iracing_teleport.Protocol.Sender.{Result, ok, err, would_block}
use iracing_teleport.Stats.{record_dropped}
use iracing_teleport.Telemetry.{irsdk_header_size, max_telemetry_size, read_i32}
use iracing_teleport.Source.{Source, Config, Choice, Payload, skip, choose, encode, partial_payload}
use iracing_teleport.Source.Loop.{record_sent, poll_cap, start_data}

-- What sending leaves alone in the source.
pub record IsKept (s s' : Source) : Type 0 where
  pub prev_varbuf : s'.prev_varbuf ≡ s.prev_varbuf
  pub delta_buf : s'.delta_buf ≡ s.delta_buf
  pub tick_counter : s'.tick_counter ≡ s.tick_counter

pub record_sent-IsKept :
    (compressed_len payload_len source_us : ℕ) (is_full is_delta : Bool) (r : Result ℕ) (s : Source)
    → let s' = record_sent compressed_len payload_len source_us is_full is_delta r s in
      IsKept s s' × (s'.sender ≡ s.sender)
unfolding record_sent
record_sent-IsKept compressed_len payload_len source_us is_full is_delta (ok n) s = ground arith
record_sent-IsKept compressed_len payload_len source_us is_full is_delta (err would_block) s =
    ground arith
record_sent-IsKept compressed_len payload_len source_us is_full is_delta (err e) s = ground arith

pub poll_cap-IsKept :
    (cfg : Config) (cap : Option (ℕ × ℕ)) (s : Source)
    → IsKept s (poll_cap cfg cap s) × ((poll_cap cfg cap s).sender ≡ s.sender)
unfolding poll_cap
poll_cap-IsKept cfg none s = ground arith
poll_cap-IsKept cfg (some (flag, capabilities)) s = ground arith

pub start_data-IsKept :
    (now : ℕ) (s : Source) → IsKept s (start_data now s) × ((start_data now s).sender ≡ s.sender)
unfolding start_data
start_data-IsKept now s = ground arith

pub choose-IsKept :
    (now : ℕ) (seen : List ℕ) (s : Source)
    → IsKept s (choose now seen s).1 × ((choose now seen s).1.sender ≡ s.sender)
unfolding choose
choose-IsKept now seen s = ground arith

-- The bytes that a partial frame stages.
abbrev pub staged_of : List ℕ → Choice → List ℕ
staged_of copied c = take irsdk_header_size copied ++ slice copied c.start (c.start + c.len)

-- A round with data that chose a partial frame ends, or encodes what it staged.
pub data IsPartial (cfg : Config) (c : Choice) (copied : List ℕ) (s : Source) (x : Payload × Source)
    : Type 0 where
  skips :
      (s' : Source)
      → IsKept s s'
      → s'.sender ≡ s.sender
      → x ≡ (skip, s')
      → IsPartial cfg c copied s x
  encodes :
      (s' : Source)
      → IsKept s s'
      → s'.sender ≡ s.sender
      → x ≡ encode cfg c.buf_offset (staged_of copied c) s'
      → IsPartial cfg c copied s x

pub partial_payload-IsPartial :
    (cfg : Config) (c : Choice) (copied rechecked : List ℕ) (s : Source)
    → IsPartial cfg c copied s (partial_payload cfg c copied rechecked s)
unfolding partial_payload
partial_payload-IsPartial cfg c copied rechecked s =
    let tick_after =
      if leb (c.tick_field_off + 4) (length rechecked)
      then read_i32 rechecked c.tick_field_off
      else c.tick_before in
    let dropped : Source = record s { stats = record_dropped s.stats 1 } in
    let ticked : Source = record s { last_tick = c.tick_before } in
    elim (Bool-cases (ltb max_telemetry_size (irsdk_header_size + c.len))) [
      | inl large ↦ rw large (skips s (ground arith) refl refl)
      | inr fits ↦ elim (Bool-cases (not (tick_after == c.tick_before))) [
        | inl torn ↦ rw (fits, torn) (skips dropped (ground arith) refl refl)
        | inr whole ↦ elim (Bool-cases (c.tick_before == s.last_tick)) [
          | inl repeated ↦ rw (fits, whole, repeated) (skips s (ground arith) refl refl)
          | inr fresh ↦ rw (fits, whole, fresh) (encodes ticked (ground arith) refl refl)
        ]
      ]
    ]
