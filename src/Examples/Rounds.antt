-- ===== src/Examples/Rounds.antt =====
-- teleport/src/source.rs, target.rs, stats.rs and telemetry/windows.rs at small inputs: a memory of
-- 114 bytes with one buffer of two bytes past the header.
use iracing_teleport.Base.{
  none, zero, suc, ℕ, ◌+◌, ◌≤◌, ◌<◌, ◌≡◌, refl, ◌⊎◌, List, [], ◌∷◌, ◌++◌, false, some, arith,
  length, replicate, take, min, ◌^◌,
}
use iracing_teleport.Telemetry.{
  ActiveBuf, active_var_buf, best_slot, read_i32, as_usize, i32_gt, irsdk_header_size,
}
use iracing_teleport.Telemetry.Slots.{HasPlainOffsets, signed, active_var_buf_greatest}
use iracing_teleport.Source
use iracing_teleport.Source.{
  Source, Choice, Payload, skip, frame, choose, payload_of, partial_payload, encode, uses_delta,
  session_info_end, least_offset,
}
use iracing_teleport.Source.Loop
use iracing_teleport.Source.Loop.{poll_cap, start_data}
use iracing_teleport.Source.Round
use iracing_teleport.Source.Cadence.{HasKeyframe, encode_all, encode_all-HasKeyframe}
use iracing_teleport.Source.Prefix.{IsCounted, session_info_end_bounds, session_info_end_least}

abbrev pub game_memory : List ℕ
game_memory =
    replicate 32 0
    ++ (1 ∷ 0 ∷ 0 ∷ 0 ∷ 2 ∷ 0 ∷ 0 ∷ 0 ∷ [])
    ++ replicate 8 0
    ++ (7 ∷ 0 ∷ 0 ∷ 0 ∷ 113 ∷ 0 ∷ 0 ∷ 0 ∷ [])
    ++ replicate 57 0
    ++ (11 ∷ 22 ∷ [])

abbrev game_buffer : ActiveBuf
game_buffer = record { off = 113; len = 2; tick = 7; tick_off = 48 }

active_var_buf_runs : active_var_buf game_memory ≡ some game_buffer
unfolding active_var_buf best_slot read_i32 as_usize i32_gt
active_var_buf_runs = refl

one_buffer : 0 < min (as_usize (read_i32 game_memory 32)) 4
unfolding as_usize read_i32
one_buffer = omega arith

pub plain_offsets : HasPlainOffsets game_memory
unfolding as_usize read_i32
plain_offsets zero h = omega arith
plain_offsets (suc i) h = absurd (omega arith)

active_var_buf_greatest_example :
    (signed (read_i32 game_memory 48) ≤ signed 7)
    × (113 + 2 ≤ length game_memory)
    × ((7 ≡ 2 ^ 31) ⊎ ((7 ≡ read_i32 game_memory 48) × (113 ≡ as_usize (read_i32 game_memory 52))))
active_var_buf_greatest_example =
    active_var_buf_greatest game_memory game_buffer 0 (omega arith) plain_offsets
      active_var_buf_runs one_buffer

session_info_end_bounds_example :
    (irsdk_header_size ≤ session_info_end game_memory)
    × (session_info_end game_memory ≤ length game_memory)
session_info_end_bounds_example = session_info_end_bounds game_memory (omega arith)

counted : IsCounted game_memory (as_usize (read_i32 game_memory 52))
unfolding as_usize read_i32
counted = record { past_header = omega arith; inside = omega arith }

session_info_end_least_example : session_info_end game_memory ≤ as_usize (read_i32 game_memory 52)
session_info_end_least_example =
    session_info_end_least game_memory 0 (omega arith) one_buffer counted

-- The state before the loop.
abbrev first_source : Source
first_source = Loop.new 9000 0

abbrev pub plain_config : Source.Config
plain_config = record {
  no_delta = false;
  keyframe_interval = 60;
  reconnect_timeout = 10000000;
  has_stats = false;
}

abbrev pub game_choice : Choice
game_choice = record {
  buf_offset = 113;
  start = 113;
  len = 2;
  tick_before = 7;
  tick_field_off = 48;
}

abbrev pub game_staged : List ℕ
game_staged = take irsdk_header_size game_memory ++ (11 ∷ 22 ∷ [])

abbrev game_env : ℕ → Round.Env
game_env now = record {
  now = now;
  seen = game_memory;
  copied = game_memory;
  rechecked = game_memory;
  source_us = 64;
  cap = none;
}

abbrev third : Source.Config
third = record plain_config { keyframe_interval = 3 }

counter_small : first_source.tick_counter < 2 ^ 32
unfolding Loop.new
counter_small = omega arith

encode_all-HasKeyframe_example : HasKeyframe (
    encode_all third
      ((113, game_staged) ∷ (113, game_staged) ∷ (113, game_staged) ∷ [])
      first_source)
encode_all-HasKeyframe_example =
    encode_all-HasKeyframe third ((113, game_staged) ∷ (113, game_staged) ∷ (113, game_staged) ∷ [])
      first_source (omega arith) counter_small refl
