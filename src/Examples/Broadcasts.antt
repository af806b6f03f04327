-- ===== src/Examples/Broadcasts.antt =====
-- Two rounds of teleport/src/source.rs, a session-info frame and a partial frame, over datagrams to
-- the memory of teleport/src/target.rs.
use iracing_teleport.Base.{
  some, ℕ, ◌≡◌, refl, sym, subst, List, [], ◌∷◌, true, false, none, arith, replicate, overwrite,
}
use iracing_teleport.Protocol.Header.{u32_max}
use iracing_teleport.Protocol.Sender.{send, send_loop, div_ceil}
use iracing_teleport.Protocol.Reassembly.RoundTrip.{deliver}
use iracing_teleport.Protocol.Receiver
use iracing_teleport.Telemetry.Windows.{
  WindowsTelemetry, open_telemetry, drop_telemetry, is_invalid, region_size,
}
use iracing_teleport.Telemetry.{active_var_buf, best_slot, read_i32, as_usize, i32_gt}
use iracing_teleport.Stats
use iracing_teleport.Source.{
  Source, Choice, choose, payload_of, prefix_payload, session_info_end, least_offset, minus_one,
}
use iracing_teleport.Source.Loop.{start_data, record_sent, poll_cap, disconnect}
use iracing_teleport.Source.Run.{Turn, goes_on, connect, reopened, reconnect}
use iracing_teleport.Source.Round
use iracing_teleport.Source.Round.{send_data, transmit, send_compressed, report}
use iracing_teleport.Target.{Target}
use iracing_teleport.Target.Loop
use iracing_teleport.Link.Delivered.{recv_all}
use iracing_teleport.Link.Message.{IsLive}
use iracing_teleport.Link.Transmit.{IsBounded}
use iracing_teleport.Link.Broadcast.{choice_of, send_rounds, expected, IsRound, IsRoomy}
use iracing_teleport.Link.Broadcast.Answered.{IsAnswered, recv_all-poll_cap, recv_all-reconnect}
use iracing_teleport.Link.Broadcast.Delivery.{IsDone, IsRun, recv_all-send_rounds}
use iracing_teleport.Examples.Handles.{nothing}
use iracing_teleport.Examples.Runs.{outside, memory}
use iracing_teleport.Examples.Rounds.{game_memory, game_choice}
use iracing_teleport.Examples.Through.{
  plain, source_cfg, target_cfg, timed, map-timed, sender, target, sender-IsSender,
  target-IsReceiver, no_sequence,
}

abbrev source : Source
source = record {
  sender = sender;
  stats = Stats.new 0;
  last_data = 0;
  last_heartbeat = 0;
  got_data = false;
  last_session_update = 1;
  last_full_frame = 0;
  pending_resync = true;
  prev_varbuf = replicate 200 0;
  delta_buf = replicate 200 0;
  target_supports_delta = true;
  tick_counter = 0;
  last_tick = 1;
}

abbrev small_target : Target
small_target = record target { prev_varbuf = replicate 200 0; reconstruct_buf = replicate 200 0 }

abbrev at : ℕ → Round.Env
at now = record {
  now = now;
  seen = game_memory;
  copied = game_memory;
  rechecked = game_memory;
  source_us = 64;
  cap = none;
}

first_choice : (choice_of (at 20000000) source).0.buf_offset ≡ u32_max
unfolding choose start_data read_i32
first_choice = refl

second_choice :
    let (s', _, _) = send_data plain.compress_into deliver source_cfg (at 20000000) source [] in
    (choice_of (at 20016667) s').0 ≡ game_choice
unfolding send_data choose start_data payload_of prefix_payload transmit send_compressed record_sent
    poll_cap report send send_loop div_ceil active_var_buf best_slot read_i32 as_usize i32_gt
    session_info_end least_offset overwrite
second_choice = refl

holds : (n : ℕ) (c : Choice) → c ≡ game_choice → IsRound 114 200 200 (at n) c
holds n c e =
    subst (λ (x : Choice). IsRound 114 200 200 (at n) x) (sym e)
      (record {
        has_header = omega arith;
        copied_small = omega arith;
        time_u64 = omega arith;
        fits = λ _. record { frame_length = refl; frame_bytes = omega arith; room = omega arith };
      })

starts_with_prefix : IsRound 114 200 200 (at 20000000) (choice_of (at 20000000) source).0
starts_with_prefix = record {
  has_header = omega arith;
  copied_small = omega arith;
  time_u64 = omega arith;
  fits = λ other. absurd (other first_choice);
}

bounded : IsBounded plain 200 200
bounded p filled small = (filled, small)

roomy : IsRoomy 114 source small_target
roomy = omega arith

live : IsLive 200 sender small_target
unfolding Loop.new Receiver.new
live = record {
  sender_valid = sender-IsSender;
  receiver_valid = target-IsReceiver;
  opened = refl;
  small = omega arith;
  few = omega arith;
  fresh = no_sequence;
  room = omega arith;
}

abbrev two : List Round.Env
two = at 20000000 ∷ at 20016667 ∷ []

run :
    IsRun plain source_cfg target_cfg 5 200 200 114
      (omega arith)
      bounded
      (at 20000000)
      (at 20016667 ∷ [])
      source
      small_target
run = record {
  frame_min = omega arith;
  frame_max = omega arith;
  memory_min = omega arith;
  memory_max = omega arith;
  roomy = roomy;
  live = live;
  starts = first_choice;
  rounds_fit = (starts_with_prefix, (holds 20016667 _ second_choice, tt));
}

recv_all-send_rounds_example :
    IsDone (replicate 200 0) (expected plain source_cfg (replicate 200 0) two source) (
      recv_all plain.decompress_into target_cfg 5
        (timed (send_rounds plain source_cfg two source).1)
        small_target)
recv_all-send_rounds_example =
    recv_all-send_rounds plain source_cfg target_cfg 5 200 200 114 (omega arith) bounded
      (at 20000000) (at 20016667 ∷ []) source small_target
      (timed (send_rounds plain source_cfg two source).1) run
      (map-timed (send_rounds plain source_cfg two source).1)

-- A source that would send a partial frame if it were not asked.
abbrev settled : Source
settled = record source {
  got_data = true;
  last_full_frame = 20000000;
  last_session_update = 0;
  pending_resync = false;
}

unasked : (choice_of (at 20016667) settled).0.buf_offset ≡ 113
unfolding choose start_data read_i32 active_var_buf best_slot as_usize i32_gt
unasked = refl

recv_all-poll_cap_example :
    let (_, _, ds) =
      send_data plain.compress_into deliver source_cfg
        (at 20016667)
        (poll_cap source_cfg (some (1, 1)) settled)
        [] in
    IsAnswered
      (replicate 200 0)
      (at 20016667).copied
      (recv_all plain.decompress_into target_cfg 5 (timed ds) small_target)
recv_all-poll_cap_example =
    let (_, _, ds) =
      send_data plain.compress_into deliver source_cfg (at 20016667)
        (poll_cap source_cfg (some (1, 1)) settled) [] in
    recv_all-poll_cap plain source_cfg target_cfg 5 200 200 (omega arith) bounded 1 1 (at 20016667)
      settled small_target (timed ds) (omega arith) (omega arith) (omega arith) live (map-timed ds)

-- The game was silent for too long, and its memory is there again at once.
abbrev silent : Turn
silent = record { shutdown = false; env = at 15000000; waits = false ∷ []; later = 15000001 }

abbrev open_again : WindowsTelemetry
open_again = record { h_map = 1; view = 4096; h_event = 2; size = 4194304 }

abbrev back : Source
back = record settled {
  last_data = 15000001;
  stats = Stats.new 15000001;
  got_data = false;
  last_session_update = minus_one;
  last_full_frame = 5000000;
  tick_counter = 0;
  last_tick = minus_one;
}

reconnected :
    reconnect outside silent memory settled nothing
    ≡ (goes_on open_again back, (reconnect outside silent memory settled nothing).1)
unfolding reconnect connect reopened disconnect open_telemetry drop_telemetry is_invalid region_size
reconnected = refl

recv_all-reconnect_example :
    let (_, _, ds) = send_data plain.compress_into deliver source_cfg (at 20000000) back [] in
    (back.tick_counter ≡ 0)
    × (back.last_tick ≡ minus_one)
    × IsAnswered
        (replicate 200 0)
        (at 20000000).copied
        (recv_all plain.decompress_into target_cfg 5 (timed ds) small_target)
recv_all-reconnect_example =
    let (_, _, ds) = send_data plain.compress_into deliver source_cfg (at 20000000) back [] in
    recv_all-reconnect plain source_cfg target_cfg 5 200 200 (omega arith) bounded outside silent
      memory open_again settled back nothing (reconnect outside silent memory settled nothing).1
      (at 20000000) small_target (timed ds) reconnected (omega arith) (omega arith) (omega arith)
      (omega arith) live (map-timed ds)
