-- ===== src/Examples/Runs.antt =====
-- Source and target from their start to their return, on a system whose calls all succeed: a source
-- that serves a round and is then told to stop.
use iracing_teleport.Base.{
  codes, ℕ, refl, List, [], ◌∷◌, Bool, true, false, Option, none, some, inl, inr,
}
use iracing_teleport.Protocol.Sender.{Result, ok, timed_out}
use iracing_teleport.Platform.{Os}
use iracing_teleport.Setup.{Net, source_setup, target_setup, with_address, done}
use iracing_teleport.Ibt.Writer.{Disk, opened}
use iracing_teleport.Source.Run as SourceRun
use iracing_teleport.Source.Run.{Turn}
use iracing_teleport.Source.Run.Neutral.{IsApart}
use iracing_teleport.Source.Run.Held.{IsClosedAt}
use iracing_teleport.Source.Run.Closed.{run-IsClosed}
use iracing_teleport.Source.Run.Returns.{HasReturned, run-HasReturned}
use iracing_teleport.Target.{Env}
use iracing_teleport.Target.Loop.{Input, recv_error, shutdown}
use iracing_teleport.Target.Run as TargetRun
use iracing_teleport.Target.Run.Returns.{HasEndedWith, run-HasEndedWith}
use iracing_teleport.Telemetry.Windows.{WindowsTelemetry}
use iracing_teleport.Cli.{World}
use iracing_teleport.Examples.Handles.{System, win, counts, nothing}

abbrev os : Os System
os = record {
  time_begin_period = λ n w. (0, w);
  time_end_period = λ n w. w;
  raise_thread_priority = λ w. w;
  av_set_mm_thread_characteristics = λ w. (1, w);
  av_revert_mm_thread_characteristics = λ h w. w;
  raise_priority_class = λ w. w;
  set_thread_affinity_mask = λ mask w. w;
}

abbrev net : Net System
net = record {
  new_socket = λ w. (ok tt, w);
  set_send_buffer_size = λ n w. (ok tt, w);
  set_recv_buffer_size = λ n w. (ok tt, w);
  set_reuse_address = λ w. (ok tt, w);
  bind = λ a w. (ok tt, w);
  set_nonblocking = λ w. (ok tt, w);
  set_read_timeout = λ n w. (ok tt, w);
  connect = λ a w. (ok tt, w);
  join_multicast = λ a w. (ok tt, w);
}

-- Every text is an address.
abbrev parse : List ℕ → Option ℕ
parse text = some 1

abbrev pub outside : SourceRun.Outside System
outside = record {
  os = os;
  win = win;
  net = net;
  parse = parse;
  send = λ d w. (ok tt, w);
  send_to = λ a d w. (ok tt, w);
  compress_into = λ p. some p;
}

outside-IsApart : IsApart outside counts
outside-IsApart = record {
  timer_began = λ w k. (refl, refl);
  timer_ended = λ w k. (refl, refl);
  thread_raised = λ w k. (refl, refl);
  class_raised = λ w k. (refl, refl);
  pinned = λ mask w k. (refl, refl);
  socket_made = λ w k. (refl, refl);
  buffer_set = λ n w k. (refl, refl);
  bound = λ a w k. (refl, refl);
  unblocked = λ w k. (refl, refl);
  connected = λ a w k. (refl, refl);
  sent = λ d w k. (refl, refl);
  sent_to = λ a d w k. (refl, refl);
}

abbrev turn : Bool → ℕ → Turn
turn requested now = record {
  shutdown = requested;
  env = record { now = now; seen = []; copied = []; rechecked = []; source_us = 0; cap = none };
  waits = true ∷ [];
  later = now;
}

abbrev pub turns : List Turn
turns = turn false 1000000 ∷ turn true 2000000 ∷ []

run-IsClosed_example : IsClosedAt outside counts 1 nothing (
    SourceRun.run outside
      (codes "0.0.0.0:0")
      (codes "239.255.0.1:5000")
      false
      false
      (some 3)
      true
      10
      9000
      false
      60
      false
      (true ∷ [])
      0
      turns
      nothing)
run-IsClosed_example =
    run-IsClosed outside counts outside-IsApart 1 (codes "0.0.0.0:0") (codes "239.255.0.1:5000")
      false false (some 3) true 10 9000 false 60 false (true ∷ []) 0 turns nothing

run-HasReturned_example : HasReturned outside (ok tt) (
    SourceRun.run outside
      (codes "0.0.0.0:0")
      (codes "239.255.0.1:5000")
      false
      false
      (some 3)
      true
      10
      9000
      false
      60
      false
      (true ∷ [])
      0
      turns
      nothing)
unfolding source_setup with_address done
run-HasReturned_example =
    run-HasReturned outside (codes "0.0.0.0:0") (codes "239.255.0.1:5000") false false (some 3) true
      10 9000 false 60 false (true ∷ []) 0 turns nothing tt (inr (tt, inl refl))

-- A memory that the source has open, and a round in which the game was silent for too long.
abbrev pub memory : WindowsTelemetry
memory = record { h_map = 1; view = 2; h_event = 3; size = 2097152 }

abbrev pub send_one : List ℕ → System → Result (Unit {0}) × System
send_one = SourceRun.send_fn outside false (some 1)

abbrev disk : Disk System
disk = record {
  create_dir_all = λ w. (ok tt, w);
  create_new = λ date n w. (opened, w);
  write_all = λ bytes w. (ok tt, w);
  seek = λ at w. (ok tt, w);
  flush = λ w. (ok tt, w);
}

abbrev pub world : World System
world = record {
  source_outside = outside;
  target_outside = record {
    os = os;
    net = net;
    disk = disk;
    parse = parse;
    f64_gt = λ x y. false;
    decompress_into = λ c. some c;
    max_compressed = 4000;
  };
  attempts = true ∷ [];
  now = 0;
  turns = turns;
  inputs = [];
}

abbrev inputs : List (ℕ × Env × Input)
inputs =
    (100, record { now = 10; created = none; spawned = false }, recv_error timed_out)
    ∷ (101, record { now = 20; created = none; spawned = false }, shutdown)
    ∷ []

run-HasEndedWith_example :
    HasEndedWith
      (ok tt)
      (TargetRun.run world.target_outside
        (codes "0.0.0.0:5000")
        false
        (codes "239.255.0.1")
        true
        none
        true
        10
        true
        true
        false
        false
        false
        0
        inputs
        nothing).0
unfolding target_setup with_address done
run-HasEndedWith_example =
    run-HasEndedWith world.target_outside (codes "0.0.0.0:5000") false (codes "239.255.0.1") true
      none true 10 true true false false false 0 inputs nothing (inr (inl refl))
