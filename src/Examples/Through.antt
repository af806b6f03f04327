-- ===== src/Examples/Through.antt =====
-- A frame of 114 bytes from teleport/src/source.rs through two datagrams to the memory of
-- teleport/src/target.rs, where bytes 112 and 113 go to the place 150.
use iracing_teleport.Base.{
  ℕ, zero, suc, ◌≤◌, ◌≡◌, ◌≢◌, refl, inr, ap, List, [], ◌∷◌, map, true, false, some, none, arith,
  length, replicate, IsBytes, length-replicate,
}
use iracing_teleport.Control.{running}
use iracing_teleport.Protocol.Sender.{Sender, send}
use iracing_teleport.Protocol.Sender.Datagrams.{IsSender}
use iracing_teleport.Protocol.Receiver
use iracing_teleport.Protocol.Receiver.Valid.{IsReceiver, new-IsReceiver}
use iracing_teleport.Protocol.Reassembly.RoundTrip.{deliver}
use iracing_teleport.Protocol.Delta.ZipXor.{take-IsBytes}
use iracing_teleport.Telemetry.{max_telemetry_size}
use iracing_teleport.Source
use iracing_teleport.Source.{Source, uses_delta}
use iracing_teleport.Source.Loop as SourceLoop
use iracing_teleport.Target
use iracing_teleport.Target.{Target, Env, partial_writes, apply_effects}
use iracing_teleport.Target.Loop
use iracing_teleport.Link.Frame.{sent, IsReady, length-sent}
use iracing_teleport.Link.Frames.{Codec}
use iracing_teleport.Link.Session.{uses_delta_first}
use iracing_teleport.Link.Rounds.{copies}
use iracing_teleport.Link.Delivered.{recv_all}
use iracing_teleport.Link.Through.{IsLinked, IsExpected, compressed_frame, recv_all-encode}

abbrev pub plain : Codec
plain = record {
  compress_into = λ p. some p;
  decompress_into = λ c. some c;
  compressed = λ p. p;
  fits = λ p h. refl;
  restores = λ p h. refl;
}

abbrev pub source_cfg : Source.Config
source_cfg = record {
  no_delta = false;
  keyframe_interval = 2;
  reconnect_timeout = 10000000;
  has_stats = false;
}

abbrev pub target_cfg : Target.Config
target_cfg = record {
  fanalab = false;
  write_ibt = false;
  has_first_data = false;
  has_stale = false;
  has_stats = false;
  stale_timeout = 10000000;
}

abbrev clock : Env
clock = record { now = 5000000; created = none; spawned = false }

abbrev source : Source
source = SourceLoop.new 9000 0

abbrev pub target : Target
target = record (Loop.new 4000 0) { telemetry = some (replicate 200 0); has_full_frame = true }

abbrev staged : List ℕ
staged = replicate 114 7

pub zeros-IsBytes : (n : ℕ) → IsBytes (replicate n 0)
zeros-IsBytes zero = tt
zeros-IsBytes (suc n) = (omega arith, zeros-IsBytes n)

sevens-IsBytes : (n : ℕ) → IsBytes (replicate n 7)
sevens-IsBytes zero = tt
sevens-IsBytes (suc n) = (omega arith, sevens-IsBytes n)

holds : (b : List ℕ) → length b ≡ max_telemetry_size → 114 ≤ length b
holds b e = omega (arith, e)

staged-IsReady : IsReady staged source target
unfolding SourceLoop.new Loop.new
staged-IsReady =
    let full = length-replicate {A = ℕ} max_telemetry_size 0 in
    record {
      source_prev = holds (replicate max_telemetry_size 0) full;
      source_delta = holds (replicate max_telemetry_size 0) full;
      target_prev = holds (replicate max_telemetry_size 0) full;
      target_rebuilt = holds (replicate max_telemetry_size 0) full;
      staged_bytes = sevens-IsBytes 114;
      prev_bytes =
          take-IsBytes 114 (replicate max_telemetry_size 0) (zeros-IsBytes max_telemetry_size);
    }

first_frame : source.tick_counter ≡ 0
unfolding SourceLoop.new
first_frame = refl

staged-IsExpected : IsExpected source_cfg 150 staged source target
staged-IsExpected = record {
  ready = staged-IsReady;
  agree = inr (uses_delta_first source_cfg source first_frame);
  offset_small = omega arith;
  full = refl;
  frame_small = omega arith;
  has_header = omega arith;
  inside = omega arith;
  map_header = omega arith;
}

abbrev pub sender : Sender
sender = record { sequence = 7; buf = replicate 124 0; payload_per_datagram = 100 }

pub sender-IsSender : IsSender sender
sender-IsSender = omega arith

abbrev frame : List ℕ
frame = compressed_frame plain source_cfg target_cfg 5 150 staged source

length-frame : length frame ≡ 114
length-frame = length-sent (uses_delta source_cfg source) 150 staged source target staged-IsReady

pub target-IsReceiver : IsReceiver target.proto
unfolding Loop.new
target-IsReceiver = new-IsReceiver 4000

pub no_sequence : target.proto.current_seq ≢ some sender.sequence
unfolding Loop.new Receiver.new
no_sequence = cc

room : length frame ≤ target.proto.max_payload
unfolding Loop.new Receiver.new
room = omega (arith, length-frame)

frame-IsLinked : IsLinked sender target frame
frame-IsLinked = record {
  sender_valid = sender-IsSender;
  receiver_valid = target-IsReceiver;
  opened = refl;
  some_bytes = omega (arith, length-frame);
  small = omega arith;
  few = omega (arith, length-frame);
  fresh = no_sequence;
  room = room;
}

abbrev pub timed : List (List ℕ) → List (Env × List ℕ)
timed ds = map (λ d. (clock, d)) ds

pub map-timed : (ds : List (List ℕ)) → map (λ x. x.1) (timed ds) ≡ ds
map-timed [] = refl
map-timed (d ∷ ds) = ap (λ l. d ∷ l) (map-timed ds)

abbrev wire : ℕ
wire = (sent (uses_delta source_cfg source) 150 staged source).wire

recv_all-encode_example :
    let (control, t, effects) =
      recv_all (λ c. some c) target_cfg 5 (timed (send deliver sender frame 64 wire []).2) target in
    (control ≡ running)
    × (copies effects ≡ partial_writes 150 staged)
    × (t.telemetry ≡ some (apply_effects (replicate 200 0) (partial_writes 150 staged)))
recv_all-encode_example =
    recv_all-encode plain source_cfg target_cfg 5 150 staged source target sender 64
      (timed (send deliver sender frame 64 wire []).2) staged-IsExpected frame-IsLinked
      (omega arith) (map-timed (send deliver sender frame 64 wire []).2)
