-- ===== src/Examples/Sessions.antt =====
-- teleport/src/source.rs and target.rs together at small inputs: a session of three frames, in a
-- memory of 200 bytes on the target's side.
use iracing_teleport.Base.{
  ℕ, zero, suc, ◌≤◌, ◌<◌, ◌≡◌, refl, ◌⊎◌, List, [], ◌∷◌, ◌++◌, true, false, some, arith, replicate,
  IsBytes, length-replicate,
}
use iracing_teleport.Telemetry.{max_telemetry_size}
use iracing_teleport.Source
use iracing_teleport.Source.{Source}
use iracing_teleport.Source.Loop as SourceLoop
use iracing_teleport.Source.Loop.{keep_alive, poll_cap}
use iracing_teleport.Target
use iracing_teleport.Target.{Target, Env, prefix_writes, apply_effects}
use iracing_teleport.Target.Loop
use iracing_teleport.Target.Loop.{datagram, step}
use iracing_teleport.Target.Valid.{new-IsTarget, step-IsTarget}
use iracing_teleport.Target.Sizes.{IsTarget}
use iracing_teleport.Target.Status.{AllViews, IsStatusKept}
use iracing_teleport.Link.Frames.{Codec}
use iracing_teleport.Link.Session.{AllFrames, IsFrame, all_writes}
use iracing_teleport.Link.Start.{IsBuffered, prefix, notices, session, session-all_writes}
use iracing_teleport.Link.Visible.{ShowsOne, session-IsVisible}
use iracing_teleport.Examples.Rounds.{game_memory}

-- A compression that leaves the bytes as they are.
abbrev stored : Codec
stored = record {
  compress_into = λ p. some p;
  decompress_into = λ c. some c;
  compressed = λ p. p;
  fits = λ p h. refl;
  restores = λ p h. refl;
}

abbrev source_config : Source.Config
source_config = record {
  no_delta = false;
  keyframe_interval = 2;
  reconnect_timeout = 10000000;
  has_stats = false;
}

abbrev target_config : Target.Config
target_config = record {
  fanalab = false;
  write_ibt = false;
  has_first_data = true;
  has_stale = true;
  has_stats = false;
  stale_timeout = 10000000;
}

abbrev env : Env
env = record { now = 5000000; created = some (replicate max_telemetry_size 0); spawned = false }

-- A source that knows that the target takes deltas.
abbrev delta_source : Source
delta_source = record (SourceLoop.new 9000 0) { target_supports_delta = true }

abbrev open_target : Target
open_target = record (Loop.new 4000 0) { telemetry = some (replicate 200 0) }

replicate-IsBytes : (n : ℕ) → IsBytes (replicate n 0)
replicate-IsBytes zero = tt
replicate-IsBytes (suc n) = (omega arith, replicate-IsBytes n)

open_target-IsBuffered : IsBuffered delta_source open_target
unfolding SourceLoop.new Loop.new
open_target-IsBuffered = record {
  source_prev = length-replicate {A = ℕ} max_telemetry_size 0;
  source_delta = length-replicate {A = ℕ} max_telemetry_size 0;
  target_prev = length-replicate {A = ℕ} max_telemetry_size 0;
  target_rebuilt = length-replicate {A = ℕ} max_telemetry_size 0;
  prev_bytes = replicate-IsBytes max_telemetry_size;
}

abbrev three_frames : List (ℕ × List ℕ)
three_frames = (150, replicate 114 7) ∷ (160, replicate 114 8) ∷ (150, replicate 114 9) ∷ []

IsBytes-replicate : (n b : ℕ) → b < 256 → IsBytes (replicate n b)
IsBytes-replicate zero b h = tt
IsBytes-replicate (suc n) b h = (h, IsBytes-replicate n b h)

three_frames-AllFrames : AllFrames 114 200 three_frames
three_frames-AllFrames =
    let fits : (off b : ℕ) → b < 256 → off ≤ 160 → IsFrame 114 200 off (replicate 114 b) =
      λ off b h h'. record {
        frame_length = refl;
        frame_bytes = IsBytes-replicate 114 b h;
        room = omega arith;
      } in
    (
      fits 150 7 (omega arith) (omega arith),
      (fits 160 8 (omega arith) (omega arith), (fits 150 9 (omega arith) (omega arith), tt)),
    )

session-all_writes_example :
    let (s', t', effects) =
      session stored source_config target_config env game_memory three_frames delta_source
        open_target in
    (effects
      ≡ prefix_writes (replicate 200 0) (prefix game_memory)
        ++ notices target_config open_target
        ++ all_writes three_frames)
    × (t'.telemetry
        ≡ some (
            apply_effects
              (replicate 200 0)
              (prefix_writes (replicate 200 0) (prefix game_memory) ++ all_writes three_frames)))
session-all_writes_example =
    session-all_writes stored source_config target_config env game_memory 114 three_frames
      delta_source open_target (omega arith) (omega arith) (omega arith) (omega arith) (omega arith)
      (omega arith) three_frames-AllFrames open_target-IsBuffered

session-IsVisible_example :
    AllViews
      (λ v. IsStatusKept (replicate 200 0) v ⊎ ShowsOne three_frames v)
      (replicate 200 0)
      (session stored source_config target_config env game_memory three_frames delta_source
        open_target).2
session-IsVisible_example =
    session-IsVisible stored source_config target_config env game_memory 114 three_frames
      delta_source open_target (omega arith) (omega arith) (omega arith) (omega arith) (omega arith)
      (omega arith) three_frames-AllFrames (omega arith, (omega arith, (omega arith, tt)))
      open_target-IsBuffered

step-IsTarget_example :
    IsTarget
      (step (λ c. some c) target_config env (Loop.new 4000 0) (datagram (1 ∷ 2 ∷ 3 ∷ []) 5)).1
step-IsTarget_example =
    step-IsTarget (λ c. some c) target_config env (Loop.new 4000 0) (datagram (1 ∷ 2 ∷ 3 ∷ []) 5)
      (length-replicate {A = ℕ} max_telemetry_size 0) (new-IsTarget 4000 0)
