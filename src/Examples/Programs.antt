-- ===== src/Examples/Programs.antt =====
-- The programs on a system whose calls all succeed.
use iracing_teleport.Base.{codes, ℕ, ◌≡◌, refl, List, [], ◌∷◌, true, false, Option, none, some}
use iracing_teleport.Config.{run_source, run_target}
use iracing_teleport.Cli.{
  SourceFlags, TargetFlags, Flags, is_stub, exit_of, source_main, target_main, main,
}
use iracing_teleport.Cli.Same.{
  configured_source, configured_target, main-run_source, main-run_target, Parks, spawn_stub-Parks,
}
use iracing_teleport.Examples.Handles.{nothing}
use iracing_teleport.Target.Stub.{spawn_stub}
use iracing_teleport.Examples.Starts.{files}
use iracing_teleport.Examples.Runs.{outside, turns, world}

abbrev source_flags : SourceFlags
source_flags = record {
  bind = none;
  target = none;
  unicast = false;
  pin_core = some 3;
  high_priority = false;
  reconnect_timeout = none;
  busy_wait = true;
  datagram_size = some 1472;
  no_delta = false;
  keyframe_interval = none;
}

abbrev target_flags : TargetFlags
target_flags = record {
  bind = none;
  group = none;
  unicast = false;
  busy_wait = true;
  pin_core = none;
  fanalab = true;
  stale_timeout = some 30;
  high_priority = false;
  write_ibt = false;
}

abbrev source_line : List (List ℕ)
source_line = codes "teleport" ∷ codes "source" ∷ codes "--busy-wait" ∷ []

abbrev target_line : List (List ℕ)
target_line = codes "teleport" ∷ codes "target" ∷ codes "--fanalab" ∷ []

-- What clap reads on these lines is given.
abbrev reads_source : List (List ℕ) → Option Flags
reads_source line = some (Flags.source source_flags)

abbrev reads_target : List (List ℕ) → Option Flags
reads_target line = some (Flags.target target_flags)

abbrev reads_args : List (List ℕ) → Option TargetFlags
reads_args line = some target_flags

no_stub_source : is_stub source_line ≡ false
unfolding is_stub
no_stub_source = refl

no_stub_target : is_stub target_line ≡ false
unfolding is_stub
no_stub_target = refl

main-run_source_example :
    let x =
      exit_of (run_source outside (configured_source source_flags) (true ∷ []) 0 turns nothing) in
    (main world reads_source source_line nothing ≡ x)
    × (source_main world (some source_flags) nothing ≡ x)
main-run_source_example =
    main-run_source world source_flags source_line reads_source nothing no_stub_source refl

main-run_target_example :
    let x =
      exit_of (run_target world.target_outside (configured_target target_flags) 0 [] nothing) in
    (main world reads_target target_line nothing ≡ x)
    × (target_main world reads_args target_line nothing ≡ x)
main-run_target_example =
    main-run_target world target_flags target_line target_line reads_target reads_args nothing
      no_stub_target no_stub_target refl refl

spawn_stub-Parks_example : Parks world files (spawn_stub files true)
spawn_stub-Parks_example = spawn_stub-Parks world files true
