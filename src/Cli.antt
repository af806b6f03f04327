-- ===== src/Cli.antt =====
-- The three programs: teleport/src/main.rs, teleport/src/bin/source.rs and
-- teleport/src/bin/target.rs. The parsing of the command line (clap) is a parameter, which gives the
-- options that are there, or fails.
pub mod Same
use iracing_teleport.Base.{
  codes, ℕ, List, [], ◌∷◌, ◌++◌, Bool, true, false, ◌&&◌, ◌||◌, Option, none, some, ◌==◌,
  if◌then◌else◌,
}
use iracing_teleport.Protocol.Sender.{Result, ok, err}
use iracing_teleport.Config.{
  decimal, default_multicast, default_port, default_reconnect_timeout_secs, default_datagram_size,
  default_keyframe_interval, default_stale_timeout_secs,
}
use iracing_teleport.Source.Run as SourceRun
use iracing_teleport.Target.{Env}
use iracing_teleport.Target.Loop.{Input}
use iracing_teleport.Target.Run as TargetRun

-- The options of a command line; `none` where one is not there.
pub record SourceFlags : Type 0 where
  pub bind : Option (List ℕ)
  pub target : Option (List ℕ)
  pub unicast : Bool
  pub pin_core : Option ℕ
  pub high_priority : Bool
  pub reconnect_timeout : Option ℕ
  pub busy_wait : Bool
  pub datagram_size : Option ℕ
  pub no_delta : Bool
  pub keyframe_interval : Option ℕ

pub record TargetFlags : Type 0 where
  pub bind : Option (List ℕ)
  pub group : Option (List ℕ)
  pub unicast : Bool
  pub busy_wait : Bool
  pub pin_core : Option ℕ
  pub fanalab : Bool
  pub stale_timeout : Option ℕ
  pub high_priority : Bool
  pub write_ibt : Bool

-- The fields of `Args` in teleport/src/bin/source.rs, and of `Command::Source`.
pub record SourceArgs : Type 0 where
  pub bind : List ℕ
  pub target : List ℕ
  pub unicast : Bool
  pub pin_core : Option ℕ
  pub high_priority : Bool
  pub reconnect_timeout : ℕ
  pub busy_wait : Bool
  pub datagram_size : ℕ
  pub no_delta : Bool
  pub keyframe_interval : ℕ

-- The fields of `Args` in teleport/src/bin/target.rs, and of `Command::Target`.
pub record TargetArgs : Type 0 where
  pub bind : List ℕ
  pub group : List ℕ
  pub unicast : Bool
  pub busy_wait : Bool
  pub pin_core : Option ℕ
  pub fanalab : Bool
  pub stale_timeout : ℕ
  pub high_priority : Bool
  pub write_ibt : Bool

-- `default_value`
unfoldable pub or_default : {A : Type 0} → Option A → A → A
or_default none d = d
or_default (some a) d = a

-- `Args` of teleport/src/bin/source.rs, with its defaults.
unfoldable pub source_args : SourceFlags → SourceArgs
source_args f = record {
  bind = or_default f.bind (codes "0.0.0.0:0");
  target = or_default f.target (default_multicast ++ codes ":" ++ decimal 5 default_port);
  unicast = f.unicast;
  pin_core = f.pin_core;
  high_priority = f.high_priority;
  reconnect_timeout = or_default f.reconnect_timeout default_reconnect_timeout_secs;
  busy_wait = f.busy_wait;
  datagram_size = or_default f.datagram_size default_datagram_size;
  no_delta = f.no_delta;
  keyframe_interval = or_default f.keyframe_interval default_keyframe_interval;
}

-- `Args` of teleport/src/bin/target.rs, with its defaults.
unfoldable pub target_args : TargetFlags → TargetArgs
target_args f = record {
  bind = or_default f.bind (codes "0.0.0.0:" ++ decimal 5 default_port);
  group = or_default f.group default_multicast;
  unicast = f.unicast;
  busy_wait = f.busy_wait;
  pin_core = f.pin_core;
  fanalab = f.fanalab;
  stale_timeout = or_default f.stale_timeout default_stale_timeout_secs;
  high_priority = f.high_priority;
  write_ibt = f.write_ibt;
}

-- What stands on the command line of teleport/src/main.rs.
pub data Flags : Type 0 where
  source : SourceFlags → Flags
  target : TargetFlags → Flags

-- `Command` of teleport/src/main.rs.
pub data Command : Type 0 where
  source : SourceArgs → Command
  target : TargetArgs → Command

-- `Command` with its defaults.
unfoldable pub command_of : Flags → Command
command_of (Flags.source f) = Command.source (record {
  bind = or_default f.bind (codes "0.0.0.0:0");
  target = or_default f.target (default_multicast ++ codes ":" ++ decimal 5 default_port);
  unicast = f.unicast;
  pin_core = f.pin_core;
  high_priority = f.high_priority;
  reconnect_timeout = or_default f.reconnect_timeout default_reconnect_timeout_secs;
  busy_wait = f.busy_wait;
  datagram_size = or_default f.datagram_size default_datagram_size;
  no_delta = f.no_delta;
  keyframe_interval = or_default f.keyframe_interval default_keyframe_interval;
})
command_of (Flags.target f) = Command.target (record {
  bind = or_default f.bind (codes "0.0.0.0:" ++ decimal 5 default_port);
  group = or_default f.group default_multicast;
  unicast = f.unicast;
  busy_wait = f.busy_wait;
  pin_core = f.pin_core;
  fanalab = f.fanalab;
  stale_timeout = or_default f.stale_timeout default_stale_timeout_secs;
  high_priority = f.high_priority;
  write_ibt = f.write_ibt;
})

unfoldable pub same_text : List ℕ → List ℕ → Bool
same_text [] [] = true
same_text [] (d ∷ ds) = false
same_text (c ∷ cs) [] = false
same_text (c ∷ cs) (d ∷ ds) = (c == d) && same_text cs ds

abbrev pub fanalab_flag : List ℕ
fanalab_flag = codes "--fanalab-stub"

-- `args().any(|a| a == "--fanalab-stub")`
unfoldable pub is_stub : List (List ℕ) → Bool
unfolding same_text
is_stub [] = false
is_stub (a ∷ args) = same_text a fanalab_flag || is_stub args

-- How a program goes on: it parks until it is killed, clap ends it, or its loop runs and ends with an
-- exit code, if it ends.
pub data Program (W : Type 0) : Type 0 where
  parks : Program W
  refused : Program W
  runs : Option ℕ → W → Program W

-- `std::process::exit(1)` on an error
unfoldable pub exit_of : {W : Type 0} → Option (Result (Unit {0})) × W → Program W
exit_of (none, w) = runs none w
exit_of (some (ok _), w) = runs (some 0) w
exit_of (some (err e), w) = runs (some 1) w

-- What the loops get from the outside.
pub record World (W : Type 0) : Type 0 where
  pub source_outside : SourceRun.Outside W
  pub target_outside : TargetRun.Outside W
  pub attempts : List Bool
  pub now : ℕ
  pub turns : List SourceRun.Turn
  pub inputs : List (ℕ × Env × Input)

module _ {W : Type 0} (world : World W) where
  -- The call of `source::run` in `main` of teleport/src/bin/source.rs.
  unfoldable pub call_source : SourceArgs → W → Option (Result (Unit {0})) × W
  call_source args w =
      SourceRun.run world.source_outside args.bind args.target args.unicast args.busy_wait
        args.pin_core args.high_priority args.reconnect_timeout args.datagram_size args.no_delta
        args.keyframe_interval false world.attempts world.now world.turns w

  -- `main` of teleport/src/bin/source.rs
  unfoldable pub source_main : Option SourceFlags → W → Program W
  source_main none w = refused
  source_main (some f) w = exit_of (call_source (source_args f) w)

  -- The call of `target::run` in `main` of teleport/src/bin/target.rs.
  unfoldable pub call_target : TargetArgs → W → Option (Result (Unit {0})) × W
  call_target args w =
      TargetRun.run world.target_outside args.bind args.unicast args.group args.busy_wait
        args.pin_core args.fanalab args.stale_timeout args.high_priority args.write_ibt false false
        false world.now world.inputs w

  unfoldable pub parsed_target : Option TargetFlags → W → Program W
  parsed_target none w = refused
  parsed_target (some f) w = exit_of (call_target (target_args f) w)

  -- `main` of teleport/src/bin/target.rs
  unfoldable pub target_main : (List (List ℕ) → Option TargetFlags) → List (List ℕ) → W → Program W
  target_main parse args w = if is_stub args then parks else parsed_target (parse args) w

  -- `match cli.command` of teleport/src/main.rs
  unfoldable pub call_command : Command → W → Option (Result (Unit {0})) × W
  call_command (Command.source args) w =
      SourceRun.run world.source_outside args.bind args.target args.unicast args.busy_wait
        args.pin_core args.high_priority args.reconnect_timeout args.datagram_size args.no_delta
        args.keyframe_interval false world.attempts world.now world.turns w
  call_command (Command.target args) w =
      TargetRun.run world.target_outside args.bind args.unicast args.group args.busy_wait
        args.pin_core args.fanalab args.stale_timeout args.high_priority args.write_ibt false false
        false world.now world.inputs w

  unfoldable pub parsed_main : Option Flags → W → Program W
  parsed_main none w = refused
  parsed_main (some f) w = exit_of (call_command (command_of f) w)

  -- `main` of teleport/src/main.rs
  unfoldable pub main : (List (List ℕ) → Option Flags) → List (List ℕ) → W → Program W
  main parse args w = if is_stub args then parks else parsed_main (parse args) w
