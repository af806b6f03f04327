-- ===== src/Config.antt =====
-- teleport/src/lib.rs: the configurations of the library, their defaults, and the start of the loops
-- with them. A text is the list of its characters' codes.
use iracing_teleport.Base.{
  ℕ, zero, suc, ◌+◌, ◌/◌, ◌%◌, List, [], ◌∷◌, ◌++◌, Bool, false, Option, none, ltb, if◌then◌else◌,
  codes,
}
use iracing_teleport.Protocol.Sender.{Result}
use iracing_teleport.Protocol.Header.{max_datagram_size}
use iracing_teleport.Source.Run as SourceRun
use iracing_teleport.Target.{Env}
use iracing_teleport.Target.Loop.{Input}
use iracing_teleport.Target.Run as TargetRun

-- A number in decimal, of at most `width` digits.
unfoldable pub decimal : ℕ → ℕ → List ℕ
decimal zero n = []
decimal (suc width) n =
    let front = decimal width (n / 10) in (if ltb n 10 then [] else front) ++ ((48 + n % 10) ∷ [])

abbrev pub default_multicast : List ℕ
default_multicast = codes "239.255.0.1"

-- A u16, of five digits at most.
abbrev pub default_port : ℕ
default_port = 5000

abbrev pub default_reconnect_timeout_secs : ℕ
default_reconnect_timeout_secs = 10

abbrev pub default_datagram_size : ℕ
default_datagram_size = max_datagram_size

abbrev pub default_keyframe_interval : ℕ
default_keyframe_interval = 60

abbrev pub default_stale_timeout_secs : ℕ
default_stale_timeout_secs = 10

-- Of a callback it is kept whether it is given.
pub record SourceConfig : Type 0 where
  pub bind : List ℕ
  pub target : List ℕ
  pub unicast : Bool
  pub busy_wait : Bool
  pub pin_core : Option ℕ
  pub high_priority : Bool
  pub reconnect_timeout_secs : ℕ
  pub datagram_size : ℕ
  pub no_delta : Bool
  pub keyframe_interval : ℕ
  pub on_stats : Bool

pub record TargetConfig : Type 0 where
  pub bind : List ℕ
  pub unicast : Bool
  pub multicast_group : List ℕ
  pub busy_wait : Bool
  pub pin_core : Option ℕ
  pub fanalab : Bool
  pub stale_timeout_secs : ℕ
  pub high_priority : Bool
  pub write_ibt : Bool
  pub on_first_data : Bool
  pub on_stale : Bool
  pub on_stats : Bool

-- `SourceConfig::default`
unfoldable pub default_source : SourceConfig
default_source = record {
  bind = codes "0.0.0.0:0";
  target = [];
  unicast = false;
  busy_wait = false;
  pin_core = none;
  high_priority = false;
  reconnect_timeout_secs = default_reconnect_timeout_secs;
  datagram_size = default_datagram_size;
  no_delta = false;
  keyframe_interval = default_keyframe_interval;
  on_stats = false;
}

-- `TargetConfig::default`
unfoldable pub default_target : TargetConfig
unfolding decimal
default_target = record {
  bind = codes "0.0.0.0:" ++ decimal 5 default_port;
  unicast = false;
  multicast_group = default_multicast;
  busy_wait = false;
  pin_core = none;
  fanalab = false;
  stale_timeout_secs = default_stale_timeout_secs;
  high_priority = false;
  write_ibt = false;
  on_first_data = false;
  on_stale = false;
  on_stats = false;
}

module _ {W : Type 0} where
  -- `run_source`
  unfoldable pub run_source :
      SourceRun.Outside W
      → SourceConfig
      → List Bool
      → ℕ
      → List SourceRun.Turn
      → W
      → Option (Result (Unit {0})) × W
  run_source out config attempts now turns w =
      SourceRun.run out config.bind config.target config.unicast config.busy_wait config.pin_core
        config.high_priority config.reconnect_timeout_secs config.datagram_size config.no_delta
        config.keyframe_interval config.on_stats attempts now turns w

  -- `run_target`
  unfoldable pub run_target :
      TargetRun.Outside W
      → TargetConfig
      → ℕ
      → List (ℕ × Env × Input)
      → W
      → Option (Result (Unit {0})) × W
  run_target out config now rounds w =
      TargetRun.run out config.bind config.unicast config.multicast_group config.busy_wait
        config.pin_core config.fanalab config.stale_timeout_secs config.high_priority
        config.write_ibt config.on_first_data config.on_stale config.on_stats now rounds w
