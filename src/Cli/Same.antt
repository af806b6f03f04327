-- ===== src/Cli/Same.antt =====
-- The programs teleport, source and target against each other and against the library.
use iracing_teleport.Base.{
  none, ◌⊎◌, inl, inr, codes, ℕ, ◌≡◌, refl, ap, ◌∙◌, List, ◌∷◌, ◌++◌, Bool, true, false, ◌||◌,
  Option, some, if◌then◌else◌,
}
use iracing_teleport.Config.{
  decimal, default_multicast, default_port, SourceConfig, TargetConfig, default_source,
  default_target, run_source, run_target,
}
use iracing_teleport.Cli.{
  SourceFlags, TargetFlags, Flags, or_default, source_args, target_args, command_of, same_text,
  is_stub, fanalab_flag, parks, exit_of, World, call_source, call_target, call_command, source_main,
  target_main, parsed_target, parsed_main, main,
}
use iracing_teleport.Target.Stub.{Files, stub_path, stub_args, spawn_stub, spawn_stub-IsStubOrNone}

-- The default configuration of the library, with what the command line gives in its place, and where
-- it gives no target, the default group and port as the target.
abbrev pub configured_source : SourceFlags → SourceConfig
configured_source f = record {
  bind = or_default f.bind default_source.bind;
  target = or_default f.target (default_multicast ++ codes ":" ++ decimal 5 default_port);
  unicast = f.unicast;
  busy_wait = f.busy_wait;
  pin_core = f.pin_core;
  high_priority = f.high_priority;
  reconnect_timeout_secs = or_default f.reconnect_timeout default_source.reconnect_timeout_secs;
  datagram_size = or_default f.datagram_size default_source.datagram_size;
  no_delta = f.no_delta;
  keyframe_interval = or_default f.keyframe_interval default_source.keyframe_interval;
  on_stats = default_source.on_stats;
}

abbrev pub configured_target : TargetFlags → TargetConfig
configured_target f = record {
  bind = or_default f.bind default_target.bind;
  unicast = f.unicast;
  multicast_group = or_default f.group default_target.multicast_group;
  busy_wait = f.busy_wait;
  pin_core = f.pin_core;
  fanalab = f.fanalab;
  stale_timeout_secs = or_default f.stale_timeout default_target.stale_timeout_secs;
  high_priority = f.high_priority;
  write_ibt = f.write_ibt;
  on_first_data = default_target.on_first_data;
  on_stale = default_target.on_stale;
  on_stats = default_target.on_stats;
}

is_stub_last : (path : List ℕ) → is_stub (path ∷ stub_args) ≡ true
unfolding is_stub
is_stub_last path = elim (same_text path fanalab_flag) as (λ b. (b || true) ≡ true) [
  | true ↦ refl
  | false ↦ refl
]

module _ {W : Type 0} (world : World W) where
  not_stub :
      (p : Option Flags) (args : List (List ℕ)) (parse : List (List ℕ) → Option Flags) (w : W)
      → is_stub args ≡ false
      → parse args ≡ p
      → main world parse args w ≡ parsed_main world p w
  unfolding main
  not_stub p args parse w e e' =
      ap (λ (b : Bool). if b then parks else parsed_main world (parse args) w) e
      ∙ ap (λ q. parsed_main world q w) e'

  call_source_lem :
      (f : SourceFlags) (w : W)
      → call_source world (source_args f) w
        ≡ run_source world.source_outside
            (configured_source f)
            world.attempts
            world.now
            world.turns
            w
  unfolding call_source source_args run_source default_source
  call_source_lem f w = refl

  -- With a command line that has no stub's flag, that clap reads as the options `f` of the command
  -- `source` in the program teleport, and with these options in the program source, both do what the
  -- library does with its default configuration and these options in it, the target being the default
  -- group and port where the options have none.
  pub main-run_source :
      (f : SourceFlags) (args : List (List ℕ)) (parse : List (List ℕ) → Option Flags) (w : W)
      → is_stub args ≡ false
      → parse args ≡ some (Flags.source f)
      → let x = exit_of (
          run_source world.source_outside
            (configured_source f)
            world.attempts
            world.now
            world.turns
            w) in
        (main world parse args w ≡ x) × (source_main world (some f) w ≡ x)
  unfolding source_main parsed_main call_command command_of source_args call_source
  main-run_source f args parse w plain parsed =
      let same = ap exit_of (call_source_lem f w) in
      (not_stub (some (Flags.source f)) args parse w plain parsed ∙ same, same)

  call_target_lem :
      (f : TargetFlags) (w : W)
      → call_target world (target_args f) w
        ≡ run_target world.target_outside (configured_target f) world.now world.inputs w
  unfolding call_target target_args run_target default_target
  call_target_lem f w = refl

  -- With a command line that has no stub's flag, that clap reads as the options `f` of the command
  -- `target` in the program teleport, and as `f` in the program target, both do what the library does
  -- with its default configuration and these options in it.
  pub main-run_target :
      (f : TargetFlags) (args args' : List (List ℕ)) (parse : List (List ℕ) → Option Flags)
      (parse' : List (List ℕ) → Option TargetFlags) (w : W)
      → is_stub args ≡ false
      → is_stub args' ≡ false
      → parse args ≡ some (Flags.target f)
      → parse' args' ≡ some f
      → let x =
          exit_of
            (run_target world.target_outside (configured_target f) world.now world.inputs w) in
        (main world parse args w ≡ x) × (target_main world parse' args' w ≡ x)
  unfolding target_main parsed_target parsed_main call_command command_of target_args call_target
  main-run_target f args args' parse parse' w plain plain' parsed parsed' =
      let same = ap exit_of (call_target_lem f w) in
      (
        not_stub (some (Flags.target f)) args parse w plain parsed ∙ same,
        ap (λ (b : Bool). if b then parks else parsed_target world (parse' args') w) plain'
            ∙ ap (λ q. parsed_target world q w) parsed'
            ∙ same,
      )

  -- A program that is started with the stub's flag behind its path parks, however clap reads it.
  pub main-parks :
      (path : List ℕ) (parse : List (List ℕ) → Option Flags)
      (parse' : List (List ℕ) → Option TargetFlags) (w : W)
      → (main world parse (path ∷ stub_args) w ≡ parks)
        × (target_main world parse' (path ∷ stub_args) w ≡ parks)
  unfolding main target_main
  main-parks path parse parse' w =
      let e = is_stub_last path in
      (
        ap (λ (b : Bool). if b then parks else parsed_main world (parse (path ∷ stub_args)) w) e,
        ap (λ (b : Bool). if b then parks else parsed_target world (parse' (path ∷ stub_args)) w) e,
      )

  -- No process was started, or one with arguments behind whose path both programs park, however clap
  -- would read them.
  abbrev pub Parks : {V : Type 0} → Files V → Option ℕ × V → Type 0
  Parks {V} files x =
      ((v : V) × (args : List (List ℕ)) × (x ≡ files.spawn stub_path args v)
        × ((path : List ℕ) (parse : List (List ℕ) → Option Flags)
              (parse' : List (List ℕ) → Option TargetFlags) (w : W)
            → (main world parse (path ∷ args) w ≡ parks)
              × (target_main world parse' (path ∷ args) w ≡ parks)))
      ⊎ ((v : V) × (x ≡ (none, v)))

  -- Whatever the operations on files do, the process that the target starts for FanaLab, if it starts
  -- one, gets arguments with which the programs teleport and target park.
  pub spawn_stub-Parks : {V : Type 0} (files : Files V) (v : V) → Parks files (spawn_stub files v)
  spawn_stub-Parks files v = elim (spawn_stub-IsStubOrNone files v) [
    | inl (v', e) ↦ inl (v', stub_args, e, main-parks)
    | inr none_started ↦ inr none_started
  ]
