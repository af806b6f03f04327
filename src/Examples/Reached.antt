-- ===== src/Examples/Reached.antt =====
-- A source that was started at 0 and gets a target's packet in its first round.
use iracing_teleport.Base.{arith, none, ◌≡◌, refl, [], true, false, some, ◌∷◌}
use iracing_teleport.Telemetry.Windows.{wait_for_data}
use iracing_teleport.Source.{Source, choose, payload_of}
use iracing_teleport.Source.Loop.{new, poll_cap, keep_alive, start_data}
use iracing_teleport.Source.Run.{Turn, goes_on, round, quiet}
use iracing_teleport.Source.Round.{Env}
use iracing_teleport.Source.Run.Reach.{Reach, start, later}
use iracing_teleport.Source.Run.Slices.{IsPlainMemory, IsInBounds, Reach-IsInBounds}
use iracing_teleport.Examples.Handles.{nothing}
use iracing_teleport.Examples.Rounds.{plain_config, game_memory, plain_offsets}
use iracing_teleport.Examples.Runs.{outside, memory, send_one}

abbrev asked : Turn
asked = record {
  shutdown = false;
  env = record {
    now = 1000;
    seen = [];
    copied = [];
    rechecked = [];
    source_us = 0;
    cap = some (1, 1);
  };
  waits = true ∷ [];
  later = 1000;
}

silent_turn :
    (s : Source)
    → s.last_heartbeat ≡ 0
    → s.last_data ≡ 0
    → round outside send_one plain_config 200 asked memory s nothing
      ≡ (goes_on memory (poll_cap plain_config (some (1, 1)) s), nothing)
unfolding round quiet keep_alive poll_cap wait_for_data
silent_turn s e e' = rw (e, e') refl

started_heartbeat : (new 9000 0).last_heartbeat ≡ 0
unfolding new
started_heartbeat = refl

started_data : (new 9000 0).last_data ≡ 0
unfolding new
started_data = refl

reached :
    Reach outside send_one plain_config 200 9000 memory 0 nothing memory
      (poll_cap plain_config (some (1, 1)) (new 9000 0))
      nothing
reached = later asked start (silent_turn (new 9000 0) started_heartbeat started_data)

abbrev game_env : Env
game_env = record {
  now = 2000;
  seen = game_memory;
  copied = game_memory;
  rechecked = game_memory;
  source_us = 64;
  cap = none;
}

game_env-IsPlainMemory : IsPlainMemory game_env
game_env-IsPlainMemory = record {
  has_header = omega arith;
  small = omega arith;
  same_size = refl;
  plain = plain_offsets;
}

Reach-IsInBounds_example :
    let asked_source = poll_cap plain_config (some (1, 1)) (new 9000 0) in
    let (c, chosen) = choose 2000 game_memory (start_data 2000 asked_source) in
    let (p, _) = payload_of plain_config c game_memory game_memory chosen in
    IsInBounds game_memory c chosen p
Reach-IsInBounds_example =
    Reach-IsInBounds outside send_one plain_config 200 9000 game_env reached game_env-IsPlainMemory
