-- ===== src/Target/Run.antt =====
-- teleport/src/target.rs, `run` from its first line to its return. What lies outside is a state `W`
-- that calls change; the loop is that of Link/Recorder.
pub mod Returns
use iracing_teleport.Base.{ℕ, ◌*◌, List, Bool, Option, none, some}
use iracing_teleport.Control.{Control, running, stopped, failed}
use iracing_teleport.Protocol.Sender.{Result, ok, err}
use iracing_teleport.Platform.{
  Os, acquire_timer, drop_timer, boost_thread_priority, raise_priority, acquire_mmcss, drop_mmcss,
  pin,
}
use iracing_teleport.Setup.{Net, target_setup}
use iracing_teleport.Target.{Config, Env}
use iracing_teleport.Target.Loop.{Input, new}
use iracing_teleport.Ibt.Writer as Writer
use iracing_teleport.Ibt.Writer.{Disk, IbtWriter}
use iracing_teleport.Link.Recorder as Recorder

-- The system, the network, the disk, and the library that decompresses, with the size of its buffer.
pub record Outside (W : Type 0) : Type 0 where
  pub os : Os W
  pub net : Net W
  pub disk : Disk W
  pub parse : List ℕ → Option ℕ
  pub f64_gt : ℕ → ℕ → Bool
  pub decompress_into : List ℕ → Option (List ℕ)
  pub max_compressed : ℕ

-- The loop returned, or goes on.
unfoldable pub result_of : Control → Option (Result (Unit {0}))
result_of running = none
result_of stopped = some (ok tt)
result_of (failed e) = some (err e)

module _ {W : Type 0} (out : Outside W) where
  -- The guards are dropped when `run` returns, the last that was made first.
  unfoldable pub ending : Option ℕ → Option (Result (Unit {0})) × W → Option (Result (Unit {0})) × W
  ending mmcss (none, w) = (none, w)
  ending mmcss (some r, w) = (some r, drop_timer out.os (drop_mmcss out.os mmcss w))

  -- What follows the set-up of the socket, if it succeeded.
  unfoldable pub proceed :
      Config → ℕ → List (ℕ × Env × Input) → Result (Unit {0}) × W → Option (Result (Unit {0})) × W
  proceed cfg now rounds (err e, w) = (some (err e), w)
  proceed cfg now rounds (ok _, w) =
      let (control, _, _, w') =
        Recorder.run out.decompress_into out.disk out.f64_gt cfg rounds (new out.max_compressed now)
          Writer.new w in
      (result_of control, w')

  -- `run`, with the time before its loop and the rounds of it.
  unfoldable pub run :
      List ℕ
      → Bool
      → List ℕ
      → Bool
      → Option ℕ
      → Bool
      → ℕ
      → Bool
      → Bool
      → Bool
      → Bool
      → Bool
      → ℕ
      → List (ℕ × Env × Input)
      → W
      → Option (Result (Unit {0})) × W
  run bind unicast multicast_group busy_wait pin_core fanalab stale_timeout_secs high_priority
        write_ibt has_first_data has_stale has_stats now rounds w =
      let cfg : Config = record {
        fanalab = fanalab;
        write_ibt = write_ibt;
        has_first_data = has_first_data;
        has_stale = has_stale;
        has_stats = has_stats;
        stale_timeout = stale_timeout_secs * 1000000;
      } in
      let w1 =
        raise_priority out.os high_priority
          (boost_thread_priority out.os (acquire_timer out.os w)) in
      let (mmcss, w2) = acquire_mmcss out.os w1 in
      let w3 = pin out.os pin_core w2 in
      ending mmcss (
        proceed cfg now rounds
          (target_setup out.net out.parse bind multicast_group unicast busy_wait w3))
