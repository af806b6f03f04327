-- ===== src/Link/Recorder.antt =====
-- teleport/src/target.rs with the .ibt writer that `run` holds: the effects of each round of the loop
-- on it, and its drop when `run` returns.
use iracing_teleport.Base.{ℕ, List, [], ◌∷◌, Bool, Option}
use iracing_teleport.Control.{Control, running, stopped, failed}
use iracing_teleport.Target.{Effect, map_update, finish_ibt, Config, Env, Target}
use iracing_teleport.Target.Loop.{Input, step}
use iracing_teleport.Ibt.Writer.{Disk, IbtWriter, finish, on_map_update}

module _ {W : Type 0} (disk : Disk W) (f64_gt : ℕ → ℕ → Bool) where
  -- `if let Some(w) = ibt_writer.as_mut()`
  unfoldable pub record_effect : ℕ → Effect → IbtWriter → W → IbtWriter × W
  record_effect now (map_update m) writer w = on_map_update disk f64_gt now writer m w
  record_effect now finish_ibt writer w = finish disk writer w
  record_effect now _ writer w = (writer, w)

  unfoldable pub record_effects : ℕ → List Effect → IbtWriter → W → IbtWriter × W
  record_effects now [] writer w = (writer, w)
  record_effects now (e ∷ es) writer w =
      let (writer', w') = record_effect now e writer w in record_effects now es writer' w'

module _ (decompress_into : List ℕ → Option (List ℕ)) {W : Type 0} (disk : Disk W)
    (f64_gt : ℕ → ℕ → Bool) where
  -- `run`: rounds until one ends the loop, with the writer dropped then. Each round has its time of
  -- the wall clock.
  unfoldable pub run :
      Config → List (ℕ × Env × Input) → Target → IbtWriter → W → Control × Target × IbtWriter × W
  run cfg [] t writer w = (running, t, writer, w)
  run cfg ((now, env, input) ∷ rounds) t writer w =
      let (control, t', effects) = step decompress_into cfg env t input in
      let (writer', w') = record_effects disk f64_gt now effects writer w in
      let rest = run cfg rounds t' writer' w' in
      let dropped = finish disk writer' w' in
      elim control [
        | running ↦ rest
        | stopped ↦ (stopped, t', dropped.0, dropped.1)
        | failed e ↦ (failed e, t', dropped.0, dropped.1)
      ]
