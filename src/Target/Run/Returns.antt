-- ===== src/Target/Run/Returns.antt =====
-- `run` of teleport/src/target.rs returns once shutdown is requested.
use iracing_teleport.Base.{
  ℕ, ◌*◌, ◌≡◌, refl, sym, subst, List, [], ◌∷◌, Bool, Option, none, some, ◌⊎◌, inl, inr,
}
use iracing_teleport.Control.{Control, running, stopped, failed}
use iracing_teleport.Protocol.Sender.{Result, ok, err}
use iracing_teleport.Platform.{
  acquire_timer, boost_thread_priority, raise_priority, acquire_mmcss, pin,
}
use iracing_teleport.Setup.{target_setup}
use iracing_teleport.Target.{Config, Env, Target}
use iracing_teleport.Target.Loop.{Input, shutdown, step, new}
use iracing_teleport.Target.Run.{Outside, result_of, ending, proceed, run}
use iracing_teleport.Ibt.Writer as Writer
use iracing_teleport.Ibt.Writer.{IbtWriter, finish}
use iracing_teleport.Link.Recorder as Recorder
use iracing_teleport.Link.Recorder.{record_effects}

-- In one of the rounds shutdown is requested.
abbrev pub IsStopped : List (ℕ × Env × Input) → Type 0
IsStopped [] = ⊥
IsStopped ((now, env, input) ∷ rounds) = (input ≡ shutdown) ⊎ IsStopped rounds

-- The loop does not go on.
abbrev HasEnded : Control → Type 0
HasEnded running = ⊥
HasEnded stopped = Unit
HasEnded (failed e) = Unit

-- The set-up's error was returned; without one, some result was.
abbrev pub HasEndedWith : Result (Unit {0}) → Option (Result (Unit {0})) → Type 0
HasEndedWith prepared none = ⊥
HasEndedWith (err e) (some r) = r ≡ err e
HasEndedWith (ok _) (some r) = Unit

module _ {W : Type 0} (out : Outside W) where
  abbrev loop :
      Config → List (ℕ × Env × Input) → Target → IbtWriter → W → Control × Target × IbtWriter × W
  loop cfg rounds t writer w =
      Recorder.run out.decompress_into out.disk out.f64_gt cfg rounds t writer w

  ended :
      (control : Control) (t : Target) (rest : Control × Target × IbtWriter × W)
      (dropped : IbtWriter × W)
      → HasEnded control ⊎ HasEnded rest.0
      → HasEnded
          (elim control as (λ _. Control × Target × IbtWriter × W) [
            | running ↦ rest
            | stopped ↦ (stopped, t, dropped.0, dropped.1)
            | failed e ↦ (failed e, t, dropped.0, dropped.1)
          ]).0
  ended running t rest dropped (inl h) = absurd h
  ended running t rest dropped (inr h) = h
  ended stopped t rest dropped h = tt
  ended (failed e) t rest dropped h = tt

  shutdown-HasEnded :
      (cfg : Config) (env : Env) (t : Target)
      → HasEnded (step out.decompress_into cfg env t shutdown).0
  unfolding step
  shutdown-HasEnded cfg env t = tt

  loop-HasEnded :
      (cfg : Config) (rounds : List (ℕ × Env × Input)) (t : Target) (writer : IbtWriter) (w : W)
      → IsStopped rounds
      → HasEnded (loop cfg rounds t writer w).0
  unfolding Recorder.run
  loop-HasEnded cfg [] t writer w h = absurd h
  loop-HasEnded cfg ((now, env, input) ∷ rounds) t writer w h =
      let (control, t', effects) = step out.decompress_into cfg env t input in
      let (writer', w') = record_effects out.disk out.f64_gt now effects writer w in
      let rest = loop cfg rounds t' writer' w' in
      let dropped = finish out.disk writer' w' in
      ended control t' rest dropped (elim h [
        | inl stops ↦ inl (
            subst (λ i. HasEnded (step out.decompress_into cfg env t i).0) (sym stops)
              (shutdown-HasEnded cfg env t))
        | inr later ↦ inr (loop-HasEnded cfg rounds t' writer' w' later)
      ])

  returned : (control : Control) → HasEnded control → HasEndedWith (ok tt) (result_of control)
  unfolding result_of
  returned running h = absurd h
  returned stopped h = tt
  returned (failed e) h = tt

  proceed-HasEndedWith :
      (cfg : Config) (now : ℕ) (rounds : List (ℕ × Env × Input)) (x : Result (Unit {0}) × W)
      → IsStopped rounds
      → HasEndedWith x.0 (proceed out cfg now rounds x).0
  unfolding proceed
  proceed-HasEndedWith cfg now rounds (err e, w) h = refl
  proceed-HasEndedWith cfg now rounds (ok u, w) h =
      returned (loop cfg rounds (new out.max_compressed now) Writer.new w).0
        (loop-HasEnded cfg rounds (new out.max_compressed now) Writer.new w h)

  result-ending :
      (mmcss : Option ℕ) (x : Option (Result (Unit {0})) × W) → (ending out mmcss x).0 ≡ x.0
  unfolding ending
  result-ending mmcss (none, w) = refl
  result-ending mmcss (some r, w) = refl

  -- If shutdown is requested in one of the rounds, `run` of the target returns: with the error of the
  -- set-up of its socket, if that failed, and else with some result.
  pub run-HasEndedWith :
      (bind : List ℕ) (unicast : Bool) (multicast_group : List ℕ) (busy_wait : Bool)
      (pin_core : Option ℕ) (fanalab : Bool) (stale_timeout_secs : ℕ)
      (high_priority write_ibt has_first_data has_stale has_stats : Bool) (now : ℕ)
      (rounds : List (ℕ × Env × Input)) (w : W)
      → IsStopped rounds
      → let prepared =
          pin out.os pin_core
            (acquire_mmcss out.os (
              raise_priority out.os high_priority
                (boost_thread_priority out.os (acquire_timer out.os w)))).1 in
        HasEndedWith
          (target_setup out.net out.parse bind multicast_group unicast busy_wait prepared).0
          (run out bind unicast multicast_group busy_wait pin_core fanalab stale_timeout_secs
            high_priority write_ibt has_first_data has_stale has_stats now rounds w).0
  unfolding run
  run-HasEndedWith bind unicast multicast_group busy_wait pin_core fanalab stale_timeout_secs
        high_priority write_ibt has_first_data has_stale has_stats now rounds w h =
      let cfg : Config = record {
        fanalab = fanalab;
        write_ibt = write_ibt;
        has_first_data = has_first_data;
        has_stale = has_stale;
        has_stats = has_stats;
        stale_timeout = stale_timeout_secs * 1000000;
      } in
      let w1 =
        raise_priority out.os high_priority
          (boost_thread_priority out.os (acquire_timer out.os w)) in
      let (mmcss, w2) = acquire_mmcss out.os w1 in
      let x =
        target_setup out.net out.parse bind multicast_group unicast busy_wait
          (pin out.os pin_core w2) in
      subst (HasEndedWith x.0) (sym (result-ending mmcss (proceed out cfg now rounds x)))
        (proceed-HasEndedWith cfg now rounds x h)
