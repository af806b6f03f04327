-- ===== src/Source/Run/Reach.antt =====
-- The states that the loop of `run` of teleport/src/source.rs reaches, over the system.
use iracing_teleport.Base.{ℕ, ◌≡◌, sym, subst, ap, List, Option, none, some, inl, inr, ◌∙◌}
use iracing_teleport.Control.{Control, running, stopped, failed}
use iracing_teleport.Protocol.Sender.{Result}
use iracing_teleport.Telemetry.Windows.{WindowsTelemetry, wait_for_data}
use iracing_teleport.Source.{Source, Config}
use iracing_teleport.Source.Loop.{new}
use iracing_teleport.Source.Round.{step}
use iracing_teleport.Source.Valid.{IsSource, new-IsSource, RoundValid, step-RoundValid}
use iracing_teleport.Source.Run.{Outside, Turn, goes_on, round}
use iracing_teleport.Source.Run.Refines.{Left, step_left, round_left, event_of, round-step}

module _ {W : Type 0} (out : Outside W) (send_one : List ℕ → W → Result (Unit {0}) × W)
    (cfg : Config) (poll_ms datagram_size : ℕ) where
  -- The loop starts once the memory `t` is open, and goes on from round to round.
  pub data Reach (t : WindowsTelemetry) (now : ℕ) (w : W)
      : WindowsTelemetry → Source → W → Type 0 where
    start : Reach t now w t (new datagram_size now) w
    later :
        {t1 t2 : WindowsTelemetry} {s1 s2 : Source} {w1 w2 : W} (turn : Turn)
        → Reach t now w t1 s1 w1
        → round out send_one cfg poll_ms turn t1 s1 w1 ≡ (goes_on t2 s2, w2)
        → Reach t now w t2 s2 w2

  abbrev LeftValid : Left → Type 0
  LeftValid none = Unit
  LeftValid (some (inl s)) = IsSource s
  LeftValid (some (inr r)) = Unit

  step_left-LeftValid :
      (x : Option (Control × Source × Option (ℕ × ℕ × ℕ) × W))
      → RoundValid send_one out.compress_into x
      → LeftValid (step_left x)
  step_left-LeftValid none v = tt
  step_left-LeftValid (some (running, s, snapshot, w)) v = v
  step_left-LeftValid (some (stopped, s, snapshot, w)) v = tt
  step_left-LeftValid (some (failed e, s, snapshot, w)) v = tt

  -- In each state that the loop reaches, over any number of rounds and reconnections and whatever the
  -- system, the game, the network and the compression do, the variables are valid.
  pub Reach-IsSource :
      {t : WindowsTelemetry} {now : ℕ} {w : W} {t' : WindowsTelemetry} {s : Source} {w' : W}
      → Reach t now w t' s w'
      → IsSource s
  Reach-IsSource {now = now} start = new-IsSource datagram_size now
  Reach-IsSource (later {t1} {t2} {s1} {s2} {w1} {w2} turn r e) =
      let x =
        step out.compress_into send_one cfg s1 (wait_for_data out.win t1 poll_ms w1).1
          (event_of out send_one cfg poll_ms turn t1 s1 w1) in
      let left : step_left x ≡ some (inl s2) =
        sym (round-step out send_one cfg poll_ms turn t1 s1 w1) ∙ ap (λ y. round_left y.0) e in
      subst LeftValid left (
        step_left-LeftValid x (
          step-RoundValid send_one out.compress_into cfg s1 (wait_for_data out.win t1 poll_ms w1).1
            (event_of out send_one cfg poll_ms turn t1 s1 w1) (Reach-IsSource r)))
