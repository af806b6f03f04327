-- ===== src/Source/Run/Closed.antt =====
-- What `run` of teleport/src/source.rs leaves open: the handles and views of the shared memory.
use iracing_teleport.Base.{
  ℕ, ◌-◌, ◌*◌, ◌∙◌, List, [], ◌∷◌, Bool, true, false, Option, none, some, leb, Bool-cases, inl, inr,
  if◌then◌else◌,
}
use iracing_teleport.Protocol.Sender.{Result, ok, err}
use iracing_teleport.Platform.{
  acquire_timer, drop_timer, boost_thread_priority, raise_priority, pin,
}
use iracing_teleport.Setup.{source_setup}
use iracing_teleport.Telemetry.Windows.{
  WindowsTelemetry, drop_telemetry, wait_for_data, zero_on_exit,
}
use iracing_teleport.Telemetry.Windows.Balance.{Counts, IsSameOpen, zero_on_exit-IsSameOpen}
use iracing_teleport.Source.{Source, Config}
use iracing_teleport.Source.Loop.{new, keep_alive, disconnect}
use iracing_teleport.Source.Round.{send_data}
use iracing_teleport.Source.Run.{
  Outside, Turn, Connection, found, stopping, refused, waiting, Outcome, goes_on, returned, waits,
  connect, send_fn, reopened, follow, proceed, reconnect, quiet, round, rounds, serve, ending, run,
  poll_interval_ms,
}
use iracing_teleport.Source.Run.Transport.{keep_alive-kept, send_data-kept}
use iracing_teleport.Source.Run.Neutral.{
  IsApart, source_setup-IsNeutral, prepare-IsNeutral, send_fn-IsNeutral,
}
use iracing_teleport.Source.Run.Held.{
  IsHeld, IsHeld-later, drop_telemetry-IsHeld, IsConnected, IsConnected-later, connect-IsConnected,
  IsSettled, IsClosedAt,
}

module _ {W : Type 0} (out : Outside W) (c : Counts out.win) (a : IsApart out c) (k : ℕ) where
  abbrev Held : WindowsTelemetry → W → W → Type 0
  Held t w v = IsHeld out c k t w v

  reconnected :
      (turn : Turn) (s : Source) (w : W) (x : Connection × W)
      → IsConnected out c k w x
      → IsSettled out c k w (reopened out turn s x)
  unfolding reopened
  reconnected turn s w (found t', v) h = h
  reconnected turn s w (stopping, v) h = h
  reconnected turn s w (refused, v) h = h
  reconnected turn s w (waiting, v) h = h

  reconnect-IsSettled :
      (turn : Turn) (t : WindowsTelemetry) (s : Source) (w v : W)
      → Held t w v
      → IsSettled out c k w (reconnect out turn t s v)
  unfolding reconnect
  reconnect-IsSettled turn t s w v h =
      let dropped = drop_telemetry out.win t v in
      let x = connect out turn.waits dropped in
      reconnected turn (disconnect turn.env.now s) w x (
        IsConnected-later out c k w dropped x (drop_telemetry-IsHeld out c k t w v h)
          (connect-IsConnected out c k turn.waits dropped))

  module _ (send_one : List ℕ → W → Result (Unit {0}) × W)
      (apart : (d : List ℕ) (w : W) → IsSameOpen out.win c w (send_one d w).1 k) (cfg : Config)
      (poll_ms : ℕ) where
    sent-Held :
        (t : WindowsTelemetry) (w : W) (d : List ℕ) (v : W) → Held t w v → Held t w (send_one d v).1
    sent-Held t w d v h = IsHeld-later out c k t w v (send_one d v).1 h (apart d v)

    quiet-IsSettled :
        (turn : Turn) (t : WindowsTelemetry) (s : Source) (w v : W)
        → Held t w v
        → IsSettled out c k w (quiet out send_one cfg poll_ms turn t s v)
    unfolding quiet
    quiet-IsSettled turn t s w v h =
        let (s', v') = keep_alive send_one cfg turn.env.now turn.env.cap s v in
        let h' : Held t w v' =
          keep_alive-kept send_one (Held t w) (sent-Held t w) cfg turn.env.now turn.env.cap s v h in
        elim (Bool-cases (leb cfg.reconnect_timeout (turn.env.now - s'.last_data))) [
          | inl timed_out ↦ rw timed_out (reconnect-IsSettled turn t s' w v' h')
          | inr waits_on ↦ rw waits_on h'
        ]

    round-IsSettled :
        (turn : Turn) (t : WindowsTelemetry) (s : Source) (w v : W)
        → Held t w v
        → IsSettled out c k w (round out send_one cfg poll_ms turn t s v)
    unfolding round wait_for_data
    round-IsSettled turn t s w v h =
        let (ready, v1) = wait_for_data out.win t poll_ms v in
        let h1 : Held t w v1 = IsHeld-later out c k t w v v1 h (c.waited k t.h_event poll_ms v) in
        let zeroed = zero_on_exit out.win t.size v in
        let h2 : Held t w zeroed =
          IsHeld-later out c k t w v zeroed h (zero_on_exit-IsSameOpen out.win c t.size v k) in
        let stops : Outcome × W = (returned (ok tt), drop_telemetry out.win t zeroed) in
        let (s', _, v2) = send_data out.compress_into send_one cfg turn.env s v1 in
        let sends : Outcome × W = (goes_on t s', v2) in
        let rests = quiet out send_one cfg poll_ms turn t s v1 in
        let h3 : Held t w v2 =
          send_data-kept send_one (Held t w) (sent-Held t w) out.compress_into cfg turn.env s v1
            h1 in
        elim turn.shutdown
          as (λ b. IsSettled out c k w (if b then stops else if ready then sends else rests)) [
            | true ↦ drop_telemetry-IsHeld out c k t w zeroed h2
            | false ↦ elim ready as (λ b. IsSettled out c k w (if b then sends else rests)) [
              | true ↦ h3
              | false ↦ quiet-IsSettled turn t s w v1 h1
            ]
          ]

    settled :
        (turns : List Turn) (w : W) (x : Outcome × W)
        → IsSettled out c k w x
        → ((t : WindowsTelemetry) (s : Source) (v : W)
            → Held t w v
            → IsClosedAt out c k w (rounds out send_one cfg poll_ms turns t s v))
        → IsClosedAt out c k w (follow out (rounds out send_one cfg poll_ms turns) x)
    unfolding follow
    settled turns w (goes_on t s, v) h rest = rest t s v h
    settled turns w (returned r, v) h rest = h
    settled turns w (waits, v) h rest = tt

    rounds-IsClosedAt :
        (turns : List Turn) (t : WindowsTelemetry) (s : Source) (w v : W)
        → Held t w v
        → IsClosedAt out c k w (rounds out send_one cfg poll_ms turns t s v)
    unfolding rounds
    rounds-IsClosedAt [] t s w v h = tt
    rounds-IsClosedAt (turn ∷ turns) t s w v h =
        settled turns w (round out send_one cfg poll_ms turn t s v) (round-IsSettled turn t s w v h)
          (λ t' s' v' h'. rounds-IsClosedAt turns t' s' w v' h')

    served :
        (datagram_size now : ℕ) (turns : List Turn) (w : W) (x : Connection × W)
        → IsConnected out c k w x
        → IsClosedAt out c k w (serve out send_one cfg poll_ms datagram_size now turns x)
    unfolding serve
    served datagram_size now turns w (found t, v) h =
        rounds-IsClosedAt turns t (new datagram_size now) w v h
    served datagram_size now turns w (stopping, v) h = h
    served datagram_size now turns w (refused, v) h = h
    served datagram_size now turns w (waiting, v) h = tt

  IsClosedAt-later :
      (u v : W) (x : Option (Result (Unit {0})) × W)
      → IsSameOpen out.win c u v k
      → IsClosedAt out c k v x
      → IsClosedAt out c k u x
  IsClosedAt-later u v (none, w) same h = tt
  IsClosedAt-later u v (some r, w) same h = (h.0 ∙ same.0, h.1 ∙ same.1)

  ending-IsClosedAt :
      (w : W) (x : Option (Result (Unit {0})) × W)
      → IsClosedAt out c k w x
      → IsClosedAt out c k w (ending out x)
  unfolding ending drop_timer
  ending-IsClosedAt w (none, v) h = tt
  ending-IsClosedAt w (some r, v) h = let l = a.timer_ended v k in (l.0 ∙ h.0, l.1 ∙ h.1)

  proceed-IsClosedAt :
      (unicast : Bool) (target_addr : Option ℕ) (cfg : Config) (poll_ms datagram_size : ℕ)
      (attempts : List Bool) (now : ℕ) (turns : List Turn) (w : W) (x : Result (Unit {0}) × W)
      → IsSameOpen out.win c w x.1 k
      → IsClosedAt out c k w (
          proceed out
            (send_fn out unicast target_addr)
            cfg
            poll_ms
            datagram_size
            attempts
            now
            turns
            x)
  unfolding proceed
  proceed-IsClosedAt unicast target_addr cfg poll_ms datagram_size attempts now turns w (err e, v)
        same =
      same
  proceed-IsClosedAt unicast target_addr cfg poll_ms datagram_size attempts now turns w (ok u, v)
        same =
      let send_one = send_fn out unicast target_addr in
      let connection = connect out attempts v in
      IsClosedAt-later w v (serve out send_one cfg poll_ms datagram_size now turns connection) same
        (served send_one (λ d u. send_fn-IsNeutral out c a unicast target_addr d u k) cfg poll_ms
          datagram_size now turns v connection (connect-IsConnected out c k attempts v))

  -- When `run` of the source returns, with success or an error at whatever place, every handle and
  -- every view of the shared memory is open as often as when it was called, if the calls of the system,
  -- the network and the transport leave them alone.
  pub run-IsClosed :
      (bind target : List ℕ) (unicast busy_wait : Bool) (pin_core : Option ℕ) (high_priority : Bool)
      (reconnect_timeout_secs datagram_size : ℕ) (no_delta : Bool) (keyframe_interval : ℕ)
      (has_stats : Bool) (attempts : List Bool) (now : ℕ) (turns : List Turn) (w : W)
      → IsClosedAt out c k w (
          run out bind target unicast busy_wait pin_core high_priority reconnect_timeout_secs
            datagram_size no_delta keyframe_interval has_stats attempts now turns w)
  unfolding run
  run-IsClosed bind target unicast busy_wait pin_core high_priority reconnect_timeout_secs
        datagram_size no_delta keyframe_interval has_stats attempts now turns w =
      let cfg : Config = record {
        no_delta = no_delta;
        keyframe_interval = keyframe_interval;
        reconnect_timeout = reconnect_timeout_secs * 1000000;
        has_stats = has_stats;
      } in
      let w1 = pin out.os pin_core (
        raise_priority out.os high_priority
          (boost_thread_priority out.os (acquire_timer out.os w))) in
      let poll_ms : ℕ = if busy_wait then 0 else poll_interval_ms in
      let x = source_setup out.net out.parse bind target unicast w1 in
      let same = source_setup-IsNeutral out c a bind target unicast w1 k in
      let prepared = prepare-IsNeutral out c a high_priority pin_core w k in
      ending-IsClosedAt w
        (proceed out (send_fn out unicast (out.parse target)) cfg poll_ms datagram_size attempts now
          turns x)
        (proceed-IsClosedAt unicast (out.parse target) cfg poll_ms datagram_size attempts now turns
          w x (same.0 ∙ prepared.0, same.1 ∙ prepared.1))
