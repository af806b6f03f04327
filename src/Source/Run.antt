-- ===== src/Source/Run.antt =====
-- teleport/src/source.rs, `run` from its first line to its return, with the shared memory of the game
-- that it opens, reads and drops. What lies outside is a state `W` that calls change.
pub mod Transport
pub mod Neutral
pub mod Held
pub mod Closed
pub mod Returns
pub mod Refines
pub mod Reach
pub mod Slices
use iracing_teleport.Base.{
  ℕ, ◌-◌, ◌*◌, List, [], ◌∷◌, Bool, true, false, Option, none, some, leb, ◌⊎◌, inl, inr,
  if◌then◌else◌,
}
use iracing_teleport.Control.{Control, running, stopped, failed}
use iracing_teleport.Protocol.Sender
use iracing_teleport.Protocol.Sender.{ErrorKind, Result, ok, err}
use iracing_teleport.Platform.{
  Os, acquire_timer, drop_timer, boost_thread_priority, raise_priority, pin,
}
use iracing_teleport.Setup.{Net, source_setup}
use iracing_teleport.Stats
use iracing_teleport.Telemetry.Windows.{
  Win32, WindowsTelemetry, TelemetryError, unavailable, other, open_telemetry, drop_telemetry,
  wait_for_data, zero_on_exit,
}
use iracing_teleport.Source.{Source, Config}
use iracing_teleport.Source.Loop.{new, keep_alive, disconnect}
use iracing_teleport.Source.Round.{Env, send_data}

-- The system, the shared memory, the network, and the library that compresses.
pub record Outside (W : Type 0) : Type 0 where
  pub os : Os W
  pub win : Win32 W
  pub net : Net W
  pub parse : List ℕ → Option ℕ
  pub send : List ℕ → W → Result (Unit {0}) × W
  pub send_to : ℕ → List ℕ → W → Result (Unit {0}) × W
  pub compress_into : List ℕ → Option (List ℕ)

-- What a round gets besides: whether shutdown is requested, what its reads show, for each attempt to
-- open the memory again whether shutdown is requested while it waits, and the time after them.
pub record Turn : Type 0 where
  pub shutdown : Bool
  pub env : Env
  pub waits : List Bool
  pub later : ℕ

abbrev pub poll_interval_ms : ℕ
poll_interval_ms = 200

-- How the loop around `try_open` ends, or that it still waits.
pub data Connection : Type 0 where
  found : WindowsTelemetry → Connection
  stopping : Connection
  refused : Connection
  waiting : Connection

-- How a round ends: the loop goes on with this memory and these variables, or `run` returns, or it
-- still waits for the game.
pub data Outcome : Type 0 where
  goes_on : WindowsTelemetry → Source → Outcome
  returned : Result (Unit {0}) → Outcome
  waits : Outcome

module _ {W : Type 0} (out : Outside W) where
  -- The loop around `try_open`.
  unfoldable pub connect : List Bool → W → Connection × W
  connect [] w = (waiting, w)
  connect (requested ∷ later) w =
      let (opened, w') = open_telemetry out.win w in
      let again = connect later w' in
      elim opened [
        | inr t ↦ (found t, w')
        | inl (other message) ↦ (refused, w')
        | inl unavailable ↦ if requested then (stopping, w') else again
      ]

  -- The closures `send_one` and `send_heartbeat` send to the target by one of two calls.
  unfoldable pub send_fn : Bool → Option ℕ → List ℕ → W → Result (Unit {0}) × W
  send_fn true target_addr d w = out.send d w
  send_fn false none d w = (err Sender.other, w)
  send_fn false (some target_addr) d w = out.send_to target_addr d w

  -- How a reconnection ends the round, by the loop around `try_open`.
  unfoldable pub reopened : Turn → Source → Connection × W → Outcome × W
  reopened turn s (found t, w) =
      (goes_on t (record s { last_data = turn.later; stats = Stats.new turn.later }), w)
  reopened turn s (stopping, w) = (returned (ok tt), w)
  reopened turn s (refused, w) = (returned (err Sender.other), w)
  reopened turn s (waiting, w) = (waits, w)

  -- The reconnection: the memory is dropped, and opened again.
  unfoldable pub reconnect : Turn → WindowsTelemetry → Source → W → Outcome × W
  reconnect turn t s w =
      reopened turn (disconnect turn.env.now s) (connect turn.waits (drop_telemetry out.win t w))

  -- What a round's outcome means for the loop, with the rounds to come.
  unfoldable pub follow :
      (WindowsTelemetry → Source → W → Option (Result (Unit {0})) × W)
      → Outcome × W
      → Option (Result (Unit {0})) × W
  follow rest (goes_on t s, w) = rest t s w
  follow rest (returned r, w) = (some r, w)
  follow rest (waits, w) = (none, w)

  module _ (send_one : List ℕ → W → Result (Unit {0}) × W) (cfg : Config) (poll_ms : ℕ) where
    -- A round without data.
    unfoldable pub quiet : Turn → WindowsTelemetry → Source → W → Outcome × W
    quiet turn t s w =
        let (s', w') = keep_alive send_one cfg turn.env.now turn.env.cap s w in
        if leb cfg.reconnect_timeout (turn.env.now - s'.last_data)
        then reconnect turn t s' w'
        else (goes_on t s', w')

    -- The body of the loop. When `run` returns the memory is dropped.
    unfoldable pub round : Turn → WindowsTelemetry → Source → W → Outcome × W
    round turn t s w =
        let (ready, w1) = wait_for_data out.win t poll_ms w in
        let (s', _, w2) = send_data out.compress_into send_one cfg turn.env s w1 in
        if turn.shutdown
        then (returned (ok tt), drop_telemetry out.win t (zero_on_exit out.win t.size w))
        else if ready
        then (goes_on t s', w2)
        else quiet turn t s w1

    -- The loop; `none` while it has not ended.
    unfoldable pub rounds :
        List Turn → WindowsTelemetry → Source → W → Option (Result (Unit {0})) × W
    rounds [] t s w = (none, w)
    rounds (turn ∷ turns) t s w = follow (rounds turns) (round turn t s w)

    -- The loop, once the memory was found.
    unfoldable pub serve : ℕ → ℕ → List Turn → Connection × W → Option (Result (Unit {0})) × W
    serve datagram_size now turns (found t, w) = rounds turns t (new datagram_size now) w
    serve datagram_size now turns (stopping, w) = (some (ok tt), w)
    serve datagram_size now turns (refused, w) = (some (err Sender.other), w)
    serve datagram_size now turns (waiting, w) = (none, w)

    -- What follows the set-up of the socket, if it succeeded.
    unfoldable pub proceed :
        ℕ → List Bool → ℕ → List Turn → Result (Unit {0}) × W → Option (Result (Unit {0})) × W
    proceed datagram_size attempts now turns (err e, w) = (some (err e), w)
    proceed datagram_size attempts now turns (ok _, w) =
        serve datagram_size now turns (connect attempts w)

  -- The timer is dropped when `run` returns.
  unfoldable pub ending : Option (Result (Unit {0})) × W → Option (Result (Unit {0})) × W
  ending (none, w) = (none, w)
  ending (some r, w) = (some r, drop_timer out.os w)

  -- `run`, with the attempts to open the memory, the time after them and the rounds of its loop.
  unfoldable pub run :
      List ℕ
      → List ℕ
      → Bool
      → Bool
      → Option ℕ
      → Bool
      → ℕ
      → ℕ
      → Bool
      → ℕ
      → Bool
      → List Bool
      → ℕ
      → List Turn
      → W
      → Option (Result (Unit {0})) × W
  run bind target unicast busy_wait pin_core high_priority reconnect_timeout_secs datagram_size
        no_delta keyframe_interval has_stats attempts now turns w =
      let cfg : Config = record {
        no_delta = no_delta;
        keyframe_interval = keyframe_interval;
        reconnect_timeout = reconnect_timeout_secs * 1000000;
        has_stats = has_stats;
      } in
      let w1 = pin out.os pin_core (
        raise_priority out.os high_priority
          (boost_thread_priority out.os (acquire_timer out.os w))) in
      let poll_ms = if busy_wait then 0 else poll_interval_ms in
      ending (
        proceed (send_fn unicast (out.parse target)) cfg poll_ms datagram_size attempts now turns
          (source_setup out.net out.parse bind target unicast w1))
