-- ===== src/Source/Run/Returns.antt =====
-- `run` of teleport/src/source.rs returns once shutdown is requested.
use iracing_teleport.Base.{
  ℕ, ◌-◌, ◌*◌, ◌≡◌, refl, sym, ap, subst, List, [], ◌∷◌, Bool, true, false, Option, none, some,
  arith, leb, ◌⊎◌, inl, inr, if◌then◌else◌,
}
use iracing_teleport.Protocol.Sender.{Result, ok, err}
use iracing_teleport.Platform.{acquire_timer, boost_thread_priority, raise_priority, pin}
use iracing_teleport.Setup.{source_setup}
use iracing_teleport.Telemetry.Windows.{
  WindowsTelemetry, TelemetryError, unavailable, other, open_telemetry, drop_telemetry,
  wait_for_data, zero_on_exit,
}
use iracing_teleport.Source.{Source, Config}
use iracing_teleport.Source.Loop.{new, keep_alive, disconnect}
use iracing_teleport.Source.Round.{send_data}
use iracing_teleport.Source.Run.{
  Outside, Turn, Connection, found, stopping, refused, waiting, Outcome, goes_on, returned, waits,
  connect, send_fn, reopened, follow, proceed, reconnect, quiet, round, rounds, serve, ending, run,
  poll_interval_ms,
}

-- While the program waits for the game, shutdown is requested at some time.
abbrev pub IsRequested : List Bool → Type 0
IsRequested [] = ⊥
IsRequested (true ∷ later) = Unit
IsRequested (false ∷ later) = IsRequested later

-- In one of the rounds shutdown is requested, and in each before it while it waits for the game.
abbrev pub IsStopped : List Turn → Type 0
IsStopped [] = ⊥
IsStopped (turn ∷ turns) = (turn.shutdown ≡ true) ⊎ (IsRequested turn.waits × IsStopped turns)

module _ {W : Type 0} (out : Outside W) where
  -- The memory was found, or shutdown was requested.
  abbrev HasConnected : Connection × W → Type 0
  HasConnected (found t, w) = Unit
  HasConnected (stopping, w) = Unit
  HasConnected (refused, w) = ⊥
  HasConnected (waiting, w) = ⊥

  abbrev IsOpening : (TelemetryError ⊎ WindowsTelemetry) × W → Type 0
  IsOpening (inl (other message), w) = ⊥
  IsOpening (inl unavailable, w) = Unit
  IsOpening (inr t, w) = Unit

  -- `open` gives no other error.
  open_telemetry-IsOpening : (w : W) → IsOpening (open_telemetry out.win w)
  unfolding open_telemetry
  open_telemetry-IsOpening w = ground arith

  connected_by :
      (requested : Bool) (later : List Bool) (opened : (TelemetryError ⊎ WindowsTelemetry) × W)
      → IsOpening opened
      → IsRequested (requested ∷ later)
      → (IsRequested later → HasConnected (connect out later opened.1))
      → HasConnected (elim opened.0 as (λ _. Connection × W) [
        | inr t ↦ (found t, opened.1)
        | inl (other message) ↦ (refused, opened.1)
        | inl unavailable ↦ if requested then (stopping, opened.1) else connect out later opened.1
      ])
  connected_by requested later (inr t, w) h asked again = tt
  connected_by requested later (inl (other message), w) h asked again = absurd h
  connected_by true later (inl unavailable, w) h asked again = tt
  connected_by false later (inl unavailable, w) h asked again = again asked

  connect-HasConnected :
      (attempts : List Bool) (w : W) → IsRequested attempts → HasConnected (connect out attempts w)
  unfolding connect
  connect-HasConnected [] w asked = absurd asked
  connect-HasConnected (requested ∷ later) w asked =
      connected_by requested later (open_telemetry out.win w) (open_telemetry-IsOpening w) asked
        (connect-HasConnected later (open_telemetry out.win w).1)

  -- The loop goes on, or `run` returns `Ok`.
  abbrev GoesWell : Outcome × W → Type 0
  GoesWell (goes_on t s, w) = Unit
  GoesWell (returned (ok u), w) = Unit
  GoesWell (returned (err e), w) = ⊥
  GoesWell (waits, w) = ⊥

  reconnected :
      (turn : Turn) (s : Source) (x : Connection × W)
      → HasConnected x
      → GoesWell (reopened out turn s x)
  unfolding reopened
  reconnected turn s (found t', v) h = tt
  reconnected turn s (stopping, v) h = tt
  reconnected turn s (refused, v) h = absurd h
  reconnected turn s (waiting, v) h = absurd h

  reconnect-GoesWell :
      (turn : Turn) (t : WindowsTelemetry) (s : Source) (w : W)
      → IsRequested turn.waits
      → GoesWell (reconnect out turn t s w)
  unfolding reconnect
  reconnect-GoesWell turn t s w asked =
      let dropped = drop_telemetry out.win t w in
      reconnected turn (disconnect turn.env.now s) (connect out turn.waits dropped)
        (connect-HasConnected turn.waits dropped asked)

  -- It has returned `r`.
  abbrev pub HasReturned : Result (Unit {0}) → Option (Result (Unit {0})) × W → Type 0
  HasReturned r (none, w) = ⊥
  HasReturned r (some r', w) = r' ≡ r

  module _ (send_one : List ℕ → W → Result (Unit {0}) × W) (cfg : Config) (poll_ms : ℕ) where
    round-GoesWell :
        (turn : Turn) (t : WindowsTelemetry) (s : Source) (w : W)
        → IsRequested turn.waits
        → GoesWell (round out send_one cfg poll_ms turn t s w)
    unfolding round quiet
    round-GoesWell turn t s w asked =
        let (ready, w1) = wait_for_data out.win t poll_ms w in
        let (s', w2) = keep_alive send_one cfg turn.env.now turn.env.cap s w1 in
        let stops : Outcome × W =
          (returned (ok tt), drop_telemetry out.win t (zero_on_exit out.win t.size w)) in
        let (s'', _, w3) = send_data out.compress_into send_one cfg turn.env s w1 in
        let sends : Outcome × W = (goes_on t s'', w3) in
        let stays : Outcome × W = (goes_on t s', w2) in
        let retries = reconnect out turn t s' w2 in
        let timed_out = leb cfg.reconnect_timeout (turn.env.now - s'.last_data) in
        elim turn.shutdown
          as (λ b.
            GoesWell (
              if b then stops else if ready then sends else if timed_out then retries else stays)) [
                | true ↦ tt
                | false ↦
                    elim ready
                      as (λ b.
                        GoesWell (if b then sends else if timed_out then retries else stays)) [
                          | true ↦ tt
                          | false ↦
                              elim timed_out as (λ b. GoesWell (if b then retries else stays)) [
                                | true ↦ reconnect-GoesWell turn t s' w2 asked
                                | false ↦ tt
                              ]
                        ]
              ]

    round_stopped :
        (turn : Turn) (t : WindowsTelemetry) (s : Source) (w : W)
        → turn.shutdown ≡ true
        → (round out send_one cfg poll_ms turn t s w).0 ≡ returned (ok tt)
    unfolding round
    round_stopped turn t s w h =
        let (ready, w1) = wait_for_data out.win t poll_ms w in
        let stops : Outcome × W =
          (returned (ok tt), drop_telemetry out.win t (zero_on_exit out.win t.size w)) in
        let (s', _, w2) = send_data out.compress_into send_one cfg turn.env s w1 in
        let goes : Outcome × W =
          if ready then (goes_on t s', w2) else quiet out send_one cfg poll_ms turn t s w1 in
        ap (λ (b : Bool). (if b then stops else goes).0) h

    goes_well :
        (turns : List Turn) (x : Outcome × W)
        → GoesWell x
        → ((t : WindowsTelemetry) (s : Source) (w : W)
            → HasReturned (ok tt) (rounds out send_one cfg poll_ms turns t s w))
        → HasReturned (ok tt) (follow out (rounds out send_one cfg poll_ms turns) x)
    unfolding follow
    goes_well turns (goes_on t s, w) h rest = rest t s w
    goes_well turns (returned (ok u), w) h rest = refl
    goes_well turns (returned (err e), w) h rest = absurd h
    goes_well turns (waits, w) h rest = absurd h

    rounds-HasReturned :
        (turns : List Turn)
        → IsStopped turns
        → (t : WindowsTelemetry) (s : Source) (w : W)
        → HasReturned (ok tt) (rounds out send_one cfg poll_ms turns t s w)
    unfolding rounds follow
    rounds-HasReturned [] h t s w = absurd h
    rounds-HasReturned (turn ∷ turns) (inl requested) t s w =
        let x = round out send_one cfg poll_ms turn t s w in
        subst
          (λ o. HasReturned (ok tt) (follow out (rounds out send_one cfg poll_ms turns) (o, x.1)))
          (sym (round_stopped turn t s w requested)) refl
    rounds-HasReturned (turn ∷ turns) (inr (asked, later)) t s w =
        goes_well turns (round out send_one cfg poll_ms turn t s w)
          (round-GoesWell turn t s w asked) (rounds-HasReturned turns later)

    served :
        (datagram_size now : ℕ) (turns : List Turn) (x : Connection × W)
        → HasConnected x
        → IsStopped turns
        → HasReturned (ok tt) (serve out send_one cfg poll_ms datagram_size now turns x)
    unfolding serve
    served datagram_size now turns (found t, w) h stopped =
        rounds-HasReturned turns stopped t (new datagram_size now) w
    served datagram_size now turns (stopping, w) h stopped = refl
    served datagram_size now turns (refused, w) h stopped = absurd h
    served datagram_size now turns (waiting, w) h stopped = absurd h

  ending-HasReturned :
      (r : Result (Unit {0})) (x : Option (Result (Unit {0})) × W)
      → HasReturned r x
      → HasReturned r (ending out x)
  unfolding ending
  ending-HasReturned r (none, w) h = absurd h
  ending-HasReturned r (some r', w) h = h

  set_up :
      (send_one : List ℕ → W → Result (Unit {0}) × W) (cfg : Config) (poll_ms datagram_size : ℕ)
      (attempts : List Bool) (now : ℕ) (turns : List Turn) (x : Result (Unit {0}) × W)
      → IsRequested attempts
      → IsStopped turns
      → HasReturned x.0 (proceed out send_one cfg poll_ms datagram_size attempts now turns x)
  unfolding proceed
  set_up send_one cfg poll_ms datagram_size attempts now turns (err e, w) asked stopped = refl
  set_up send_one cfg poll_ms datagram_size attempts now turns (ok u, w) asked stopped =
      served send_one cfg poll_ms datagram_size now turns (connect out attempts w)
        (connect-HasConnected attempts w asked) stopped

  -- If shutdown is requested in one of the rounds, and while the program waits for the game at the
  -- start or in a round before, `run` of the source returns, with the result of the set-up of its
  -- socket.
  pub run-HasReturned :
      (bind target : List ℕ) (unicast busy_wait : Bool) (pin_core : Option ℕ) (high_priority : Bool)
      (reconnect_timeout_secs datagram_size : ℕ) (no_delta : Bool) (keyframe_interval : ℕ)
      (has_stats : Bool) (attempts : List Bool) (now : ℕ) (turns : List Turn) (w : W)
      → IsRequested attempts
      → IsStopped turns
      → let prepared = pin out.os pin_core (
          raise_priority out.os high_priority
            (boost_thread_priority out.os (acquire_timer out.os w))) in
        HasReturned (source_setup out.net out.parse bind target unicast prepared).0 (
          run out bind target unicast busy_wait pin_core high_priority reconnect_timeout_secs
            datagram_size no_delta keyframe_interval has_stats attempts now turns w)
  unfolding run
  run-HasReturned bind target unicast busy_wait pin_core high_priority reconnect_timeout_secs
        datagram_size no_delta keyframe_interval has_stats attempts now turns w asked stopped =
      let cfg : Config = record {
        no_delta = no_delta;
        keyframe_interval = keyframe_interval;
        reconnect_timeout = reconnect_timeout_secs * 1000000;
        has_stats = has_stats;
      } in
      let prepared = pin out.os pin_core (
        raise_priority out.os high_priority
          (boost_thread_priority out.os (acquire_timer out.os w))) in
      let poll_ms : ℕ = if busy_wait then 0 else poll_interval_ms in
      let x = source_setup out.net out.parse bind target unicast prepared in
      let send_one = send_fn out unicast (out.parse target) in
      ending-HasReturned x.0 (proceed out send_one cfg poll_ms datagram_size attempts now turns x)
        (set_up send_one cfg poll_ms datagram_size attempts now turns x asked stopped)
