-- ===== src/Source/Run/Refines.antt =====
-- The rounds of `run` of teleport/src/source.rs over the system do what the rounds of its loop do that
-- only know how the calls of the system ended.
use iracing_teleport.Base.{
  ℕ, ◌-◌, ◌≡◌, refl, ◌∙◌, List, [], ◌∷◌, Bool, true, false, Option, none, some, leb, ◌⊎◌, inl, inr,
  if◌then◌else◌, ap,
}
use iracing_teleport.Control.{Control, running, stopped, failed}
use iracing_teleport.Protocol.Sender
use iracing_teleport.Protocol.Sender.{Result, ok, err}
use iracing_teleport.Telemetry.Windows.{
  WindowsTelemetry, TelemetryError, unavailable, other, open_telemetry, drop_telemetry,
  wait_for_data, zero_on_exit,
}
use iracing_teleport.Stats
use iracing_teleport.Source.{Source, Config}
use iracing_teleport.Source.Loop
use iracing_teleport.Source.Loop.{
  Opening, OpenResult, try_open, wait_for_game, keep_alive, disconnect, idle,
}
use iracing_teleport.Source.Round.{Event, shutdown, no_data, new_data, send_data, step}
use iracing_teleport.Source.Run.{
  Outside, Turn, Connection, found, stopping, refused, waiting, Outcome, goes_on, returned, waits,
  connect, reopened, reconnect, quiet, round,
}

-- How an attempt to open the memory ended.
abbrev opening_of : TelemetryError ⊎ WindowsTelemetry → Opening
opening_of (inr t) = Loop.opened
opening_of (inl (other message)) = Loop.refused
opening_of (inl unavailable) = Loop.unavailable

-- What a round of the loop leaves: the variables, or the result that `run` returns with.
abbrev pub Left : Type 0
Left = Option (Source ⊎ Result (Unit {0}))

abbrev left_by : Control → Source → Left
left_by running s = some (inl s)
left_by stopped s = some (inr (ok tt))
left_by (failed e) s = some (inr (err e))

abbrev pub step_left : {W : Type 0} → Option (Control × Source × Option (ℕ × ℕ × ℕ) × W) → Left
step_left none = none
step_left (some (control, s, snapshot, w)) = left_by control s

abbrev pub round_left : Outcome → Left
round_left (goes_on t s) = some (inl s)
round_left (returned r) = some (inr r)
round_left waits = none

abbrev connection_result : Connection → Option (Result OpenResult)
connection_result (found t) = some (ok Loop.connected)
connection_result stopping = some (ok Loop.shutdown)
connection_result refused = some (err Sender.other)
connection_result waiting = none

module _ {W : Type 0} (out : Outside W) where
  -- How the attempts ended that start with these states of the outside.
  abbrev pub openings : List Bool → W → List (Opening × Bool)
  openings [] w = []
  openings (requested ∷ later) w =
      let (opened, w') = open_telemetry out.win w in
      (opening_of opened, requested) ∷ openings later w'

  attempt_result :
      (requested : Bool) (opened : TelemetryError ⊎ WindowsTelemetry) (w : W)
      (again : Connection × W) (later : Option (Result OpenResult))
      → connection_result again.0 ≡ later
      → connection_result
          (elim opened as (λ _. Connection × W) [
            | inr t ↦ (found t, w)
            | inl (other message) ↦ (refused, w)
            | inl unavailable ↦ if requested then (stopping, w) else again
          ]).0
        ≡ (elim (try_open (opening_of opened) requested) as (λ _. Option (Result OpenResult)) [
          | ok Loop.connected ↦ some (ok Loop.connected)
          | ok Loop.shutdown ↦ some (ok Loop.shutdown)
          | ok Loop.retry ↦ later
          | err e ↦ some (err e)
        ])
  unfolding try_open
  attempt_result requested (inr t) w again later e = refl
  attempt_result requested (inl (other message)) w again later e = refl
  attempt_result true (inl unavailable) w again later e = refl
  attempt_result false (inl unavailable) w again later e = e

  connect-wait_for_game :
      (attempts : List Bool) (w : W)
      → connection_result (connect out attempts w).0 ≡ wait_for_game (openings attempts w)
  unfolding connect wait_for_game
  connect-wait_for_game [] w = refl
  connect-wait_for_game (requested ∷ later) w =
      let (opened, w') = open_telemetry out.win w in
      attempt_result requested opened w' (connect out later w') (wait_for_game (openings later w'))
        (connect-wait_for_game later w')

  -- The round of the loop without data that ended its attempts with `r`.
  abbrev reopened_step :
      Turn
      → Source
      → W
      → Option (Result OpenResult)
      → Option (Control × Source × Option (ℕ × ℕ × ℕ) × W)
  reopened_step turn s w r =
      let back : Source = record s { last_data = turn.later; stats = Stats.new turn.later } in
      elim (elim r as (λ _. Option (Control × Source × W)) [
        | none ↦ none
        | some (ok Loop.connected) ↦ some (running, back, w)
        | some (ok Loop.shutdown) ↦ some (stopped, s, w)
        | some (ok Loop.retry) ↦ none
        | some (err e) ↦ some (failed e, s, w)
      ]) [ none ↦ none | some (control, s', w') ↦ some (control, s', none, w') ]

  reopened-reopened_step :
      (turn : Turn) (s : Source) (w : W) (x : Connection × W)
      → round_left (reopened out turn s x).0
        ≡ step_left (reopened_step turn s w (connection_result x.0))
  unfolding reopened
  reopened-reopened_step turn s w (found t, v) = refl
  reopened-reopened_step turn s w (stopping, v) = refl
  reopened-reopened_step turn s w (refused, v) = refl
  reopened-reopened_step turn s w (waiting, v) = refl

  reconnect-reopened_step :
      (turn : Turn) (t : WindowsTelemetry) (s : Source) (w : W)
      → round_left (reconnect out turn t s w).0
        ≡ step_left (
            reopened_step turn
              (disconnect turn.env.now s)
              w
              (wait_for_game (openings turn.waits (drop_telemetry out.win t w))))
  unfolding reconnect
  reconnect-reopened_step turn t s w =
      let dropped = drop_telemetry out.win t w in
      let gone = disconnect turn.env.now s in
      reopened-reopened_step turn gone w (connect out turn.waits dropped)
      ∙ ap (λ r. step_left (reopened_step turn gone w r)) (connect-wait_for_game turn.waits dropped)

  module _ (send_one : List ℕ → W → Result (Unit {0}) × W) (cfg : Config) (poll_ms : ℕ) where
    -- What starts the round, as far as the loop knows it.
    abbrev pub event_of : Turn → WindowsTelemetry → Source → W → Event
    event_of turn t s w =
        let (ready, w1) = wait_for_data out.win t poll_ms w in
        let (_, w2) = keep_alive send_one cfg turn.env.now turn.env.cap s w1 in
        if turn.shutdown
        then shutdown
        else if ready
        then new_data turn.env
        else no_data turn.env.now turn.env.cap (openings turn.waits (drop_telemetry out.win t w2))
            turn.later

    quiet-step :
        (turn : Turn) (t : WindowsTelemetry) (s : Source) (w : W)
        → let (_, w') = keep_alive send_one cfg turn.env.now turn.env.cap s w in
          round_left (quiet out send_one cfg poll_ms turn t s w).0
          ≡ step_left (
              step out.compress_into send_one cfg s w (
                no_data turn.env.now turn.env.cap
                  (openings turn.waits (drop_telemetry out.win t w'))
                  turn.later))
    unfolding quiet step idle
    quiet-step turn t s w =
        let (s', w') = keep_alive send_one cfg turn.env.now turn.env.cap s w in
        let gone = disconnect turn.env.now s' in
        let attempts = openings turn.waits (drop_telemetry out.win t w') in
        let retries = reconnect out turn t s' w' in
        let retried = reopened_step turn gone w' (wait_for_game attempts) in
        let timed_out = leb cfg.reconnect_timeout (turn.env.now - s'.last_data) in
        let back : Source = record gone { last_data = turn.later; stats = Stats.new turn.later } in
        elim timed_out
          as (λ b.
            let x : Outcome × W = if b then retries else (goes_on t s', w') in
            let y : Option (Control × Source × W) =
              if b
              then elim (wait_for_game attempts) [
                | none ↦ none
                | some (ok Loop.connected) ↦ some (running, back, w')
                | some (ok Loop.shutdown) ↦ some (stopped, gone, w')
                | some (ok Loop.retry) ↦ none
                | some (err e) ↦ some (failed e, gone, w')
              ]
              else some (running, s', w') in
            round_left x.0
            ≡ step_left (elim y as (λ _. Option (Control × Source × Option (ℕ × ℕ × ℕ) × W)) [
              | none ↦ none
              | some (control, s', w') ↦ some (control, s', none, w')
            ])) [ true ↦ reconnect-reopened_step turn t s' w' | false ↦ refl ]

    -- A round of the loop of `run` over the system leaves the variables, or the result, that the round
    -- `step` leaves that only gets the time, what the reads show, the packet of a target and how the
    -- attempts to open the memory ended; both still wait for the game, or neither.
    pub round-step :
        (turn : Turn) (t : WindowsTelemetry) (s : Source) (w : W)
        → let (_, w1) = wait_for_data out.win t poll_ms w in
          round_left (round out send_one cfg poll_ms turn t s w).0
          ≡ step_left (step out.compress_into send_one cfg s w1 (event_of turn t s w))
    unfolding round step
    round-step turn t s w =
        let (ready, w1) = wait_for_data out.win t poll_ms w in
        let (s', _, w2) = send_data out.compress_into send_one cfg turn.env s w1 in
        let (_, w3) = keep_alive send_one cfg turn.env.now turn.env.cap s w1 in
        let stops : Outcome × W =
          (returned (ok tt), drop_telemetry out.win t (zero_on_exit out.win t.size w)) in
        let sends : Outcome × W = (goes_on t s', w2) in
        let stays = quiet out send_one cfg poll_ms turn t s w1 in
        let idles =
          no_data turn.env.now turn.env.cap (openings turn.waits (drop_telemetry out.win t w3))
            turn.later in
        elim turn.shutdown
          as (λ b.
            let x : Outcome × W = if b then stops else if ready then sends else stays in
            let e : Event = if b then shutdown else if ready then new_data turn.env else idles in
            round_left x.0 ≡ step_left (step out.compress_into send_one cfg s w1 e)) [
              | true ↦ refl
              | false ↦
                  elim ready
                    as (λ b.
                      let x : Outcome × W = if b then sends else stays in
                      let e : Event = if b then new_data turn.env else idles in
                      round_left x.0 ≡ step_left (step out.compress_into send_one cfg s w1 e)) [
                        | true ↦ refl
                        | false ↦ quiet-step turn t s w1
                      ]
            ]
