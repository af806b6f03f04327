-- ===== src/Link/Together.antt =====
-- The .ibt writer and the memory of the target: a file is open only while the memory is.
use iracing_teleport.Base.{
  ℕ, ◌≡◌, refl, ap, ◌∙◌, List, [], ◌∷◌, ◌++◌, Bool, true, false, Option, none, some, arith, length,
  leb, replicate, ◌-◌, if◌then◌else◌,
}
use iracing_teleport.Control.{Control, running, stopped, failed}
use iracing_teleport.Protocol.Sender.{would_block, timed_out, other, invalid_data}
use iracing_teleport.Target.{
  Effect, create, write, first_data, spawn_stub, stop_stub, signal_data_ready, stats_callback,
  map_update, finish_ibt, stale, send_to, Config, Env, Target, when,
}
use iracing_teleport.Target.Loop.{Input, shutdown, datagram, recv_error, recv, idle, step}
use iracing_teleport.Link.Recorder.{record_effect, record_effects, run}
use iracing_teleport.Ibt.Writer.{Disk, OpenIbt, IbtWriter, finish}
use iracing_teleport.Link.Unseen.{AreSilent, is_open, KeepsClosed, recv-KeepsClosed}

module _ {W : Type 0} (disk : Disk W) (f64_gt : ℕ → ℕ → Bool) where
  record_effects-silent :
      (now : ℕ) (effects : List Effect) (writer : IbtWriter) (w : W)
      → AreSilent effects
      → record_effects disk f64_gt now effects writer w ≡ (writer, w)
  unfolding record_effects record_effect
  record_effects-silent now [] writer w s = refl
  record_effects-silent now (create ∷ es) writer w s = record_effects-silent now es writer w s.1
  record_effects-silent now (write at src ∷ es) writer w s =
      record_effects-silent now es writer w s.1
  record_effects-silent now (first_data ∷ es) writer w s = record_effects-silent now es writer w s.1
  record_effects-silent now (spawn_stub ∷ es) writer w s = record_effects-silent now es writer w s.1
  record_effects-silent now (stop_stub ∷ es) writer w s = record_effects-silent now es writer w s.1
  record_effects-silent now (signal_data_ready ∷ es) writer w s =
      record_effects-silent now es writer w s.1
  record_effects-silent now (stats_callback a b c ∷ es) writer w s =
      record_effects-silent now es writer w s.1
  record_effects-silent now (map_update m ∷ es) writer w s = absurd s.0
  record_effects-silent now (finish_ibt ∷ es) writer w s = absurd s.0
  record_effects-silent now (stale ∷ es) writer w s = record_effects-silent now es writer w s.1
  record_effects-silent now (send_to a b ∷ es) writer w s =
      record_effects-silent now es writer w s.1

  finish-closed :
      (current : Option OpenIbt) (w : W)
      → (finish disk (record { current = current }) w).0.current ≡ none
  unfolding finish
  finish-closed none w = refl
  finish-closed (some o) w = refl

  record_effects-finish :
      (now : ℕ) (effects : List Effect) (writer : IbtWriter) (w : W)
      → AreSilent effects
      → (record_effects disk f64_gt now (finish_ibt ∷ effects) writer w).0.current ≡ none
  unfolding record_effects record_effect
  record_effects-finish now effects writer w s =
      let (writer', w') = finish disk writer w in
      ap (λ x. x.0.current) (record_effects-silent now effects writer' w' s)
      ∙ finish-closed writer.current w

-- The stale target, and its effects.
abbrev stale_target : Target → Target
stale_target t = record t {
  telemetry = none;
  has_full_frame = false;
  first_data_called = false;
  prev_varbuf = replicate (length t.prev_varbuf) 0;
  fanalab_stub = false;
}

abbrev stale_effects : Config → Target → List ℕ → List Effect
stale_effects cfg t m =
    when cfg.write_ibt (finish_ibt ∷ [])
    ++ (write 0 (replicate (length m) 0) ∷ [])
    ++ when cfg.has_stale (stale ∷ [])
    ++ when t.fanalab_stub (stop_stub ∷ [])

silent_end :
    (zeros : List ℕ) (a b : Bool)
    → AreSilent ((write 0 zeros ∷ []) ++ when a (stale ∷ []) ++ when b (stop_stub ∷ []))
unfolding when
silent_end zeros a b = ground arith

silent_stub : (b : Bool) → AreSilent (when b (stop_stub ∷ []))
unfolding when
silent_stub b = ground arith

-- With the memory closed, no .ibt file is open.
abbrev pub IsTogether : Target → IbtWriter → Type 0
IsTogether t writer = is_open t.telemetry ≡ false → writer.current ≡ none

module _ {W : Type 0} (disk : Disk W) (f64_gt : ℕ → ℕ → Bool) where
  KeepsClosed-IsTogether :
      (now : ℕ) (t t' : Target) (effects : List Effect) (writer : IbtWriter) (w : W)
      → KeepsClosed t t' effects
      → IsTogether t writer
      → IsTogether t' (record_effects disk f64_gt now effects writer w).0
  KeepsClosed-IsTogether now t t' effects writer w k h = λ closed.
      ap (λ x. x.0.current)
        (record_effects-silent disk f64_gt now effects writer w (k.silent closed))
      ∙ h (k.before closed)

  idle-IsTogether :
      (now : ℕ) (cfg : Config) (env : Env) (t : Target) (writer : IbtWriter) (w : W)
      → cfg.write_ibt ≡ true
      → IsTogether t writer
      → let (t', effects) = idle cfg env t in
        IsTogether t' (record_effects disk f64_gt now effects writer w).0
  unfolding idle record_effects when
  idle-IsTogether now cfg env t writer w ibt h =
      elim t.telemetry
        as (λ o.
          let (t', effects) = elim o as (λ _. Target × List Effect) [
            | none ↦ (t, [])
            | some m ↦
                if leb cfg.stale_timeout (env.now - t.last_update)
                then (stale_target t, stale_effects cfg t m)
                else (t, [])
          ] in
          IsTogether t' (record_effects disk f64_gt now effects writer w).0) [
            | none ↦ h
            | some m ↦
                elim (leb cfg.stale_timeout (env.now - t.last_update))
                  as (λ b.
                    let x : Target × List Effect =
                      if b then (stale_target t, stale_effects cfg t m) else (t, []) in
                    IsTogether x.0 (record_effects disk f64_gt now x.1 writer w).0) [
                      | true ↦ λ closed. rw ibt (
                          record_effects-finish disk f64_gt now
                            ((write 0 (replicate (length m) 0) ∷ [])
                              ++ when cfg.has_stale (stale ∷ [])
                              ++ when t.fanalab_stub (stop_stub ∷ []))
                            writer w
                            (silent_end (replicate (length m) 0) cfg.has_stale t.fanalab_stub))
                      | false ↦ h
                    ]
          ]

  -- Each round of the target's loop that writes .ibt files, whatever it receives and on any disk,
  -- leaves a file open only if it leaves the memory open.
  pub step-IsTogether :
      (decompress_into : List ℕ → Option (List ℕ)) (now : ℕ) (cfg : Config) (env : Env) (t : Target)
      (input : Input) (writer : IbtWriter) (w : W)
      → cfg.write_ibt ≡ true
      → IsTogether t writer
      → let (c, t', effects) = step decompress_into cfg env t input in
        IsTogether t' (record_effects disk f64_gt now effects writer w).0
  unfolding step when record_effects
  step-IsTogether decompress_into now cfg env t shutdown writer w ibt h = λ closed. rw ibt (
      record_effects-finish disk f64_gt now (when t.fanalab_stub (stop_stub ∷ [])) writer w
        (silent_stub t.fanalab_stub))
  step-IsTogether decompress_into now cfg env t (datagram bytes src) writer w ibt h =
      let (c, t', effects) = recv decompress_into cfg env t bytes src in
      KeepsClosed-IsTogether now t t' effects writer w
        (recv-KeepsClosed decompress_into cfg env t bytes src) h
  step-IsTogether decompress_into now cfg env t (recv_error would_block) writer w ibt h =
      idle-IsTogether now cfg env t writer w ibt h
  step-IsTogether decompress_into now cfg env t (recv_error timed_out) writer w ibt h =
      idle-IsTogether now cfg env t writer w ibt h
  step-IsTogether decompress_into now cfg env t (recv_error invalid_data) writer w ibt h =
      KeepsClosed-IsTogether now t t [] writer w (record { before = λ e. e; silent = λ e. tt }) h
  step-IsTogether decompress_into now cfg env t (recv_error other) writer w ibt h =
      KeepsClosed-IsTogether now t t [] writer w (record { before = λ e. e; silent = λ e. tt }) h

-- How the writer is left: together with the memory while the loop runs, else without a file.
abbrev pub IsLeft : Control → Target → IbtWriter → Type 0
IsLeft running t writer = IsTogether t writer
IsLeft stopped t writer = writer.current ≡ none
IsLeft (failed e) t writer = writer.current ≡ none

-- However many rounds the target's loop runs with an .ibt writer, whatever it receives and on any
-- disk: while it runs a file is open only if the memory is, and when it ends, also by an error, no
-- file is open.
pub run-IsLeft :
    (decompress_into : List ℕ → Option (List ℕ)) {W : Type 0} (disk : Disk W)
    (f64_gt : ℕ → ℕ → Bool) (cfg : Config) (rounds : List (ℕ × Env × Input)) (t : Target)
    (writer : IbtWriter) (w : W)
    → cfg.write_ibt ≡ true
    → IsTogether t writer
    → let (control, t', writer', w') = run decompress_into disk f64_gt cfg rounds t writer w in
      IsLeft control t' writer'
unfolding run
run-IsLeft decompress_into disk f64_gt cfg [] t writer w ibt h = h
run-IsLeft decompress_into {W} disk f64_gt cfg ((now, env, input) ∷ rounds) t writer w ibt h =
    let (control, t', effects) = step decompress_into cfg env t input in
    let (writer', w') = record_effects disk f64_gt now effects writer w in
    let h' = step-IsTogether disk f64_gt decompress_into now cfg env t input writer w ibt h in
    let rest = run decompress_into disk f64_gt cfg rounds t' writer' w' in
    let dropped = finish disk writer' w' in
    elim control
      as (λ c.
        let x : Control × Target × IbtWriter × W = elim c [
          | running ↦ rest
          | stopped ↦ (stopped, t', dropped.0, dropped.1)
          | failed e ↦ (failed e, t', dropped.0, dropped.1)
        ] in
        IsLeft x.0 x.1 x.2) [
          | running ↦ run-IsLeft decompress_into disk f64_gt cfg rounds t' writer' w' ibt h'
          | stopped ↦ finish-closed disk f64_gt writer'.current w'
          | failed e ↦ finish-closed disk f64_gt writer'.current w'
        ]
