-- ===== src/Link/Visible.antt =====
-- What other programs on the target's side can see in the memory during a session.
use iracing_teleport.Base.{
  ℕ, ◌≤◌, ◌≡◌, refl, sym, subst, ◌⊎◌, inl, inr, List, [], ◌∷◌, ◌++◌, not, ◌&&◌, arith, length,
}
use iracing_teleport.Telemetry.{irsdk_header_size, max_telemetry_size}
use iracing_teleport.Source
use iracing_teleport.Source.{Source}
use iracing_teleport.Target
use iracing_teleport.Target.{
  Target, Env, Effect, partial_writes, prefix_writes, apply_effects, apply_effect, when, first_data,
  spawn_stub,
}
use iracing_teleport.Target.Status.{
  AllViews, AllViews-append, AllViews-when, AllViews-last, AllViews-map, IsStatusKept, IsShown,
  prefix_writes-IsStatusKept, partial_writes-IsShown,
}
use iracing_teleport.Link.Frames.{Codec}
use iracing_teleport.Link.Session.{AllFrames, memory, all_writes, length-partial_writes}
use iracing_teleport.Link.Start.{
  IsBuffered, prefix, length-prefix, notices, session, session-all_writes, length-apply_effects,
}

-- One of the frames has its variables in the memory, whole.
abbrev pub ShowsOne : List (ℕ × List ℕ) → List ℕ → Type 0
ShowsOne [] v = ⊥
ShowsOne ((off, staged) ∷ frames) v = IsShown v off staged ⊎ ShowsOne frames v

-- The variables of each frame stand past the header.
abbrev pub AllPastHeader : List (ℕ × List ℕ) → Type 0
AllPastHeader [] = Unit
AllPastHeader ((off, staged) ∷ frames) = (irsdk_header_size ≤ off) × AllPastHeader frames

all_writes-ShowsOne :
    (n size : ℕ) (frames : List (ℕ × List ℕ)) (m : List ℕ)
    → length m ≡ size
    → AllFrames n size frames
    → AllPastHeader frames
    → AllViews (ShowsOne frames) m (all_writes frames)
all_writes-ShowsOne n size [] m e all past = tt
all_writes-ShowsOne n size ((off, staged) ∷ frames) m e (f, all) (h, past) =
    AllViews-append (ShowsOne ((off, staged) ∷ frames)) m (partial_writes off staged)
      (all_writes frames)
      (AllViews-map (λ v. IsShown v off staged) (ShowsOne ((off, staged) ∷ frames)) (λ v s. inl s) m
        (partial_writes off staged)
        (partial_writes-IsShown m off staged h (omega (arith, f.frame_length, f.room))))
      (AllViews-map (ShowsOne frames) (ShowsOne ((off, staged) ∷ frames)) (λ v s. inr s)
        (apply_effects m (partial_writes off staged)) (all_writes frames)
        (all_writes-ShowsOne n size frames (apply_effects m (partial_writes off staged))
          (omega (arith, length-partial_writes m off staged)) all past))

-- A callback or a new process leaves the memory as it is.
notices-AllViews :
    (P : List ℕ → Type 0) (cfg : Target.Config) (t : Target) (m : List ℕ)
    → P m
    → AllViews P m (notices cfg t)
unfolding apply_effect
notices-AllViews P cfg t m h =
    let first = when (not t.first_data_called && cfg.has_first_data) (first_data ∷ []) in
    let second = when (cfg.fanalab && not t.fanalab_stub) (spawn_stub ∷ []) in
    AllViews-append P m first second
      (AllViews-when P (not t.first_data_called && cfg.has_first_data) m first_data h)
      (AllViews-when P (cfg.fanalab && not t.fanalab_stub) (apply_effects m first) spawn_stub (
        AllViews-last P m first h
          (AllViews-when P (not t.first_data_called && cfg.has_first_data) m first_data h)))

-- In a session as in `session-all_writes`, whose frames have their variables past the header: after
-- each effect the memory has the status that it had at the start, or the variables of one of the
-- frames stand in it, whole.
pub session-IsVisible :
    (codec : Codec) (cfg : Source.Config) (target_cfg : Target.Config) (env : Env) (copied : List ℕ)
    (n : ℕ) (frames : List (ℕ × List ℕ)) (s : Source) (t : Target)
    → irsdk_header_size ≤ length copied
    → length copied ≤ max_telemetry_size
    → irsdk_header_size ≤ n
    → n ≤ max_telemetry_size
    → irsdk_header_size ≤ length (memory t)
    → length (memory t) ≤ max_telemetry_size
    → AllFrames n (length (memory t)) frames
    → AllPastHeader frames
    → IsBuffered s t
    → AllViews
        (λ v. IsStatusKept (memory t) v ⊎ ShowsOne frames v)
        (memory t)
        (session codec cfg target_cfg env copied frames s t).2
session-IsVisible codec cfg target_cfg env copied n frames s t h h' hn hn' hm hm' all past b =
    let m = memory t in
    let Q : List ℕ → Type 0 = λ v. IsStatusKept m v ⊎ ShowsOne frames v in
    let copies = prefix_writes m (prefix copied) in
    let (lo, hi) = length-prefix copied h in
    let during : AllViews Q m copies =
      AllViews-map (IsStatusKept m) Q (λ v k. inl k) m copies
        (prefix_writes-IsStatusKept m (prefix copied) (omega (arith, lo))) in
    let started : AllViews Q m (copies ++ notices target_cfg t) =
      AllViews-append Q m copies (notices target_cfg t) during (
        notices-AllViews Q target_cfg t (apply_effects m copies)
          (AllViews-last Q m copies (inl (λ i _ _. refl)) during)) in
    let m' = apply_effects m (copies ++ notices target_cfg t) in
    let after : AllViews Q m' (all_writes frames) =
      AllViews-map (ShowsOne frames) Q (λ v k. inr k) m' (all_writes frames)
        (all_writes-ShowsOne n (length m) frames m'
          (length-apply_effects m (copies ++ notices target_cfg t)) all past) in
    let (e, _) =
      session-all_writes codec cfg target_cfg env copied n frames s t h h' hn hn' hm hm' all b in
    subst (λ es. AllViews Q m es) (sym e)
      (AllViews-append Q m (copies ++ notices target_cfg t) (all_writes frames) started after)
