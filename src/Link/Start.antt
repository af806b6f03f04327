-- ===== src/Link/Start.antt =====
-- A session: the session-info frame and the partial frames that follow.
use iracing_teleport.Base.{
  ℕ, ◌≤◌, ◌≡◌, refl, sym, ap, ap₂, subst, ◌∙◌, inr, List, [], ◌∷◌, ◌++◌, true, false, not, ◌&&◌,
  some, arith, length, take, overwrite, length-overwrite, length-take, length-replicate, replicate,
  IsBytes, append_assoc, ltb-eq-false,
}
use iracing_teleport.Protocol.Header.{u32_max}
use iracing_teleport.Telemetry.{irsdk_header_size, max_telemetry_size}
use iracing_teleport.Source
use iracing_teleport.Source.{Source, frame, prefix_payload, session_info_end, minus_one}
use iracing_teleport.Source.Prefix.{session_info_end_bounds}
use iracing_teleport.Target
use iracing_teleport.Target.{
  Target, Env, Effect, write, first_data, spawn_stub, write_frame, session_info, prefix_writes,
  when, apply_effects, apply_effect,
}
use iracing_teleport.Protocol.Delta.ZipXor.{take-IsBytes}
use iracing_teleport.Link.Frames.{Codec, receive, deliver}
use iracing_teleport.Link.Session.{IsSynced, AllFrames, memory, all_writes, relay, relay-all_writes}

-- The bytes of the session-info frame: the static prefix of the copied memory, its status zeroed.
abbrev pub prefix : List ℕ → List ℕ
prefix copied = take (session_info_end copied) (overwrite copied 4 (replicate 4 0))

pub length-prefix :
    (copied : List ℕ)
    → irsdk_header_size ≤ length copied
    → (irsdk_header_size ≤ length (prefix copied)) × (length (prefix copied) ≤ length copied)
length-prefix copied h =
    let e = length-take (session_info_end copied) (overwrite copied 4 (replicate 4 0)) in
    let e' = length-overwrite copied 4 (replicate 4 0) in
    let (lo, hi) = session_info_end_bounds copied h in
    (omega (arith, e, e', lo, hi), omega (arith, e, e', lo, hi))

pub apply_effects-append :
    (m : List ℕ) (es es' : List Effect)
    → apply_effects m (es ++ es') ≡ apply_effects (apply_effects m es) es'
unfolding apply_effects
apply_effects-append m [] es' = refl
apply_effects-append m (e ∷ es) es' = apply_effects-append (apply_effect m e) es es'

length-apply_effect : (m : List ℕ) (e : Effect) → length (apply_effect m e) ≡ length m
unfolding apply_effect
length-apply_effect m e = elim e as (λ k. length (apply_effect m k) ≡ length m) [
  | write at src ↦ length-overwrite m at src
  | _ ↦ refl
]

pub length-apply_effects : (m : List ℕ) (es : List Effect) → length (apply_effects m es) ≡ length m
unfolding apply_effects
length-apply_effects m [] = refl
length-apply_effects m (e ∷ es) =
    length-apply_effects (apply_effect m e) es ∙ length-apply_effect m e

-- What the source needs to hold before a session: buffers of the size of the memory, of bytes.
pub record IsBuffered (s : Source) (t : Target) : Type 0 where
  pub source_prev : length s.prev_varbuf ≡ max_telemetry_size
  pub source_delta : length s.delta_buf ≡ max_telemetry_size
  pub target_prev : length t.prev_varbuf ≡ max_telemetry_size
  pub target_rebuilt : length t.reconstruct_buf ≡ max_telemetry_size
  pub prev_bytes : IsBytes s.prev_varbuf

-- The session-info frame's effects past the copies: the callback and the FanaLab process.
abbrev pub notices : Target.Config → Target → List Effect
notices cfg t =
    when (not t.first_data_called && cfg.has_first_data) (first_data ∷ [])
    ++ when (cfg.fanalab && not t.fanalab_stub) (spawn_stub ∷ [])

-- What the target did with a session-info frame.
pub record IsStarted (cfg : Target.Config) (t t' : Target) (m bytes : List ℕ)
    (effects : List Effect) : Type 0 where
  pub copies : effects ≡ prefix_writes m bytes ++ notices cfg t
  pub map_written : t'.telemetry ≡ some (apply_effects m (prefix_writes m bytes))
  pub prev_size : length t'.prev_varbuf ≡ length t.prev_varbuf
  pub rebuilt_size : length t'.reconstruct_buf ≡ length t.reconstruct_buf
  pub full : t'.has_full_frame ≡ true

session_info-notices :
    (cfg : Target.Config) (env : Env) (t : Target) (m bytes : List ℕ)
    → 8 ≤ length bytes
    → (session_info cfg env t m (some bytes)).2 ≡ prefix_writes m bytes ++ notices cfg t
unfolding session_info
session_info-notices cfg env t m bytes h = rw (ltb-eq-false (length bytes) 8 h) (
    append_assoc (prefix_writes m bytes)
      (when (not t.first_data_called && cfg.has_first_data) (first_data ∷ []))
      (when (cfg.fanalab && not t.fanalab_stub) (spawn_stub ∷ [])))

session_info-IsStarted :
    (cfg : Target.Config) (env : Env) (t : Target) (m bytes : List ℕ)
    → 8 ≤ length bytes
    → let (handled, t', effects) = session_info cfg env t m (some bytes) in
      IsStarted cfg t t' m bytes effects
unfolding session_info
session_info-IsStarted cfg env t m bytes h = record {
  copies = session_info-notices cfg env t m bytes h;
  map_written = ground arith;
  prev_size = ground (arith, length-replicate {A = ℕ} (length t.prev_varbuf) 0);
  rebuilt_size = ground arith;
  full = ground arith;
}

module _ (codec : Codec) (cfg : Source.Config) (target_cfg : Target.Config) (env : Env) where
  pub receive-IsStarted :
      (copied : List ℕ) (t : Target) (m : List ℕ)
      → irsdk_header_size ≤ length copied
      → length copied ≤ max_telemetry_size
      → let (handled, t', effects) =
          receive codec cfg target_cfg env (frame (prefix copied) false u32_max) t m in
        IsStarted target_cfg t t' m (prefix copied) effects
  unfolding receive deliver write_frame
  receive-IsStarted copied t m h h' =
      let (lo, hi) = length-prefix copied h in
      let small : length (prefix copied) ≤ max_telemetry_size = omega (arith, hi) in
      let e : receive codec cfg target_cfg env (frame (prefix copied) false u32_max) t m
          ≡ session_info target_cfg env t m (some (prefix copied)) =
        ap (λ x. deliver codec cfg target_cfg env x u32_max t m) (codec.fits (prefix copied) small)
        ∙ ap (λ x. session_info target_cfg env t m x) (codec.restores (prefix copied) small) in
      subst (λ x. IsStarted target_cfg t x.1 m (prefix copied) x.2) (sym e)
        (session_info-IsStarted target_cfg env t m (prefix copied) (omega (arith, lo)))

  -- The source starts a session and sends frame after frame; the target writes the prefix, and then
  -- each frame.
  unfoldable pub session :
      List ℕ → List (ℕ × List ℕ) → Source → Target → Source × Target × List Effect
  session copied frames s t =
      let (p, s') = prefix_payload copied s in
      let (handled, t', effects) = receive codec cfg target_cfg env p t (memory t) in
      let (s'', t'', later) = relay codec cfg target_cfg env frames s' t' in
      (s'', t'', effects ++ later)

  -- If source and target start with buffers of the size of the memory, the source's holding bytes,
  -- if the memory of the game and the target's have between 112 and max_telemetry_size bytes, and
  -- all frames of the session are of one length in that range, consist of bytes and fit into the
  -- target's memory, then the target copies the prefix and after it each frame as the source staged
  -- it, whichever of them were sent as deltas, and its memory is what these copies make of it.
  pub session-all_writes :
      (copied : List ℕ) (n : ℕ) (frames : List (ℕ × List ℕ)) (s : Source) (t : Target)
      → irsdk_header_size ≤ length copied
      → length copied ≤ max_telemetry_size
      → irsdk_header_size ≤ n
      → n ≤ max_telemetry_size
      → irsdk_header_size ≤ length (memory t)
      → length (memory t) ≤ max_telemetry_size
      → AllFrames n (length (memory t)) frames
      → IsBuffered s t
      → let (s', t', effects) = session copied frames s t in
        (effects
          ≡ prefix_writes (memory t) (prefix copied) ++ notices target_cfg t ++ all_writes frames)
        × (t'.telemetry
            ≡ some (
                apply_effects
                  (memory t)
                  (prefix_writes (memory t) (prefix copied) ++ all_writes frames)))
  unfolding session prefix_payload
  session-all_writes copied n frames s t h h' hn hn' hm hm' all b =
      let m = memory t in
      let started = receive-IsStarted copied t m h h' in
      let (p, s') = prefix_payload copied s in
      let (handled, t', effects) = receive codec cfg target_cfg env p t m in
      let m' = apply_effects m (prefix_writes m (prefix copied)) in
      let hs : length m' ≡ length m = length-apply_effects m (prefix_writes m (prefix copied)) in
      let synced : IsSynced n s' t' = record {
        source_prev = omega (arith, b.source_prev);
        source_delta = omega (arith, b.source_delta);
        target_prev = omega (arith, b.target_prev, started.prev_size);
        target_rebuilt = omega (arith, b.target_rebuilt, started.rebuilt_size);
        prev_bytes = take-IsBytes n s.prev_varbuf b.prev_bytes;
        agree = inr refl;
        full = started.full;
      } in
      let (e, e', _) =
        relay-all_writes codec cfg target_cfg env n (length m) frames s' t' m' hn hn' hm hm' all
          synced started.map_written hs in
      (
        ap₂ ◌++◌ started.copies e,
        e'
            ∙ ap some (
                sym (apply_effects-append m (prefix_writes m (prefix copied)) (all_writes frames))),
      )
