-- ===== src/Link/Session.antt =====
-- The partial frames that follow a session-info frame, until the next one.
use iracing_teleport.Base.{
  ℕ, ◌+◌, ◌≤◌, ◌≡◌, refl, sym, ap, ap₂, subst, ◌∙◌, ◌⊎◌, inl, inr, List, [], ◌∷◌, ◌++◌, true, false,
  none, some, arith, length, take, drop, overwrite, length-overwrite, IsBytes,
}
use iracing_teleport.Telemetry.{irsdk_header_size, max_telemetry_size}
use iracing_teleport.Source
use iracing_teleport.Source.{Source, encode, uses_delta}
use iracing_teleport.Target
use iracing_teleport.Target.{Target, Env, Effect, partial_writes, apply_effects, apply_effect}
use iracing_teleport.Link.Frame.{take-overwrite, prev_varbuf-encode, IsReady, IsWritten}
use iracing_teleport.Link.Frames.{Codec, receive, receive-encode}

-- Between two session-info frames all partial frames have one length `n`. Both sides hold the same
-- last frame, unless the next frame is the first.
pub record IsSynced (n : ℕ) (s : Source) (t : Target) : Type 0 where
  pub source_prev : n ≤ length s.prev_varbuf
  pub source_delta : n ≤ length s.delta_buf
  pub target_prev : n ≤ length t.prev_varbuf
  pub target_rebuilt : n ≤ length t.reconstruct_buf
  pub prev_bytes : IsBytes (take n s.prev_varbuf)
  pub agree : (take n s.prev_varbuf ≡ take n t.prev_varbuf) ⊎ (s.tick_counter ≡ 0)
  pub full : t.has_full_frame ≡ true

-- A frame of the session: where its variables stand in the memory, and its bytes.
pub record IsFrame (n size off : ℕ) (staged : List ℕ) : Type 0 where
  pub frame_length : length staged ≡ n
  pub frame_bytes : IsBytes staged
  pub room : off + n ≤ size + irsdk_header_size

-- The first frame after a session-info frame is no delta.
pub uses_delta_first :
    (cfg : Source.Config) (s : Source) → s.tick_counter ≡ 0 → uses_delta cfg s ≡ false
unfolding uses_delta
uses_delta_first cfg s e = ground arith

pub delta_buf-encode :
    (cfg : Source.Config) (off : ℕ) (staged : List ℕ) (s : Source)
    → length (encode cfg off staged s).1.delta_buf ≡ length s.delta_buf
unfolding encode
delta_buf-encode cfg off staged s = ground (
  arith,
  length-overwrite s.delta_buf 0 (
      iracing_teleport.Protocol.Delta.xor_delta staged (take (length staged) s.prev_varbuf)
        (take (length staged) s.delta_buf)),
)

-- Both sides after a frame that they wrote over the last one.
IsSynced-next :
    (n off : ℕ) (staged : List ℕ) (s s' : Source) (t t' : Target) (size : ℕ)
    → IsSynced n s t
    → IsFrame n size off staged
    → s'.prev_varbuf ≡ overwrite s.prev_varbuf 0 staged
    → length s'.delta_buf ≡ length s.delta_buf
    → t'.prev_varbuf ≡ overwrite t.prev_varbuf 0 staged
    → length t'.reconstruct_buf ≡ length t.reconstruct_buf
    → t'.has_full_frame ≡ t.has_full_frame
    → IsSynced n s' t'
IsSynced-next n off staged s s' t t' size synced f es ed et er ef =
    let held : (b b' : List ℕ) → n ≤ length b → b' ≡ overwrite b 0 staged → take n b' ≡ staged =
      λ b b' h e. ap (λ l. take n l) e ∙ take-overwrite n b staged f.frame_length h in
    let hs = held s.prev_varbuf s'.prev_varbuf synced.source_prev es in
    let ht = held t.prev_varbuf t'.prev_varbuf synced.target_prev et in
    record {
      source_prev =
          omega (arith, ap length es, length-overwrite s.prev_varbuf 0 staged, synced.source_prev);
      source_delta = omega (arith, ed, synced.source_delta);
      target_prev =
          omega (arith, ap length et, length-overwrite t.prev_varbuf 0 staged, synced.target_prev);
      target_rebuilt = omega (arith, er, synced.target_rebuilt);
      prev_bytes = subst IsBytes (sym hs) f.frame_bytes;
      agree = inl (hs ∙ sym ht);
      full = ef ∙ synced.full;
    }

-- Buffers for frames of the session are large enough for one of them.
pub IsSynced-IsReady :
    (n size off : ℕ) (staged : List ℕ) (s : Source) (t : Target)
    → IsSynced n s t
    → IsFrame n size off staged
    → IsReady staged s t
IsSynced-IsReady n size off staged s t synced f =
    let e = f.frame_length in
    record {
      source_prev = omega (arith, e, synced.source_prev);
      source_delta = omega (arith, e, synced.source_delta);
      target_prev = omega (arith, e, synced.target_prev);
      target_rebuilt = omega (arith, e, synced.target_rebuilt);
      staged_bytes = f.frame_bytes;
      prev_bytes = subst (λ k. IsBytes (take k s.prev_varbuf)) (sym e) synced.prev_bytes;
    }

module _ (codec : Codec) (cfg : Source.Config) (target_cfg : Target.Config) (env : Env) (n : ℕ)
    (n_min : irsdk_header_size ≤ n) (n_max : n ≤ max_telemetry_size) where
  -- One frame: the target writes it, and both sides hold it as the last frame.
  pub receive-IsSynced :
      (off : ℕ) (staged : List ℕ) (s : Source) (t : Target) (m : List ℕ)
      → IsSynced n s t
      → IsFrame n (length m) off staged
      → irsdk_header_size ≤ length m
      → length m ≤ max_telemetry_size
      → let (p, s') = encode cfg off staged s in
        let (handled, t', effects) = receive codec cfg target_cfg env p t m in
        IsWritten t t' m off staged effects × IsSynced n s' t'
  receive-IsSynced off staged s t m synced f hm hm' =
      let e = f.frame_length in
      let ready = IsSynced-IsReady n (length m) off staged s t synced f in
      let agree : (take (length staged) s.prev_varbuf ≡ take (length staged) t.prev_varbuf)
          ⊎ (uses_delta cfg s ≡ false) =
        elim synced.agree [
          | inl same ↦ inl (subst (λ k. take k s.prev_varbuf ≡ take k t.prev_varbuf) (sym e) same)
          | inr first ↦ inr (uses_delta_first cfg s first)
        ] in
      let (_, w) =
        receive-encode codec cfg target_cfg env off staged s t m ready agree
          (omega (arith, f.room, n_min)) synced.full (omega (arith, e)) (omega (arith, e))
          (omega (arith, e, f.room)) hm in
      let (p, s') = encode cfg off staged s in
      let (handled, t', effects) = receive codec cfg target_cfg env p t m in
      (
        w,
        IsSynced-next n off staged s s' t t' (length m) synced f
            (prev_varbuf-encode cfg off staged s) (delta_buf-encode cfg off staged s) w.prev_written
            w.rebuilt_size w.full_kept,
      )

pub length-partial_writes :
    (m : List ℕ) (off : ℕ) (staged : List ℕ)
    → length (apply_effects m (partial_writes off staged)) ≡ length m
unfolding apply_effects partial_writes apply_effect
length-partial_writes m off staged =
    length-overwrite (overwrite m off (drop irsdk_header_size staged)) 0
      (take irsdk_header_size staged)
    ∙ length-overwrite m off (drop irsdk_header_size staged)

-- The shared memory of the target.
abbrev pub memory : Target → List ℕ
memory t = elim t.telemetry [ some m ↦ m | none ↦ [] ]

-- The copies that a run of frames makes into the memory.
abbrev pub all_writes : List (ℕ × List ℕ) → List Effect
all_writes [] = []
all_writes ((off, staged) ∷ frames) = partial_writes off staged ++ all_writes frames

-- All frames of a run have the length `n`, and fit into a memory of `size` bytes.
abbrev pub AllFrames : ℕ → ℕ → List (ℕ × List ℕ) → Type 0
AllFrames n size [] = Unit
AllFrames n size ((off, staged) ∷ frames) = IsFrame n size off staged × AllFrames n size frames

module _ (codec : Codec) (cfg : Source.Config) (target_cfg : Target.Config) (env : Env) where
  -- The source encodes frame after frame, and the target handles each before the next.
  unfoldable pub relay : List (ℕ × List ℕ) → Source → Target → Source × Target × List Effect
  relay [] s t = (s, t, [])
  relay ((off, staged) ∷ frames) s t =
      let (p, s') = encode cfg off staged s in
      let (handled, t', effects) = receive codec cfg target_cfg env p t (memory t) in
      let (s'', t'', later) = relay frames s' t' in (s'', t'', effects ++ later)

  pub relay-all_writes :
      (n size : ℕ) (frames : List (ℕ × List ℕ)) (s : Source) (t : Target) (m : List ℕ)
      → irsdk_header_size ≤ n
      → n ≤ max_telemetry_size
      → irsdk_header_size ≤ size
      → size ≤ max_telemetry_size
      → AllFrames n size frames
      → IsSynced n s t
      → t.telemetry ≡ some m
      → length m ≡ size
      → let (s', t', effects) = relay frames s t in
        (effects ≡ all_writes frames)
        × (t'.telemetry ≡ some (apply_effects m (all_writes frames)))
        × IsSynced n s' t'
  unfolding relay apply_effects partial_writes apply_effect
  relay-all_writes n size [] s t m hn hn' hs hs' all synced held hm = (refl, held, synced)
  relay-all_writes n size ((off, staged) ∷ frames) s t m hn hn' hs hs' (f, all) synced held hm =
      let e : memory t ≡ m = ap (λ o. elim o [ some m ↦ m | none ↦ [] ]) held in
      let f' : IsFrame n (length (memory t)) off staged =
        subst (λ k. IsFrame n k off staged) (sym (ap length e ∙ hm)) f in
      let (p, s') = encode cfg off staged s in
      let (handled, t', effects) = receive codec cfg target_cfg env p t (memory t) in
      let (w, synced') =
        receive-IsSynced codec cfg target_cfg env n hn hn' off staged s t (memory t) synced f'
          (omega (arith, ap length e)) (omega (arith, ap length e)) in
      let m' = apply_effects (memory t) (partial_writes off staged) in
      let hm' : length m' ≡ size = length-partial_writes (memory t) off staged ∙ ap length e ∙ hm in
      let (later, final, synced'') =
        relay-all_writes n size frames s' t' m' hn hn' hs hs' all synced' w.map_written hm' in
      (
        ap₂ ◌++◌ w.writes later,
        final ∙ ap (λ x. some (apply_effects x (all_writes ((off, staged) ∷ frames)))) e,
        synced'',
      )
