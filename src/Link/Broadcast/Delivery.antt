-- ===== src/Link/Broadcast/Delivery.antt =====
-- A whole run of the source over datagrams: what the loop of teleport/src/source.rs sends from its
-- first session-info frame on, as the loop of teleport/src/target.rs writes it.
use iracing_teleport.Base.{
  ℕ, ◌≤◌, ◌≡◌, refl, sym, ap, ap₂, subst, ◌∙◌, List, [], ◌∷◌, ◌++◌, map, none, some, arith, length,
  ◌==◌, min, ltb, slice, take, if◌then◌else◌,
}
use iracing_teleport.Control.{Control, running}
use iracing_teleport.Protocol.Header.{u32_max}
use iracing_teleport.Protocol.Reassembly.RoundTrip.{deliver}
use iracing_teleport.Telemetry.{irsdk_header_size, max_telemetry_size}
use iracing_teleport.Source
use iracing_teleport.Source.{Source, Choice, Payload, skip, frame, payload_of, prefix_payload}
use iracing_teleport.Source.Kept.{IsKept, staged_of}
use iracing_teleport.Source.Round
use iracing_teleport.Source.Round.{send_data}
use iracing_teleport.Target
use iracing_teleport.Target.{
  Target, Effect, write, when, prefix_writes, partial_writes, apply_effects,
}
use iracing_teleport.Link.Frames.{Codec}
use iracing_teleport.Link.Session.{IsSynced, memory}
use iracing_teleport.Link.Start.{prefix, length-apply_effects, apply_effects-append}
use iracing_teleport.Link.Rounds.{copies, copies-append}
use iracing_teleport.Link.Wire.{memory-open}
use iracing_teleport.Link.Delivered.{recv_all}
use iracing_teleport.Link.Message.{IsLive, recv_all-append, split_rounds}
use iracing_teleport.Link.Transmit.{IsBounded}
use iracing_teleport.Link.Broadcast.{
  choice_of, payload_in, frame_writes, IsRound, IsRoomy, send_rounds, expected, AllRounds,
}
use iracing_teleport.Link.Broadcast.Steps.{IsStepped}
use iracing_teleport.Link.Broadcast.Rounds.{
  chosen-IsKept, empty_rounds, prefix-Follows, round-IsStepped,
}

-- Only the length of the memory matters for the copies.
prefix_writes-same :
    (m m' p : List ℕ) → length m ≡ length m' → prefix_writes m p ≡ prefix_writes m' p
unfolding prefix_writes
prefix_writes-same m m' p e =
    ap
      (λ k.
        let n = min (length p) k in
        write 0 (take 4 p) ∷ when (ltb 8 n) (write 8 (slice p 8 n) ∷ []))
      e

frame_writes-same :
    (m m' : List ℕ) (env : Round.Env) (c : Choice) (p : Payload)
    → length m ≡ length m'
    → frame_writes m env c p ≡ frame_writes m' env c p
frame_writes-same m m' env c skip e = refl
frame_writes-same m m' env c (frame bytes is_delta wire) e =
    ap
      (λ ws.
        if c.buf_offset == u32_max
        then ws
        else partial_writes c.buf_offset (staged_of env.copied c))
      (prefix_writes-same m m' (prefix env.copied) e)

-- Rounds went on, made these copies, and left the memory that they make.
pub record IsDone (m : List ℕ) (writes : List Effect) (x : Control × Target × List Effect)
    : Type 0 where
  pub goes_on : x.0 ≡ running
  pub copied : copies x.2 ≡ writes
  pub written : x.1.telemetry ≡ some (apply_effects m writes)

IsRoomy-kept : (n : ℕ) (s s' : Source) (t : Target) → IsKept s s' → IsRoomy n s t → IsRoomy n s' t
IsRoomy-kept n s s' t kept y = ground arith

module _ (codec : Codec) (cfg : Source.Config) (target_cfg : Target.Config) (src : ℕ)
    (limit bound n : ℕ) (limit_max : limit ≤ max_telemetry_size)
    (bounded : IsBounded codec limit bound) where
  -- Rounds after a round that was stepped.
  IsDone-append :
      (s' : Source) (t : Target) (xs ys rounds : List (Target.Env × List ℕ))
      (writes later : List Effect)
      → rounds ≡ xs ++ ys
      → IsStepped n bound (memory t) s' writes (recv_all codec.decompress_into target_cfg src xs t)
      → (let (_, t', _) = recv_all codec.decompress_into target_cfg src xs t in
          IsDone (memory t') later (recv_all codec.decompress_into target_cfg src ys t'))
      → IsDone (memory t) (writes ++ later) (recv_all codec.decompress_into target_cfg src rounds t)
  IsDone-append s' t xs ys rounds writes later e first rest =
      let (_, t', effects) = recv_all codec.decompress_into target_cfg src xs t in
      let (_, _, effects') = recv_all codec.decompress_into target_cfg src ys t' in
      let found : memory t' ≡ apply_effects (memory t) writes =
        ap (λ o. elim o [ some m ↦ m | none ↦ [] ]) first.written in
      subst (λ x. IsDone (memory t) (writes ++ later) x)
        (sym (
          ap (λ ds. recv_all codec.decompress_into target_cfg src ds t) e
          ∙ recv_all-append codec.decompress_into target_cfg src xs ys t first.goes_on))
        (record {
          goes_on = rest.goes_on;
          copied = copies-append effects effects' ∙ ap₂ ◌++◌ first.copied rest.copied;
          written =
              rest.written
              ∙ ap (λ m. some (apply_effects m later)) found
              ∙ ap some (sym (apply_effects-append (memory t) writes later));
        })

  rounds-IsDone :
      (size : ℕ) (envs : List Round.Env) (s : Source) (t : Target)
      (rounds : List (Target.Env × List ℕ)) (m : List ℕ)
      → irsdk_header_size ≤ n
      → n ≤ limit
      → irsdk_header_size ≤ size
      → size ≤ max_telemetry_size
      → length (memory t) ≡ size
      → length m ≡ size
      → IsSynced n s t
      → IsLive bound s.sender t
      → AllRounds codec cfg n size limit envs s
      → map (λ x. x.1) rounds ≡ (send_rounds codec cfg envs s).1
      → IsDone
          (memory t)
          (expected codec cfg m envs s)
          (recv_all codec.decompress_into target_cfg src rounds t)
  unfolding send_rounds expected recv_all apply_effects
  rounds-IsDone size [] s t rounds m hn hn' hs hs' e e' synced l all handed =
      subst (λ ds. IsDone (memory t) [] (recv_all codec.decompress_into target_cfg src ds t))
        (sym (empty_rounds (λ (x : Target.Env × List ℕ). x.1) rounds handed))
        (record {
          goes_on = refl;
          copied = refl;
          written = memory-open codec.decompress_into target_cfg t l.opened;
        })
  rounds-IsDone size (env ∷ envs) s t rounds m hn hn' hs hs' e e' synced l (h, all) handed =
      let (s', _, ds) = send_data codec.compress_into deliver cfg env s [] in
      let (xs, ys, split, front, back) =
        split_rounds (λ (x : Target.Env × List ℕ). x.1) ds (send_rounds codec cfg envs s').1 rounds
          handed in
      let (c, _) = choice_of env s in
      let writes = frame_writes m env c (payload_in cfg env s).0 in
      let stepped =
        subst
          (λ ws.
            IsStepped n bound (memory t) s' ws (recv_all codec.decompress_into target_cfg src xs t))
          (frame_writes-same (memory t) m env c (payload_in cfg env s).0 (e ∙ sym e'))
          (round-IsStepped codec cfg target_cfg src limit bound n limit_max bounded env s t xs hn
            hn' (omega (arith, e)) (omega (arith, e)) synced l
            (subst (λ k. IsRound n k limit env c) (sym e) h) front) in
      let (_, t', _) = recv_all codec.decompress_into target_cfg src xs t in
      let kept : length (memory t') ≡ size =
        ap (λ o. length (elim o as (λ _. List ℕ) [ some m ↦ m | none ↦ [] ])) stepped.written
        ∙ length-apply_effects (memory t) writes
        ∙ e in
      IsDone-append s' t xs ys rounds writes (expected codec cfg m envs s') split stepped (
        rounds-IsDone size envs s' t' ys m hn hn' hs hs' kept e' stepped.synced stepped.live all
          back)

  -- What a run of the source needs: sizes in range, buffers and receiver with room on both sides, and
  -- a first round that sends the static prefix.
  pub record IsRun (env : Round.Env) (envs : List Round.Env) (s : Source) (t : Target)
      : Type 0 where
    pub frame_min : irsdk_header_size ≤ n
    pub frame_max : n ≤ limit
    pub memory_min : irsdk_header_size ≤ length (memory t)
    pub memory_max : length (memory t) ≤ max_telemetry_size
    pub roomy : IsRoomy n s t
    pub live : IsLive bound s.sender t
    pub starts : (choice_of env s).0.buf_offset ≡ u32_max
    pub rounds_fit : AllRounds codec cfg n (length (memory t)) limit (env ∷ envs) s

  -- Rounds with data of the loop of the source, the first of which sends the static prefix, whose
  -- datagrams the rounds of a target with an open memory receive all and in order: the target's rounds
  -- go on, and copy into its memory, for each round of the source that sends a frame, the static
  -- prefix or the staged bytes of that round, whichever were sent as deltas. All partial frames have
  -- one length and fit into the memory, the payloads compress to at most `bound` bytes, and a message
  -- of these takes at most 256 datagrams of at most 9000 bytes and fits into the receiver.
  pub recv_all-send_rounds :
      (env : Round.Env) (envs : List Round.Env) (s : Source) (t : Target)
      (rounds : List (Target.Env × List ℕ))
      → IsRun env envs s t
      → map (λ x. x.1) rounds ≡ (send_rounds codec cfg (env ∷ envs) s).1
      → IsDone
          (memory t)
          (expected codec cfg (memory t) (env ∷ envs) s)
          (recv_all codec.decompress_into target_cfg src rounds t)
  unfolding send_rounds expected send_data
  recv_all-send_rounds env envs s t rounds r handed =
      let (c, chosen) = choice_of env s in
      let (kept, same) = chosen-IsKept env s in
      let (s', _, ds) = send_data codec.compress_into deliver cfg env s [] in
      let (xs, ys, split, front, back) =
        split_rounds (λ (x : Target.Env × List ℕ). x.1) ds (send_rounds codec cfg envs s').1 rounds
          handed in
      let writes = frame_writes (memory t) env c (payload_in cfg env s).0 in
      let (h, all) = r.rounds_fit in
      let stepped : IsStepped n bound (memory t) s' writes
          (recv_all codec.decompress_into target_cfg src xs t) =
        prefix-Follows codec cfg target_cfg src limit bound n limit_max bounded env c chosen t xs
          r.starts (IsRoomy-kept n s chosen t kept r.roomy)
          (subst (λ k. IsLive bound k t) (sym same) r.live) h front in
      let (_, t', _) = recv_all codec.decompress_into target_cfg src xs t in
      let size : length (memory t') ≡ length (memory t) =
        ap (λ o. length (elim o as (λ _. List ℕ) [ some m ↦ m | none ↦ [] ])) stepped.written
        ∙ length-apply_effects (memory t) writes in
      IsDone-append s' t xs ys rounds writes (expected codec cfg (memory t) envs s') split stepped (
        rounds-IsDone (length (memory t)) envs s' t' ys (memory t) r.frame_min r.frame_max
          r.memory_min r.memory_max size refl stepped.synced stepped.live all back)
