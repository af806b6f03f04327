-- ===== src/Link/Broadcast/Rounds.antt =====
-- Rounds with data of teleport/src/source.rs, one after another, and what the rounds of
-- teleport/src/target.rs that receive their datagrams make of the memory.
use iracing_teleport.Base.{
  ℕ, ◌≤◌, ◌≡◌, ◌≢◌, refl, sym, ap, subst, ◌∙◌, inl, inr, List, [], ◌∷◌, map, true, false, arith,
  length, ◌==◌, if◌then◌else◌, Bool-cases,
}
use mathlib.Core.List.{cons≢nil}
use iracing_teleport.Protocol.Header.{u32_max}
use iracing_teleport.Protocol.Reassembly.RoundTrip.{deliver}
use iracing_teleport.Telemetry.{irsdk_header_size, max_telemetry_size}
use iracing_teleport.Source
use iracing_teleport.Source.{
  Source, Choice, Payload, skip, frame, encode, uses_delta, choose, payload_of, prefix_payload,
  partial_payload,
}
use iracing_teleport.Source.Loop.{start_data}
use iracing_teleport.Source.Kept.{
  IsKept, start_data-IsKept, choose-IsKept, staged_of, IsPartial, skips, encodes,
  partial_payload-IsPartial,
}
use iracing_teleport.Source.Round
use iracing_teleport.Source.Round.{send_data, transmit}
use iracing_teleport.Target
use iracing_teleport.Target.{Target, Effect, prefix_writes, partial_writes, apply_effects, when}
use iracing_teleport.Link.Frame.{encode-sent}
use iracing_teleport.Link.Frames.{Codec}
use iracing_teleport.Link.Session.{IsSynced, memory}
use iracing_teleport.Link.Start.{prefix}
use iracing_teleport.Link.Rounds.{IsSame-refl}
use iracing_teleport.Link.Wire.{memory-open}
use iracing_teleport.Link.Delivered.{recv_all}
use iracing_teleport.Link.Message.{IsLive}
use iracing_teleport.Link.Transmit.{IsBounded}
use iracing_teleport.Link.Broadcast.{choice_of, payload_in, frame_writes, IsRound, IsRoomy}
use iracing_teleport.Link.Broadcast.Steps.{IsSynced-same, IsStepped, step_prefix, step_partial}

-- The source when it has chosen what to send.
pub chosen-IsKept :
    (env : Round.Env) (s : Source)
    → IsKept s (choice_of env s).1 × ((choice_of env s).1.sender ≡ s.sender)
chosen-IsKept env s =
    let started = start_data env.now s in
    let (kept, same) = start_data-IsKept env.now s in
    let (kept', same') = choose-IsKept env.now env.seen started in
    (
      record {
        prev_varbuf = kept'.prev_varbuf ∙ kept.prev_varbuf;
        delta_buf = kept'.delta_buf ∙ kept.delta_buf;
        tick_counter = kept'.tick_counter ∙ kept.tick_counter;
      },
      same' ∙ same,
    )

-- No frame is encoded as nothing.
encode_writes :
    (cfg : Source.Config) (m : List ℕ) (env : Round.Env) (c : Choice) (off : ℕ) (staged : List ℕ)
    (s : Source)
    → (c.buf_offset == u32_max) ≡ false
    → frame_writes m env c (encode cfg off staged s).0
      ≡ partial_writes c.buf_offset (staged_of env.copied c)
encode_writes cfg m env c off staged s e =
    ap (λ p. frame_writes m env c p) (encode-sent cfg off staged s)
    ∙ ap
        (λ b.
          if b
          then prefix_writes m (prefix env.copied)
          else partial_writes c.buf_offset (staged_of env.copied c))
        e

pub is_max : (off : ℕ) → (off == u32_max) ≡ true → off ≡ u32_max
is_max off e = ground arith

not_max : (off : ℕ) → (off == u32_max) ≡ false → off ≢ u32_max
not_max off e = ground arith

pub empty_rounds {ℓ κ} :
    {A : Type ℓ} {B : Type κ} (f : A → B) (xs : List A) → map f xs ≡ [] → xs ≡ []
empty_rounds f [] e = refl
empty_rounds f (x ∷ xs) e = absurd (cons≢nil e)

module _ (codec : Codec) (cfg : Source.Config) (target_cfg : Target.Config) (src : ℕ)
    (limit bound n : ℕ) (limit_max : limit ≤ max_telemetry_size)
    (bounded : IsBounded codec limit bound) where
  -- A round that sends nothing.
  step_skip :
      (s s' : Source) (t : Target) (rounds : List (Target.Env × List ℕ))
      → IsKept s s'
      → s'.sender ≡ s.sender
      → IsSynced n s t
      → IsLive bound s.sender t
      → map (λ x. x.1) rounds ≡ []
      → IsStepped n bound (memory t) s' [] (recv_all codec.decompress_into target_cfg src rounds t)
  unfolding recv_all apply_effects
  step_skip s s' t rounds kept same synced l none_handed =
      subst
        (λ ds.
          IsStepped n bound (memory t) s' [] (recv_all codec.decompress_into target_cfg src ds t))
        (sym (empty_rounds (λ (x : Target.Env × List ℕ). x.1) rounds none_handed))
        (record {
          goes_on = refl;
          copied = refl;
          written = memory-open codec.decompress_into target_cfg t l.opened;
          synced = IsSynced-same n s s' t t kept (IsSame-refl t) synced;
          live = subst (λ k. IsLive bound k t) (sym same) l;
        })

  -- What follows the choice of a round.
  abbrev pub Follows :
      Round.Env → Choice → Target → List (Target.Env × List ℕ) → Payload × Source → Type 0
  Follows env c t rounds (p, s') =
      let (s'', _, handed) = transmit codec.compress_into deliver cfg env c.buf_offset p s' [] in
      map (λ x. x.1) rounds ≡ handed
      → IsStepped n bound (memory t) s'' (frame_writes (memory t) env c p)
          (recv_all codec.decompress_into target_cfg src rounds t)

  pub prefix-Follows :
      (env : Round.Env) (c : Choice) (s : Source) (t : Target) (rounds : List (Target.Env × List ℕ))
      → c.buf_offset ≡ u32_max
      → IsRoomy n s t
      → IsLive bound s.sender t
      → IsRound n (length (memory t)) limit env c
      → Follows env c t rounds (payload_of cfg c env.copied env.rechecked s)
  unfolding payload_of prefix_payload
  prefix-Follows env c s t rounds e roomy l h = rw e (
      step_prefix codec cfg target_cfg src limit bound n limit_max bounded env c s t rounds roomy l
        h.has_header h.copied_small h.time_u64)

  partial-Follows :
      (env : Round.Env) (c : Choice) (s : Source) (t : Target) (rounds : List (Target.Env × List ℕ))
      (x : Payload × Source)
      → irsdk_header_size ≤ n
      → n ≤ limit
      → irsdk_header_size ≤ length (memory t)
      → length (memory t) ≤ max_telemetry_size
      → (c.buf_offset == u32_max) ≡ false
      → IsSynced n s t
      → IsLive bound s.sender t
      → IsRound n (length (memory t)) limit env c
      → IsPartial cfg c env.copied s x
      → Follows env c t rounds x
  unfolding transmit
  partial-Follows env c s t rounds x hn hn' hm hm' e synced l h (skips s' kept same found) =
      subst (λ y. Follows env c t rounds y) (sym found) (step_skip s s' t rounds kept same synced l)
  partial-Follows env c s t rounds x hn hn' hm hm' e synced l h (encodes s' kept same found) =
      let staged = staged_of env.copied c in
      let ready = IsSynced-same n s s' t t kept (IsSame-refl t) synced in
      let live : IsLive bound s'.sender t = subst (λ k. IsLive bound k t) (sym same) l in
      subst (λ y. Follows env c t rounds y) (sym found)
        (λ handed.
          subst
            (λ writes.
              IsStepped n bound (memory t)
                (transmit codec.compress_into deliver cfg env c.buf_offset
                  (encode cfg c.buf_offset staged s').0 (encode cfg c.buf_offset staged s').1 []).0
                writes (recv_all codec.decompress_into target_cfg src rounds t))
            (sym (encode_writes cfg (memory t) env c c.buf_offset staged s' e))
            (step_partial codec cfg target_cfg src limit bound n limit_max bounded env c.buf_offset
              staged s' t rounds hn hn' hm hm' (h.fits (not_max c.buf_offset e)) ready live
              h.time_u64 handed))

  synced-IsRoomy : (s : Source) (t : Target) → IsSynced n s t → IsRoomy n s t
  synced-IsRoomy s t y = record {
    source_prev = y.source_prev;
    source_delta = y.source_delta;
    target_prev = y.target_prev;
    target_rebuilt = y.target_rebuilt;
    prev_bytes = y.prev_bytes;
  }

  -- A round with data that starts with both sides in agreement.
  pub round-IsStepped :
      (env : Round.Env) (s : Source) (t : Target) (rounds : List (Target.Env × List ℕ))
      → irsdk_header_size ≤ n
      → n ≤ limit
      → irsdk_header_size ≤ length (memory t)
      → length (memory t) ≤ max_telemetry_size
      → IsSynced n s t
      → IsLive bound s.sender t
      → IsRound n (length (memory t)) limit env (choice_of env s).0
      → map (λ x. x.1) rounds ≡ (send_data codec.compress_into deliver cfg env s []).2
      → IsStepped n bound
          (memory t)
          (send_data codec.compress_into deliver cfg env s []).0
          (frame_writes (memory t) env (choice_of env s).0 (payload_in cfg env s).0)
          (recv_all codec.decompress_into target_cfg src rounds t)
  unfolding send_data payload_of
  round-IsStepped env s t rounds hn hn' hm hm' synced l h handed =
      let (c, chosen) = choice_of env s in
      let (kept, same) = chosen-IsKept env s in
      let synced' = IsSynced-same n s chosen t t kept (IsSame-refl t) synced in
      let live : IsLive bound chosen.sender t = subst (λ k. IsLive bound k t) (sym same) l in
      let x = partial_payload cfg c env.copied env.rechecked chosen in
      elim (Bool-cases (c.buf_offset == u32_max)) [
        | inl prefix_chosen ↦
            prefix-Follows env c chosen t rounds (is_max c.buf_offset prefix_chosen)
              (synced-IsRoomy chosen t synced') live h handed
        | inr partial_chosen ↦
            let found : payload_of cfg c env.copied env.rechecked chosen ≡ x =
              ap (λ b. if b then prefix_payload env.copied chosen else x) partial_chosen in
            subst (λ y. Follows env c t rounds y) (sym found)
              (partial-Follows env c chosen t rounds x hn hn' hm hm' partial_chosen synced' live h
                (partial_payload-IsPartial cfg c env.copied env.rechecked chosen))
              handed
      ]
