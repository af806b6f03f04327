-- ===== src/Link/Broadcast/Steps.antt =====
-- One round with data of teleport/src/source.rs and the rounds of teleport/src/target.rs that receive
-- its datagrams.
use iracing_teleport.Base.{
  ℕ, ◌^◌, ◌≤◌, ◌<◌, ◌≡◌, refl, sym, ap, ap₂, subst, ◌∙◌, inr, List, [], ◌++◌, map, false, some,
  arith, length,
}
use mathlib.Core.List.{append-nil}
use iracing_teleport.Control.{Control, running}
use iracing_teleport.Protocol.Header.{u32_max}
use iracing_teleport.Protocol.Reassembly.RoundTrip.{deliver}
use iracing_teleport.Telemetry.{irsdk_header_size, max_telemetry_size}
use iracing_teleport.Source
use iracing_teleport.Source.{
  Source, Choice, Payload, skip, frame, encode, uses_delta, choose, payload_of, prefix_payload,
}
use iracing_teleport.Source.Kept.{IsKept}
use iracing_teleport.Source.Round
use iracing_teleport.Source.Round.{send_data, transmit}
use iracing_teleport.Target
use iracing_teleport.Target.{Target, Effect, prefix_writes, partial_writes, apply_effects, when}
use iracing_teleport.Link.Frame.{sent, encode-sent, IsWritten, length-sent}
use iracing_teleport.Link.Frames.{Codec, receive}
use iracing_teleport.Link.Session.{IsSynced, IsFrame, memory, receive-IsSynced, IsSynced-IsReady}
use iracing_teleport.Link.Start.{prefix, length-prefix, notices, receive-IsStarted}
use iracing_teleport.Link.Rounds.{copies, copies-append, IsSame}
use iracing_teleport.Link.Delivered.{recv_all}
use iracing_teleport.Link.Message.{IsLive, IsRelayed}
use iracing_teleport.Link.Transmit.{IsBounded, recv_all-transmit}
use iracing_teleport.Link.Through.{wire_u32}
use iracing_teleport.Link.Broadcast.{IsRoomy}

copies-prefix_writes : (m p : List ℕ) → copies (prefix_writes m p) ≡ prefix_writes m p
unfolding prefix_writes when
copies-prefix_writes m p = ground arith

copies-notices : (cfg : Target.Config) (t : Target) → copies (notices cfg t) ≡ []
unfolding when
copies-notices cfg t = ground arith

-- Both sides after a round: the target's rounds made these copies, and are ready for the next.
pub record IsStepped (n bound : ℕ) (m : List ℕ) (s' : Source) (writes : List Effect)
    (x : Control × Target × List Effect) : Type 0 where
  pub goes_on : x.0 ≡ running
  pub copied : copies x.2 ≡ writes
  pub written : x.1.telemetry ≡ some (apply_effects m writes)
  pub synced : IsSynced n s' x.1
  pub live : IsLive bound s'.sender x.1

-- Agreement of both sides depends on nothing else.
pub IsSynced-same :
    (n : ℕ) (s s' : Source) (t t' : Target)
    → IsKept s s'
    → IsSame t' t
    → IsSynced n s t
    → IsSynced n s' t'
IsSynced-same n s s' t t' kept same y = ground arith

sender-encode :
    (cfg : Source.Config) (off : ℕ) (staged : List ℕ) (s : Source)
    → (encode cfg off staged s).1.sender ≡ s.sender
unfolding encode
sender-encode cfg off staged s = ground arith

module _ (codec : Codec) (cfg : Source.Config) (target_cfg : Target.Config) (src : ℕ)
    (limit bound n : ℕ) (limit_max : limit ≤ max_telemetry_size)
    (bounded : IsBounded codec limit bound) where
  -- A round that sends the static prefix.
  pub step_prefix :
      (env : Round.Env) (c : Choice) (s : Source) (t : Target) (rounds : List (Target.Env × List ℕ))
      → IsRoomy n s t
      → IsLive bound s.sender t
      → irsdk_header_size ≤ length env.copied
      → length env.copied ≤ limit
      → env.source_us < 2 ^ 64
      → let (p, s') = prefix_payload env.copied s in
        let (s'', _, handed) = transmit codec.compress_into deliver cfg env u32_max p s' [] in
        map (λ x. x.1) rounds ≡ handed
        → IsStepped n bound
            (memory t)
            s''
            (prefix_writes (memory t) (prefix env.copied))
            (recv_all codec.decompress_into target_cfg src rounds t)
  unfolding prefix_payload
  step_prefix env c s t rounds roomy l h h' us same =
      let (p, s') = prefix_payload env.copied s in
      let (s'', _, handed) = transmit codec.compress_into deliver cfg env u32_max p s' [] in
      let bytes = prefix env.copied in
      let (clock, outcome) =
        recv_all-transmit codec cfg target_cfg src limit bound limit_max bounded env u32_max bytes
          false u32_max s' t rounds l (omega (arith, length-prefix env.copied h))
          (omega (arith, length-prefix env.copied h, h')) us (omega arith) same in
      let (kept, r) = outcome in
      let w =
        receive-IsStarted codec cfg target_cfg clock env.copied t (memory t) h
          (omega (arith, h', limit_max)) in
      let (_, u, written) =
        receive codec cfg target_cfg clock (frame bytes false u32_max) t (memory t) in
      let synced : IsSynced n s' u = record {
        source_prev = roomy.source_prev;
        source_delta = roomy.source_delta;
        target_prev = omega (arith, roomy.target_prev, w.prev_size);
        target_rebuilt = omega (arith, roomy.target_rebuilt, w.rebuilt_size);
        prev_bytes = roomy.prev_bytes;
        agree = inr refl;
        full = w.full;
      } in
      let (_, t', _) = recv_all codec.decompress_into target_cfg src rounds t in
      record {
        goes_on = r.goes_on;
        copied =
            r.copied
            ∙ ap copies w.copies
            ∙ copies-append (prefix_writes (memory t) bytes) (notices target_cfg t)
            ∙ ap₂ ◌++◌ (copies-prefix_writes (memory t) bytes) (copies-notices target_cfg t)
            ∙ append-nil (prefix_writes (memory t) bytes);
        written = r.same.telemetry ∙ w.map_written;
        synced = IsSynced-same n s' s'' u t' kept r.same synced;
        live = r.live;
      }

  -- What a frame that was relayed and written leaves.
  partial_steps :
      (clock : Target.Env) (off : ℕ) (staged : List ℕ) (s : Source) (t : Target)
      (rounds : List (Target.Env × List ℕ)) (s' s'' : Source) (q : Payload)
      → (let (_, u, written) = receive codec cfg target_cfg clock q t (memory t) in
          IsKept s' s''
          × IsRelayed codec.decompress_into target_cfg src bound t u s''.sender
              (recv_all codec.decompress_into target_cfg src rounds t)
              written)
      → (let (_, u, written) = receive codec cfg target_cfg clock q t (memory t) in
          IsWritten t u (memory t) off staged written × IsSynced n s' u)
      → IsStepped n bound
          (memory t)
          s''
          (partial_writes off staged)
          (recv_all codec.decompress_into target_cfg src rounds t)
  unfolding partial_writes
  partial_steps clock off staged s t rounds s' s'' q (kept, r) (w, synced) =
      let (_, u, written) = receive codec cfg target_cfg clock q t (memory t) in
      let (_, t', _) = recv_all codec.decompress_into target_cfg src rounds t in
      record {
        goes_on = r.goes_on;
        copied = r.copied ∙ ap copies w.writes;
        written = r.same.telemetry ∙ w.map_written;
        synced = IsSynced-same n s' s'' u t' kept r.same synced;
        live = r.live;
      }

  -- A round that sends a partial frame.
  pub step_partial :
      (env : Round.Env) (off : ℕ) (staged : List ℕ) (s : Source) (t : Target)
      (rounds : List (Target.Env × List ℕ))
      → irsdk_header_size ≤ n
      → n ≤ limit
      → irsdk_header_size ≤ length (memory t)
      → length (memory t) ≤ max_telemetry_size
      → IsFrame n (length (memory t)) off staged
      → IsSynced n s t
      → IsLive bound s.sender t
      → env.source_us < 2 ^ 64
      → let (p, s') = encode cfg off staged s in
        let (s'', _, handed) = transmit codec.compress_into deliver cfg env off p s' [] in
        map (λ x. x.1) rounds ≡ handed
        → IsStepped n bound
            (memory t)
            s''
            (partial_writes off staged)
            (recv_all codec.decompress_into target_cfg src rounds t)
  step_partial env off staged s t rounds hn hn' hm hm' f synced l us same =
      let is_delta = uses_delta cfg s in
      let (p, s') = encode cfg off staged s in
      let x = sent is_delta off staged s in
      let e : p ≡ frame x.bytes x.is_delta x.wire = encode-sent cfg off staged s in
      let ready = IsSynced-IsReady n (length (memory t)) off staged s t synced f in
      let small : (n ≤ length x.bytes) × (length x.bytes ≤ limit) =
        omega (arith, length-sent is_delta off staged s t ready, f.frame_length, hn') in
      let live : IsLive bound s'.sender t =
        subst (λ k. IsLive bound k t) (sym (sender-encode cfg off staged s)) l in
      let (clock, outcome) =
        recv_all-transmit codec cfg target_cfg src limit bound limit_max bounded env off x.bytes
          x.is_delta x.wire s' t rounds live (omega (arith, small.0, hn)) small.1 us
          (wire_u32 is_delta off staged s (omega (arith, f.room, hn, hm')))
          (same ∙ ap (λ q. (transmit codec.compress_into deliver cfg env off q s' []).2) e) in
      let (w, synced') =
        receive-IsSynced codec cfg target_cfg clock n hn (omega (arith, hn', limit_max)) off staged
          s t (memory t) synced f hm hm' in
      subst
        (λ q.
          IsStepped n bound (memory t) (transmit codec.compress_into deliver cfg env off q s' []).0
            (partial_writes off staged) (recv_all codec.decompress_into target_cfg src rounds t))
        (sym e)
        (partial_steps clock off staged s t rounds s'
          (transmit codec.compress_into deliver cfg env off (frame x.bytes x.is_delta x.wire) s'
            []).0
          (frame x.bytes x.is_delta x.wire) outcome
          (subst
            (λ q.
              let (_, u, written) = receive codec cfg target_cfg clock q t (memory t) in
              IsWritten t u (memory t) off staged written × IsSynced n s' u)
            e (w, synced')))
