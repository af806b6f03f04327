-- ===== src/Link/Transmit.antt =====
-- A frame from the compression of teleport/src/source.rs, over datagrams, to the memory of
-- teleport/src/target.rs.
use iracing_teleport.Base.{
  ℕ, ◌^◌, ◌≤◌, ◌<◌, ◌≡◌, refl, sym, ap, subst, ◌∙◌, List, [], map, Bool, Option, some, arith,
  length, ◌==◌,
}
use mathlib.Core.Path.{subst₂}
use iracing_teleport.Protocol.Header.{u32_max}
use iracing_teleport.Protocol.Sender.{Sender, send}
use iracing_teleport.Protocol.Reassembly.RoundTrip.{deliver}
use iracing_teleport.Telemetry.{max_telemetry_size}
use iracing_teleport.Source
use iracing_teleport.Source.{Source, Payload, frame, encode, uses_delta, prefix_payload}
use iracing_teleport.Source.Loop.{record_sent}
use iracing_teleport.Source.Kept.{IsKept, record_sent-IsKept, poll_cap-IsKept}
use iracing_teleport.Source.Round
use iracing_teleport.Source.Round.{transmit, send_compressed, report}
use iracing_teleport.Target
use iracing_teleport.Target.{Target, Effect, write_frame, partial_writes, apply_effects}
use iracing_teleport.Link.Frame.{sent}
use iracing_teleport.Link.Frames.{Codec, receive, deliver as hand_over}
use iracing_teleport.Link.Session.{memory}
use iracing_teleport.Link.Delivered.{recv_all}
use iracing_teleport.Link.Message.{IsLive, IsRelayed, recv_all-IsRelayed}

-- What is relied on of lz4_flex past its round trip: payloads of one to `limit` bytes are compressed
-- to one to `bound` bytes.
abbrev pub IsBounded : Codec → ℕ → ℕ → Type 0
IsBounded codec limit bound =
    (p : List ℕ)
    → 0 < length p
    → length p ≤ limit
    → (0 < length (codec.compressed p)) × (length (codec.compressed p) ≤ bound)

module _ (codec : Codec) (cfg : Source.Config) where
  -- What sending compressed bytes hands to the transport, and what it leaves alone.
  record IsSentBy (s : Source) (bytes : List ℕ) (source_us wire : ℕ)
      (x : Source × Option (ℕ × ℕ × ℕ) × List (List ℕ)) : Type 0 where
    handed : x.2 ≡ (send deliver s.sender bytes source_us wire []).2
    sender : x.0.sender ≡ (send deliver s.sender bytes source_us wire []).1
    kept : IsKept s x.0

  send_compressed-IsSentBy :
      (env : Round.Env) (off payload_len : ℕ) (is_delta : Bool) (wire : ℕ) (compressed : List ℕ)
      (s : Source)
      → IsSentBy s compressed env.source_us wire (
          send_compressed codec.compress_into deliver cfg env off payload_len is_delta wire
            (some compressed)
            s
            [])
  unfolding send_compressed report
  send_compressed-IsSentBy env off payload_len is_delta wire compressed s =
      let (sent, sender, handed) = send deliver s.sender compressed env.source_us wire [] in
      let started : Source = record s { sender = sender } in
      let recorded =
        record_sent (length compressed) payload_len env.source_us (off == u32_max) is_delta sent
          started in
      let quiet : Source = record recorded { last_heartbeat = s.last_data } in
      let (kept, same) =
        record_sent-IsKept (length compressed) payload_len env.source_us (off == u32_max) is_delta
          sent started in
      let (kept', same') = poll_cap-IsKept cfg env.cap quiet in
      record {
        handed = refl;
        sender = same' ∙ same;
        kept = record {
          prev_varbuf = kept'.prev_varbuf ∙ kept.prev_varbuf;
          delta_buf = kept'.delta_buf ∙ kept.delta_buf;
          tick_counter = kept'.tick_counter ∙ kept.tick_counter;
        };
      }

  transmit-IsSentBy :
      (env : Round.Env) (off : ℕ) (bytes : List ℕ) (is_delta : Bool) (wire : ℕ) (s : Source)
      → length bytes ≤ max_telemetry_size
      → IsSentBy s
          (codec.compressed bytes)
          env.source_us
          wire
          (transmit codec.compress_into deliver cfg env off (frame bytes is_delta wire) s [])
  unfolding transmit
  transmit-IsSentBy env off bytes is_delta wire s h =
      subst
        (λ o. IsSentBy s (codec.compressed bytes) env.source_us wire (
          send_compressed codec.compress_into deliver cfg env off (length bytes) is_delta wire o s
            []))
        (sym (codec.fits bytes h))
        (send_compressed-IsSentBy env off (length bytes) is_delta wire (codec.compressed bytes) s)

module _ (codec : Codec) (cfg : Source.Config) (target_cfg : Target.Config) (src : ℕ)
    (limit bound : ℕ) (limit_max : limit ≤ max_telemetry_size)
    (bounded : IsBounded codec limit bound) where
  receive-frame :
      (env : Target.Env) (bytes : List ℕ) (is_delta : Bool) (wire : ℕ) (t : Target) (m : List ℕ)
      → length bytes ≤ max_telemetry_size
      → receive codec cfg target_cfg env (frame bytes is_delta wire) t m
        ≡ write_frame codec.decompress_into target_cfg env t m (codec.compressed bytes) wire
  unfolding receive hand_over
  receive-frame env bytes is_delta wire t m h =
      ap (λ c. hand_over codec cfg target_cfg env c wire t m) (codec.fits bytes h)

  -- A frame that the source transmits, and the rounds of the target that receive its datagrams.
  pub recv_all-transmit :
      (env : Round.Env) (off : ℕ) (bytes : List ℕ) (is_delta : Bool) (wire : ℕ) (s : Source)
      (t : Target) (rounds : List (Target.Env × List ℕ))
      → IsLive bound s.sender t
      → 0 < length bytes
      → length bytes ≤ limit
      → env.source_us < 2 ^ 64
      → wire < 2 ^ 32
      → map (λ x. x.1) rounds
        ≡ (transmit codec.compress_into deliver cfg env off (frame bytes is_delta wire) s []).2
      → (clock : Target.Env) × (let (_, u, written) =
            receive codec cfg target_cfg clock (frame bytes is_delta wire) t (memory t) in
          let (s', _, _) =
            transmit codec.compress_into deliver cfg env off (frame bytes is_delta wire) s [] in
          IsKept s s'
          × IsRelayed codec.decompress_into target_cfg src bound t u s'.sender
              (recv_all codec.decompress_into target_cfg src rounds t)
              written)
  recv_all-transmit env off bytes is_delta wire s t rounds l filled fits us small same =
      let h : length bytes ≤ max_telemetry_size = omega (arith, fits, limit_max) in
      let sent = transmit-IsSentBy codec cfg env off bytes is_delta wire s h in
      let (some_bytes, few) = bounded bytes filled fits in
      let (clock, relayed) =
        recv_all-IsRelayed codec.decompress_into target_cfg src bound s.sender t rounds
          (codec.compressed bytes) env.source_us wire l some_bytes few us small
          (same ∙ sent.handed) in
      (
        clock,
        (
          sent.kept,
          subst₂
              (λ (x : Target.Handled × Target × List Effect) (k : Sender).
                IsRelayed codec.decompress_into target_cfg src bound t x.1 k
                  (recv_all codec.decompress_into target_cfg src rounds t) x.2)
              (sym (receive-frame clock bytes is_delta wire t (memory t) h)) (sym sent.sender)
              relayed,
        ),
      )
