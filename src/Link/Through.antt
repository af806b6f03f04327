-- ===== src/Link/Through.antt =====
-- One partial frame all the way: encoded and compressed by teleport/src/source.rs, sent by
-- teleport/src/protocol.rs, and written by the rounds of teleport/src/target.rs that receive its datagrams.
use iracing_teleport.Base.{
  ℕ, ◌+◌, ◌*◌, ◌^◌, ◌≤◌, ◌<◌, ◌≡◌, ◌≢◌, sym, ap, ◌∙◌, ◌⊎◌, List, [], map, Bool, true, false, some,
  arith, length, take,
}
use iracing_teleport.Control.{running}
use iracing_teleport.Protocol.Header.{max_payload_per_datagram, max_fragments, delta_bit}
use iracing_teleport.Protocol.Sender.{Sender, send}
use iracing_teleport.Protocol.Sender.Datagrams.{IsSender}
use iracing_teleport.Protocol.Receiver.Valid.{IsReceiver}
use iracing_teleport.Protocol.Reassembly.RoundTrip.{deliver}
use iracing_teleport.Telemetry.{irsdk_header_size, max_telemetry_size}
use iracing_teleport.Source
use iracing_teleport.Source.{Source, encode, uses_delta}
use iracing_teleport.Target
use iracing_teleport.Target.{Target, Env, Effect, write_frame, partial_writes, apply_effects}
use iracing_teleport.Link.Frame.{sent, encode-sent, IsReady, length-sent}
use iracing_teleport.Link.Frames as Frames
use iracing_teleport.Link.Frames.{Codec, receive, receive-encode}
use iracing_teleport.Link.Session.{memory}
use iracing_teleport.Link.Unseen.{is_open}
use iracing_teleport.Link.Rounds.{copies}
use iracing_teleport.Link.Delivered.{recv_all, recv_all-send}

-- Sender and target are ready for a payload, of at most 256 datagrams of at most 9000 bytes.
pub record IsLinked (sender : Sender) (t : Target) (payload : List ℕ) : Type 0 where
  pub sender_valid : IsSender sender
  pub receiver_valid : IsReceiver t.proto
  pub opened : is_open t.telemetry ≡ true
  pub some_bytes : 0 < length payload
  pub small : sender.payload_per_datagram ≤ max_payload_per_datagram
  pub few : length payload ≤ max_fragments * sender.payload_per_datagram
  pub fresh : t.proto.current_seq ≢ some sender.sequence
  pub room : length payload ≤ t.proto.max_payload

-- The target holds what the source's frame needs, and the frame fits into its memory.
pub record IsExpected (cfg : Source.Config) (off : ℕ) (staged : List ℕ) (s : Source) (t : Target)
    : Type 0 where
  pub ready : IsReady staged s t
  pub agree :
      (take (length staged) s.prev_varbuf ≡ take (length staged) t.prev_varbuf)
      ⊎ (uses_delta cfg s ≡ false)
  pub offset_small : off + 1 < delta_bit
  pub full : t.has_full_frame ≡ true
  pub frame_small : length staged ≤ max_telemetry_size
  pub has_header : irsdk_header_size ≤ length staged
  pub inside : off + length staged ≤ length (memory t) + irsdk_header_size
  pub map_header : irsdk_header_size ≤ length (memory t)

pub wire_u32 :
    (is_delta : Bool) (off : ℕ) (staged : List ℕ) (s : Source)
    → off + 1 < delta_bit
    → (sent is_delta off staged s).wire < 2 ^ 32
wire_u32 false off staged s h = omega (arith, h)
wire_u32 true off staged s h = omega arith

module _ (codec : Codec) (cfg : Source.Config) (target_cfg : Target.Config) (src : ℕ) where
  -- The compressed bytes of the frame.
  abbrev pub compressed_frame : ℕ → List ℕ → Source → List ℕ
  compressed_frame off staged s = codec.compressed (sent (uses_delta cfg s) off staged s).bytes

  receive-write_frame :
      (env : Env) (off : ℕ) (staged : List ℕ) (s : Source) (t : Target)
      → IsExpected cfg off staged s t
      → receive codec cfg target_cfg env (encode cfg off staged s).0 t (memory t)
        ≡ write_frame codec.decompress_into target_cfg env t
            (memory t)
            (compressed_frame off staged s)
            (sent (uses_delta cfg s) off staged s).wire
  unfolding receive Frames.deliver
  receive-write_frame env off staged s t e =
      let p = sent (uses_delta cfg s) off staged s in
      let small : length p.bytes ≤ max_telemetry_size =
        omega (arith, length-sent (uses_delta cfg s) off staged s t e.ready, e.frame_small) in
      ap (λ x. receive codec cfg target_cfg env x t (memory t)) (encode-sent cfg off staged s)
      ∙ ap (λ x. Frames.deliver codec cfg target_cfg env x p.wire t (memory t))
          (codec.fits p.bytes small)

  -- A partial frame that the source encodes, as a keyframe or as a delta, compresses and hands to its
  -- sender, whose datagrams the rounds of the target receive in order, one in each: the rounds go on,
  -- and what they copy into the memory is the staged frame, the variables first and the header last,
  -- if source and target hold the same last frame or the frame is no delta, the frame fits into the
  -- memory, sender and receiver are valid, and the message takes at most 256 datagrams of at most 9000
  -- bytes.
  pub recv_all-encode :
      (off : ℕ) (staged : List ℕ) (s : Source) (t : Target) (sender : Sender) (source_us : ℕ)
      (rounds : List (Env × List ℕ))
      → IsExpected cfg off staged s t
      → IsLinked sender t (compressed_frame off staged s)
      → source_us < 2 ^ 64
      → map (λ x. x.1) rounds
        ≡ (send deliver sender
            (compressed_frame off staged s)
            source_us
            (sent (uses_delta cfg s) off staged s).wire
            []).2
      → let (control, t', effects) = recv_all codec.decompress_into target_cfg src rounds t in
        (control ≡ running)
        × (copies effects ≡ partial_writes off staged)
        × (t'.telemetry ≡ some (apply_effects (memory t) (partial_writes off staged)))
  unfolding partial_writes
  recv_all-encode off staged s t sender source_us rounds e l us same =
      let frame = compressed_frame off staged s in
      let wire = (sent (uses_delta cfg s) off staged s).wire in
      let (env, outcome) =
        recv_all-send codec.decompress_into target_cfg src sender t rounds frame source_us wire
          l.sender_valid l.receiver_valid l.opened l.some_bytes l.small l.few us
          (wire_u32 (uses_delta cfg s) off staged s e.offset_small) l.fresh l.room same in
      let (goes_on, same_target, copied) = outcome in
      let (handled, u, written) =
        write_frame codec.decompress_into target_cfg env t (memory t) frame wire in
      let (_, w) =
        receive-encode codec cfg target_cfg env off staged s t (memory t) e.ready e.agree
          e.offset_small e.full e.frame_small e.has_header e.inside e.map_header in
      let r = receive-write_frame env off staged s t e in
      (
        goes_on,
        copied ∙ ap (λ x. copies x.2) (sym r) ∙ ap copies w.writes,
        same_target.telemetry ∙ ap (λ x. x.1.telemetry) (sym r) ∙ w.map_written,
      )
