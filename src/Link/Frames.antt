-- ===== src/Link/Frames.antt =====
-- The partial frames of a session, one after another, from `encode` (teleport/src/source.rs) over
-- the compression to the memory that `write_frame` (teleport/src/target.rs) writes.
use iracing_teleport.Base.{
  ℕ, ◌+◌, ◌%◌, ◌==◌, ◌≤◌, ◌<◌, ◌≡◌, sym, ap, subst, ◌∙◌, ◌⊎◌, List, [], Bool, true, false, Option,
  none, some, arith, length, take,
}
use iracing_teleport.Protocol.Header.{delta_bit, u32_max}
use iracing_teleport.Telemetry.{irsdk_header_size, max_telemetry_size}
use iracing_teleport.Source
use iracing_teleport.Source.{Source, Payload, skip, frame, encode, uses_delta}
use iracing_teleport.Target
use iracing_teleport.Target.{
  Target, Env, Effect, write, Handled, wrote, continued, partial, partial_writes, apply_effects,
  apply_effect, is_delta_offset, write_frame,
}
use iracing_teleport.Link.Frame.{
  sent, encode-sent, IsReady, length-sent, rebuilt-sent, IsWritten, partial_fits,
}

-- What the program relies on of lz4_flex: a payload that fits into the memory is compressed into
-- the buffer of the size that the library names, and decompressed to itself.
pub record Codec : Type 0 where
  pub compress_into : List ℕ → Option (List ℕ)
  pub decompress_into : List ℕ → Option (List ℕ)
  pub compressed : List ℕ → List ℕ
  pub fits : (p : List ℕ) → length p ≤ max_telemetry_size → compress_into p ≡ some (compressed p)
  pub restores :
      (p : List ℕ) → length p ≤ max_telemetry_size → decompress_into (compressed p) ≡ some p

-- The offset on the wire tells a delta from a full partial frame, and both from a prefix.
pub wire_full : (off : ℕ) → off < delta_bit → is_delta_offset off ≡ false
unfolding is_delta_offset
wire_full off h = ground arith

pub wire_delta :
    (off : ℕ) → off + 1 < delta_bit → is_delta_offset (off % delta_bit + delta_bit) ≡ true
unfolding is_delta_offset
wire_delta off h = ground arith

-- The frame's wire offset, read back by the target.
pub wire-sent :
    (is_delta : Bool) (off : ℕ) (staged : List ℕ) (s : Source)
    → off + 1 < delta_bit
    → ((sent is_delta off staged s).wire % delta_bit ≡ off)
      × (is_delta_offset (sent is_delta off staged s).wire ≡ is_delta)
      × (((sent is_delta off staged s).wire == u32_max) ≡ false)
wire-sent false off staged s h = (omega arith, wire_full off (omega arith), ground arith)
wire-sent true off staged s h = (omega arith, wire_delta off h, ground arith)

module _ (codec : Codec) (cfg : Source.Config) (target_cfg : Target.Config) (env : Env) where
  -- The compressed bytes of a frame reach the target whole.
  unfoldable pub deliver : Option (List ℕ) → ℕ → Target → List ℕ → Handled × Target × List Effect
  deliver none wire t m = (continued, t, [])
  deliver (some c) wire t m = write_frame codec.decompress_into target_cfg env t m c wire

  unfoldable pub receive : Payload → Target → List ℕ → Handled × Target × List Effect
  receive skip t m = (continued, t, [])
  receive (frame bytes is_delta wire) t m = deliver (codec.compress_into bytes) wire t m

  write_frame-sent :
      (is_delta : Bool) (off : ℕ) (staged : List ℕ) (s : Source) (t : Target) (m : List ℕ)
      → length (sent is_delta off staged s).bytes ≤ max_telemetry_size
      → off + 1 < delta_bit
      → t.has_full_frame ≡ true
      → (let p = sent is_delta off staged s in
          write_frame codec.decompress_into target_cfg env t m (codec.compressed p.bytes) p.wire)
        ≡ partial t m is_delta off (some (sent is_delta off staged s).bytes)
  unfolding write_frame
  write_frame-sent is_delta off staged s t m h ho full =
      let p = sent is_delta off staged s in
      let (e, e', e'') = wire-sent is_delta off staged s ho in
      rw (e'', full, e, e', codec.restores p.bytes h)

  -- A frame that the source encodes is written by the target, byte for byte.
  pub receive-encode :
      (off : ℕ) (staged : List ℕ) (s : Source) (t : Target) (m : List ℕ)
      → IsReady staged s t
      → (take (length staged) s.prev_varbuf ≡ take (length staged) t.prev_varbuf)
        ⊎ (uses_delta cfg s ≡ false)
      → off + 1 < delta_bit
      → t.has_full_frame ≡ true
      → length staged ≤ max_telemetry_size
      → irsdk_header_size ≤ length staged
      → off + length staged ≤ length m + irsdk_header_size
      → irsdk_header_size ≤ length m
      → let (handled, t', effects) = receive (encode cfg off staged s).0 t m in
        (handled ≡ wrote (length staged)) × IsWritten t t' m off staged effects
  unfolding receive deliver
  receive-encode off staged s t m ready agree ho full hs hh hm hm' =
      let is_delta = uses_delta cfg s in
      let p = sent is_delta off staged s in
      let hl = length-sent is_delta off staged s t ready in
      let hp : length p.bytes ≤ max_telemetry_size = omega (arith, hl) in
      let e : receive (encode cfg off staged s).0 t m ≡ partial t m is_delta off (some p.bytes) =
        ap (λ x. receive x t m) (encode-sent cfg off staged s)
        ∙ ap (λ x. deliver x p.wire t m) (codec.fits p.bytes hp)
        ∙ write_frame-sent is_delta off staged s t m hp ho full in
      subst
        (λ x.
          let (handled, t', effects) = x in
          (handled ≡ wrote (length staged)) × IsWritten t t' m off staged effects)
        (sym e)
        (partial_fits t m is_delta off p.bytes staged
          (rebuilt-sent is_delta off staged s t ready agree) hl ready.target_prev hh hm hm')
