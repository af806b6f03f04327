-- ===== src/Link/Frame.antt =====
-- One partial frame: `encode` of the source (teleport/src/source.rs) and `partial` of the target
-- (teleport/src/target.rs).
use iracing_teleport.Base.{
  ℕ, ◌+◌, ◌%◌, ◌≤◌, ◌≡◌, refl, sym, ap, ◌∙◌, ◌⊎◌, inl, inr, List, Bool, true, false, some, arith,
  length, take, drop, overwrite, overwrite_zero, length-overwrite, take-append, length-take,
  IsBytes, if◌then◌else◌,
}
use iracing_teleport.Protocol.Header.{delta_bit}
use iracing_teleport.Protocol.Delta.{xor_delta}
use iracing_teleport.Protocol.Delta.Bytewise.{xor_delta-eq-zip_xor, xor_delta_round_trip}
use iracing_teleport.Protocol.Delta.ZipXor.{length-zip_xor}
use iracing_teleport.Telemetry.{irsdk_header_size}
use iracing_teleport.Source
use iracing_teleport.Source.{Source, Payload, frame, encode, uses_delta}
use iracing_teleport.Target.{Target, Effect, wrote, partial, partial_writes, apply_effects}

-- A buffer whose front was written holds what was written.
pub take-overwrite :
    (n : ℕ) (b src : List ℕ) → length src ≡ n → n ≤ length b → take n (overwrite b 0 src) ≡ src
take-overwrite n b src e h =
    ap (λ l. take n l) (overwrite_zero b src (omega arith))
    ∙ take-append n src (drop (length src) b) e

-- What a frame's payload and offset on the wire are.
pub record Sent : Type 0 where
  pub bytes : List ℕ
  pub is_delta : Bool
  pub wire : ℕ

abbrev pub payload : Sent → Payload
payload p = frame p.bytes p.is_delta p.wire

-- The frame that the source sends, as a delta or not.
abbrev pub sent : Bool → ℕ → List ℕ → Source → Sent
sent true off staged s = record {
  bytes = xor_delta staged (take (length staged) s.prev_varbuf) (take (length staged) s.delta_buf);
  is_delta = true;
  wire = off % delta_bit + delta_bit;
}
sent false off staged s = record { bytes = staged; is_delta = false; wire = off }

pub encode-sent :
    (cfg : Source.Config) (off : ℕ) (staged : List ℕ) (s : Source)
    → (encode cfg off staged s).0 ≡ payload (sent (uses_delta cfg s) off staged s)
unfolding encode
encode-sent cfg off staged s = ground arith

pub prev_varbuf-encode :
    (cfg : Source.Config) (off : ℕ) (staged : List ℕ) (s : Source)
    → (encode cfg off staged s).1.prev_varbuf ≡ overwrite s.prev_varbuf 0 staged
unfolding encode
prev_varbuf-encode cfg off staged s = ground arith

-- The bytes that the target rebuilds.
abbrev pub rebuilt : Target → Bool → List ℕ → List ℕ
rebuilt t is_delta dec =
    if is_delta
    then xor_delta dec (take (length dec) t.prev_varbuf) (take (length dec) t.reconstruct_buf)
    else dec

-- A delta has the length of the frame.
length-delta :
    (staged previous output : List ℕ)
    → length previous ≡ length staged
    → length output ≡ length staged
    → IsBytes staged
    → IsBytes previous
    → length (xor_delta staged previous output) ≡ length staged
length-delta staged previous output hp ho b b' =
    ap length (xor_delta-eq-zip_xor staged previous output hp ho b b')
    ∙ length-zip_xor staged previous (sym hp)

length-take_le : (n : ℕ) (l : List ℕ) → n ≤ length l → length (take n l) ≡ n
length-take_le n l h = omega (arith, length-take n l)

-- What a buffer needs to hold for a delta of the staged frame to be computed.
pub record IsReady (staged : List ℕ) (s : Source) (t : Target) : Type 0 where
  pub source_prev : length staged ≤ length s.prev_varbuf
  pub source_delta : length staged ≤ length s.delta_buf
  pub target_prev : length staged ≤ length t.prev_varbuf
  pub target_rebuilt : length staged ≤ length t.reconstruct_buf
  pub staged_bytes : IsBytes staged
  pub prev_bytes : IsBytes (take (length staged) s.prev_varbuf)

pub length-sent :
    (is_delta : Bool) (off : ℕ) (staged : List ℕ) (s : Source) (t : Target)
    → IsReady staged s t
    → length (sent is_delta off staged s).bytes ≡ length staged
length-sent false off staged s t h = refl
length-sent true off staged s t h =
    length-delta staged (take (length staged) s.prev_varbuf) (take (length staged) s.delta_buf)
      (length-take_le (length staged) s.prev_varbuf h.source_prev)
      (length-take_le (length staged) s.delta_buf h.source_delta) h.staged_bytes h.prev_bytes

-- Where both sides hold the same previous frame, or no delta is sent, the target rebuilds the
-- staged frame.
pub rebuilt-sent :
    (is_delta : Bool) (off : ℕ) (staged : List ℕ) (s : Source) (t : Target)
    → IsReady staged s t
    → (take (length staged) s.prev_varbuf ≡ take (length staged) t.prev_varbuf) ⊎ (is_delta ≡ false)
    → rebuilt t is_delta (sent is_delta off staged s).bytes ≡ staged
rebuilt-sent false off staged s t h agree = refl
rebuilt-sent true off staged s t h (inr e) = cc
rebuilt-sent true off staged s t h (inl e) =
    let n = length staged in
    let previous = take n s.prev_varbuf in
    let delta = xor_delta staged previous (take n s.delta_buf) in
    ap (λ k. xor_delta delta (take k t.prev_varbuf) (take k t.reconstruct_buf))
      (length-sent true off staged s t h)
    ∙ ap (λ l. xor_delta delta l (take n t.reconstruct_buf)) (sym e)
    ∙ xor_delta_round_trip staged previous (take n s.delta_buf) (take n t.reconstruct_buf)
        (length-take_le n s.prev_varbuf h.source_prev) (length-take_le n s.delta_buf h.source_delta)
        (length-take_le n t.reconstruct_buf h.target_rebuilt) h.staged_bytes h.prev_bytes

-- What the target did with a frame that it rebuilt.
pub record IsWritten (t t' : Target) (m : List ℕ) (off : ℕ) (staged : List ℕ)
    (effects : List Effect) : Type 0 where
  pub writes : effects ≡ partial_writes off staged
  pub map_written : t'.telemetry ≡ some (apply_effects m (partial_writes off staged))
  pub prev_written : t'.prev_varbuf ≡ overwrite t.prev_varbuf 0 staged
  pub rebuilt_size : length t'.reconstruct_buf ≡ length t.reconstruct_buf
  pub full_kept : t'.has_full_frame ≡ t.has_full_frame

-- A frame that fits into the memory is written.
pub partial_fits :
    (t : Target) (m : List ℕ) (is_delta : Bool) (off : ℕ) (dec staged : List ℕ)
    → rebuilt t is_delta dec ≡ staged
    → length dec ≡ length staged
    → length staged ≤ length t.prev_varbuf
    → irsdk_header_size ≤ length staged
    → off + length staged ≤ length m + irsdk_header_size
    → irsdk_header_size ≤ length m
    → ((partial t m is_delta off (some dec)).0 ≡ wrote (length staged))
      × IsWritten t
          (partial t m is_delta off (some dec)).1
          m
          off
          staged
          (partial t m is_delta off (some dec)).2
unfolding partial
partial_fits t m false off dec staged e hl hp hh hm hm' = ground (arith)
partial_fits t m true off dec staged e hl hp hh hm hm' = ground (
  arith,
  length-overwrite t.reconstruct_buf 0
      (xor_delta dec (take (length dec) t.prev_varbuf) (take (length dec) t.reconstruct_buf)),
)
