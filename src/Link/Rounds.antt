-- ===== src/Link/Rounds.antt =====
-- A round of the target's loop, seen as what it does with a frame: statistics, clock, receiver and
-- requests left aside.
use iracing_teleport.Base.{
  ℕ, ◌%◌, ◌≡◌, refl, sym, ap, ◌∙◌, List, [], ◌∷◌, ◌++◌, Bool, true, false, Option, none, some,
  arith, ◌==◌, if◌then◌else◌, subst, inl, inr, Bool-cases,
}
use mathlib.Core.List.{append-nil}
use iracing_teleport.Control.{Control, running}
use iracing_teleport.Protocol.Header.{delta_bit, u32_max}
use iracing_teleport.Protocol.Receiver.Dropped.{undropped}
use iracing_teleport.Target.{
  Effect, write, Config, Env, Target, Handled, continued, wrote, unwritten, when, write_frame,
  session_info, partial, is_delta_offset, after_write, record_latency, request_resync,
}
use iracing_teleport.Target.Loop.{conclude}

-- The copies into the memory.
abbrev pub copies : List Effect → List Effect
copies [] = []
copies (write at src ∷ es) = write at src ∷ copies es
copies (_ ∷ es) = copies es

-- Two targets that a frame finds the same.
pub record IsSame (t u : Target) : Type 0 where
  pub telemetry : t.telemetry ≡ u.telemetry
  pub prev_varbuf : t.prev_varbuf ≡ u.prev_varbuf
  pub reconstruct_buf : t.reconstruct_buf ≡ u.reconstruct_buf
  pub has_full_frame : t.has_full_frame ≡ u.has_full_frame
  pub first_data_called : t.first_data_called ≡ u.first_data_called
  pub fanalab_stub : t.fanalab_stub ≡ u.fanalab_stub

-- The same target with the other fields of another.
abbrev over : Target → Target → Target
over t u = record u {
  proto = t.proto;
  last_update = t.last_update;
  stats = t.stats;
  seq_start = t.seq_start;
  source_addr = t.source_addr;
  last_resync_request = t.last_resync_request;
}

over-IsSame : (t u : Target) → IsSame t u → over t u ≡ t
over-IsSame t u e = λ k. record t {
  telemetry = sym e.telemetry k;
  prev_varbuf = sym e.prev_varbuf k;
  reconstruct_buf = sym e.reconstruct_buf k;
  has_full_frame = sym e.has_full_frame k;
  first_data_called = sym e.first_data_called k;
  fanalab_stub = sym e.fanalab_stub k;
}

-- The same outcome of a frame, but for the other fields, which stay.
pub record IsSameHandled (t : Target) (a b : Handled × Target × List Effect) : Type 0 where
  pub handled : a.0 ≡ b.0
  pub same : IsSame a.1 b.1
  pub effects : a.2 ≡ b.2
  pub proto : a.1.proto ≡ t.proto

session_info-over :
    (cfg : Config) (env : Env) (t u : Target) (m : List ℕ) (dec : Option (List ℕ))
    → IsSameHandled t (session_info cfg env (over t u) m dec) (session_info cfg env u m dec)
unfolding session_info
session_info-over cfg env t u m none = ground arith
session_info-over cfg env t u m (some prefix) = ground arith

partial-over :
    (t u : Target) (m : List ℕ) (is_delta : Bool) (off : ℕ) (dec : Option (List ℕ))
    → IsSameHandled t (partial (over t u) m is_delta off dec) (partial u m is_delta off dec)
unfolding partial
partial-over t u m is_delta off none = ground arith
partial-over t u m is_delta off (some dec) = ground arith

pub request_resync-IsSame :
    (env : Env) (t : Target)
    → let (t', es) = request_resync env t in IsSame t' t × (copies es ≡ []) × (t'.proto ≡ t.proto)
unfolding request_resync
request_resync-IsSame env t = ground arith

module _ (decompress_into : List ℕ → Option (List ℕ)) where
  write_frame-over :
      (cfg : Config) (env : Env) (t u : Target) (m compressed : List ℕ) (off : ℕ)
      → IsSameHandled t
          (write_frame decompress_into cfg env (over t u) m compressed off)
          (write_frame decompress_into cfg env u m compressed off)
  unfolding write_frame
  write_frame-over cfg env t u m compressed off =
      let dec = decompress_into compressed in
      let s = session_info-over cfg env t u m dec in
      let p = partial-over t u m (is_delta_offset off) (off % delta_bit) dec in
      elim (Bool-cases (off == u32_max)) [
        | inl prefix ↦ rw prefix s
        | inr other ↦
            rw other
              (elim u.has_full_frame
                as (λ b.
                  let real_off = off % delta_bit in
                  let is_delta = is_delta_offset off in
                  IsSameHandled t
                    (if b
                      then partial (over t u) m is_delta real_off dec
                      else (unwritten, over t u, []))
                    (if b then partial u m is_delta real_off dec else (unwritten, u, []))) [
                      | true ↦ p
                      | false ↦ ground arith
                    ])
      ]

  pub write_frame-IsSame :
      (cfg : Config) (env : Env) (t u : Target) (m compressed : List ℕ) (off : ℕ)
      → IsSame t u
      → IsSameHandled t
          (write_frame decompress_into cfg env t m compressed off)
          (write_frame decompress_into cfg env u m compressed off)
  write_frame-IsSame cfg env t u m compressed off e =
      subst
        (λ x.
          IsSameHandled t (write_frame decompress_into cfg env x m compressed off)
            (write_frame decompress_into cfg env u m compressed off))
        (over-IsSame t u e) (write_frame-over cfg env t u m compressed off)

pub copies-append : (xs ys : List Effect) → copies (xs ++ ys) ≡ copies xs ++ copies ys
copies-append [] ys = refl
copies-append (x ∷ xs) ys =
    let ih = copies-append xs ys in
    elim x as (λ e. copies ((e ∷ xs) ++ ys) ≡ copies (e ∷ xs) ++ copies ys) [
      | write at src ↦ ap (λ es. write at src ∷ es) ih
      | _ ↦ ih
    ]

-- The end of a round: the loop goes on, and a frame finds the target as before.
pub record IsQuiet (t : Target) (effects : List Effect) (x : Control × Target × List Effect)
    : Type 0 where
  pub goes_on : x.0 ≡ running
  pub same : IsSame x.1 t
  pub copied : copies x.2 ≡ copies effects
  pub proto : undropped x.1.proto ≡ undropped t.proto

after_write-IsSame :
    (cfg : Config) (env : Env) (t : Target) (compressed_len dec_len off : ℕ) (m : List ℕ)
    → let (t', es) = after_write cfg env t compressed_len dec_len off m in
      IsSame t' t × (copies es ≡ []) × (undropped t'.proto ≡ undropped t.proto)
unfolding after_write record_latency when
after_write-IsSame cfg env t compressed_len dec_len off m = ground arith

pub IsSame-refl : (t : Target) → IsSame t t
IsSame-refl t = record {
  telemetry = refl;
  prev_varbuf = refl;
  reconstruct_buf = refl;
  has_full_frame = refl;
  first_data_called = refl;
  fanalab_stub = refl;
}

pub IsSame-trans : (t u v : Target) → IsSame t u → IsSame u v → IsSame t v
IsSame-trans t u v a b = record {
  telemetry = a.telemetry ∙ b.telemetry;
  prev_varbuf = a.prev_varbuf ∙ b.prev_varbuf;
  reconstruct_buf = a.reconstruct_buf ∙ b.reconstruct_buf;
  has_full_frame = a.has_full_frame ∙ b.has_full_frame;
  first_data_called = a.first_data_called ∙ b.first_data_called;
  fanalab_stub = a.fanalab_stub ∙ b.fanalab_stub;
}

copies-silent : (xs ys : List Effect) → copies ys ≡ [] → copies (xs ++ ys) ≡ copies xs
copies-silent xs ys e = copies-append xs ys ∙ ap (λ l. copies xs ++ l) e ∙ append-nil (copies xs)

pub conclude-IsQuiet :
    (cfg : Config) (env : Env) (compressed_len off : ℕ) (handled : Handled) (t : Target)
    (effects : List Effect)
    → IsQuiet t effects (conclude cfg env compressed_len off (handled, t, effects))
unfolding conclude
conclude-IsQuiet cfg env compressed_len off continued t effects = record {
  goes_on = refl;
  same = IsSame-refl t;
  copied = refl;
  proto = refl;
}
conclude-IsQuiet cfg env compressed_len off unwritten t effects =
    let (t', requests) = request_resync env t in
    let (same, silent, proto) = request_resync-IsSame env t in
    record {
      goes_on = refl;
      same = same;
      copied = copies-silent effects requests silent;
      proto = ap undropped proto;
    }
conclude-IsQuiet cfg env compressed_len off (wrote dec_len) t effects =
    let m : List ℕ = elim t.telemetry [ some m ↦ m | none ↦ [] ] in
    let (t', after) = after_write cfg env t compressed_len dec_len off m in
    let (same, silent, proto) = after_write-IsSame cfg env t compressed_len dec_len off m in
    let (t'', requests) = request_resync env t' in
    let (same', silent', proto') = request_resync-IsSame env t' in
    record {
      goes_on = refl;
      same = IsSame-trans t'' t' t same' same;
      copied =
          copies-silent (effects ++ after) requests silent' ∙ copies-silent effects after silent;
      proto = ap undropped proto' ∙ proto;
    }
