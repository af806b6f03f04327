-- ===== src/Link/Unseen.antt =====
-- Rounds of the target that leave its memory closed: the .ibt writer sees nothing of them.
use iracing_teleport.Base.{
  ℕ, ◌≡◌, refl, sym, ap, ◌∙◌, List, [], ◌∷◌, ◌++◌, Bool, true, false, Option, none, some, arith,
  length, ◌%◌, if◌then◌else◌,
}
use iracing_teleport.Control.{Control, running, failed}
use iracing_teleport.Protocol.Sender.{other}
use iracing_teleport.Protocol.Header.{delta_bit}
use iracing_teleport.Protocol.Receiver.{ingest}
use iracing_teleport.Target.{
  Effect, map_update, finish_ibt, Config, Env, Target, Handled, continued, wrote, unwritten,
  write_frame, session_info, partial, is_delta_offset, after_write, record_latency, request_resync,
}
use iracing_teleport.Target.Loop.{open_map, conclude, assembled, recv}

-- An effect that the writer does not see.
abbrev pub IsSilent : Effect → Type 0
IsSilent (map_update m) = ⊥
IsSilent finish_ibt = ⊥
IsSilent _ = Unit

abbrev pub AreSilent : List Effect → Type 0
AreSilent [] = Unit
AreSilent (e ∷ es) = IsSilent e × AreSilent es

abbrev pub is_open : Option (List ℕ) → Bool
is_open none = false
is_open (some m) = true

-- A round that leaves the memory closed found it closed, and the writer sees nothing of it.
pub record KeepsClosed (t t' : Target) (effects : List Effect) : Type 0 where
  pub before : is_open t'.telemetry ≡ false → is_open t.telemetry ≡ false
  pub silent : is_open t'.telemetry ≡ false → AreSilent effects

request_resync-KeepsClosed :
    (env : Env) (t : Target) → KeepsClosed t (request_resync env t).0 (request_resync env t).1
unfolding request_resync
request_resync-KeepsClosed env t = ground arith

session_info-open :
    (cfg : Config) (env : Env) (t : Target) (m : List ℕ) (dec : Option (List ℕ))
    → is_open t.telemetry ≡ true
    → is_open (session_info cfg env t m dec).1.telemetry ≡ true
unfolding session_info
session_info-open cfg env t m none e = e
session_info-open cfg env t m (some prefix) e = ground arith

partial-open :
    (t : Target) (m : List ℕ) (is_delta : Bool) (real_off : ℕ) (dec : Option (List ℕ))
    → is_open t.telemetry ≡ true
    → is_open (partial t m is_delta real_off dec).1.telemetry ≡ true
unfolding partial
partial-open t m is_delta real_off none e = e
partial-open t m is_delta real_off (some dec) e = ground arith

pub write_frame-open :
    (decompress_into : List ℕ → Option (List ℕ)) (cfg : Config) (env : Env) (t : Target)
    (m compressed : List ℕ) (buf_offset : ℕ)
    → is_open t.telemetry ≡ true
    → is_open (write_frame decompress_into cfg env t m compressed buf_offset).1.telemetry ≡ true
unfolding write_frame
write_frame-open decompress_into cfg env t m compressed buf_offset e =
    let dec = decompress_into compressed in
    let s = session_info-open cfg env t m dec e in
    let p = partial-open t m (is_delta_offset buf_offset) (buf_offset % delta_bit) dec e in
    ground arith

conclude-open :
    (cfg : Config) (env : Env) (compressed_len buf_offset : ℕ) (x : Handled) (t : Target)
    (effects : List Effect)
    → is_open t.telemetry ≡ true
    → is_open (conclude cfg env compressed_len buf_offset (x, t, effects)).1.telemetry ≡ true
unfolding conclude request_resync after_write record_latency
conclude-open cfg env compressed_len buf_offset continued t effects e = e
conclude-open cfg env compressed_len buf_offset unwritten t effects e = ground arith
conclude-open cfg env compressed_len buf_offset (wrote n) t effects e = ground arith

open-KeepsClosed :
    (t t' : Target) (effects : List Effect) → is_open t'.telemetry ≡ true → KeepsClosed t t' effects
open-KeepsClosed t t' effects e = ground arith

assembled-KeepsClosed :
    (decompress_into : List ℕ → Option (List ℕ)) (cfg : Config) (env : Env) (t : Target)
    (compressed : List ℕ) (buf_offset : ℕ)
    → let (c, t', effects) = assembled decompress_into cfg env t compressed buf_offset in
      KeepsClosed t t' effects
unfolding assembled
assembled-KeepsClosed decompress_into cfg env t compressed buf_offset =
    elim (open_map env t)
      as (λ o.
        let (c, t', effects) = elim o as (λ _. Control × Target × List Effect) [
          | none ↦ (failed other, t, [])
          | some (m, created) ↦
              let (handled, t', effects) =
                write_frame decompress_into cfg env (record t { telemetry = some m }) m compressed
                  buf_offset in
              conclude cfg env (length compressed) buf_offset (handled, t', created ++ effects)
        ] in
        KeepsClosed t t' effects) [
          | none ↦ record { before = λ e. e; silent = λ e. tt }
          | some (m, created) ↦
              let opened : Target = record t { telemetry = some m } in
              let (handled, t', effects) =
                write_frame decompress_into cfg env opened m compressed buf_offset in
              let still =
                write_frame-open decompress_into cfg env opened m compressed buf_offset refl in
              let (c, t'', effects') =
                conclude cfg env (length compressed) buf_offset (handled, t', created ++ effects) in
              open-KeepsClosed t t'' effects' (
                conclude-open cfg env (length compressed) buf_offset handled t' (created ++ effects)
                  still)
        ]

same-KeepsClosed :
    (t t0 t' : Target) (effects : List Effect)
    → t0.telemetry ≡ t.telemetry
    → KeepsClosed t0 t' effects
    → KeepsClosed t t' effects
same-KeepsClosed t t0 t' effects e k = record {
  before = λ h. ap is_open (sym e) ∙ k.before h;
  silent = k.silent;
}

pub recv-KeepsClosed :
    (decompress_into : List ℕ → Option (List ℕ)) (cfg : Config) (env : Env) (t : Target)
    (bytes : List ℕ) (src : ℕ)
    → let (c, t', effects) = recv decompress_into cfg env t bytes src in KeepsClosed t t' effects
unfolding recv
recv-KeepsClosed decompress_into cfg env t bytes src =
    let (proto, res) = ingest t.proto bytes in
    let known : Target = record t { proto = proto; source_addr = some src } in
    let started : Target =
      if res.new_seq then record known { seq_start = some env.now } else known in
    let same : started.telemetry ≡ t.telemetry = ground arith in
    let alive = request_resync env (record known { last_update = env.now }) in
    let waiting = request_resync env started in
    elim res.heartbeat
      as (λ b.
        let (c, t', effects) = if b then (running, alive.0, alive.1) else elim res.assembled [
          | none ↦ (running, waiting.0, waiting.1)
          | some compressed ↦ assembled decompress_into cfg env started compressed res.buf_offset
        ] in
        KeepsClosed t t' effects) [
          | true ↦
              same-KeepsClosed t (record known { last_update = env.now }) alive.0 alive.1 refl
                (request_resync-KeepsClosed env (record known { last_update = env.now }))
          | false ↦
              elim res.assembled
                as (λ o.
                  let (c, t', effects) = elim o as (λ _. Control × Target × List Effect) [
                    | none ↦ (running, waiting.0, waiting.1)
                    | some compressed ↦
                        assembled decompress_into cfg env started compressed res.buf_offset
                  ] in
                  KeepsClosed t t' effects) [
                    | none ↦
                        same-KeepsClosed t started waiting.0 waiting.1 same
                          (request_resync-KeepsClosed env started)
                    | some compressed ↦
                        let (c, t', effects) =
                          assembled decompress_into cfg env started compressed res.buf_offset in
                        same-KeepsClosed t started t' effects same (
                          assembled-KeepsClosed decompress_into cfg env started compressed
                            res.buf_offset)
                  ]
        ]
