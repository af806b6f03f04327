-- ===== src/Target/Sizes.antt =====
-- What holds of the variables of the loop of teleport/src/target.rs, and its parts that leave it so.
use iracing_teleport.Base.{
  ℕ, ◌≡◌, refl, ◌∙◌, List, [], ◌∷◌, Bool, true, false, Option, none, some, arith, length, take,
  length-overwrite, length-replicate,
}
use iracing_teleport.Protocol.Receiver.Valid.{IsReceiver}
use iracing_teleport.Protocol.Delta.{xor_delta}
use iracing_teleport.Telemetry.{max_telemetry_size}
use iracing_teleport.Target.{
  Target, Config, Env, Effect, session_info, partial, record_latency, request_resync, apply_effects,
  write, apply_effect, prefix_writes, partial_writes,
}

-- A shared memory, if there is one, has the size that the target asked for.
abbrev pub IsMap : Option (List ℕ) → Type 0
IsMap none = Unit
IsMap (some m) = length m ≡ max_telemetry_size

-- A full frame was received only if there is a shared memory.
abbrev pub IsMapped : Option (List ℕ) → Bool → Type 0
IsMapped none full = full ≡ false
IsMapped (some m) full = Unit

pub record IsTarget (t : Target) : Type 0 where
  pub receiver : IsReceiver t.proto
  pub prev_size : length t.prev_varbuf ≡ max_telemetry_size
  pub rebuilt_size : length t.reconstruct_buf ≡ max_telemetry_size
  pub map_size : IsMap t.telemetry
  pub mapped : IsMapped t.telemetry t.has_full_frame

length-apply_effect : (m : List ℕ) (e : Effect) → length (apply_effect m e) ≡ length m
unfolding apply_effect
length-apply_effect m e = elim e as (λ k. length (apply_effect m k) ≡ length m) [
  | write at src ↦ length-overwrite m at src
  | _ ↦ refl
]

pub length-apply_effects : (m : List ℕ) (es : List Effect) → length (apply_effects m es) ≡ length m
unfolding apply_effects
length-apply_effects m [] = refl
length-apply_effects m (e ∷ es) =
    length-apply_effects (apply_effect m e) es ∙ length-apply_effect m e

pub session_info-IsTarget :
    (cfg : Config) (env : Env) (t : Target) (m : List ℕ) (dec : Option (List ℕ))
    → IsTarget t
    → length m ≡ max_telemetry_size
    → IsTarget (session_info cfg env t m dec).1
unfolding session_info
session_info-IsTarget cfg env t m none v hm = v
session_info-IsTarget cfg env t m (some bytes) v hm = ground (
  arith,
  length-replicate {A = ℕ} (length t.prev_varbuf) 0,
  length-apply_effects m (prefix_writes m bytes),
)

pub partial-IsTarget :
    (t : Target) (m : List ℕ) (is_delta : Bool) (off : ℕ) (dec : Option (List ℕ))
    → IsTarget t
    → length m ≡ max_telemetry_size
    → IsTarget (partial t m is_delta off dec).1
unfolding partial
partial-IsTarget t m is_delta off none v hm = v
partial-IsTarget t m false off (some dec) v hm =
    ground
      (arith, length-overwrite t.prev_varbuf 0 dec, length-apply_effects m (partial_writes off dec))
partial-IsTarget t m true off (some dec) v hm =
    let rebuilt =
      xor_delta dec (take (length dec) t.prev_varbuf) (take (length dec) t.reconstruct_buf) in
    ground (
      arith,
      length-overwrite t.prev_varbuf 0 rebuilt,
      length-overwrite t.reconstruct_buf 0 rebuilt,
      length-apply_effects m (partial_writes off rebuilt),
    )

pub record_latency-IsTarget :
    (env : Env) (t : Target) (a b c : ℕ) → IsTarget t → IsTarget (record_latency env t a b c)
unfolding record_latency
record_latency-IsTarget env t a b c v = ground arith

pub request_resync-IsTarget :
    (env : Env) (t : Target) → IsTarget t → IsTarget (request_resync env t).0
unfolding request_resync
request_resync-IsTarget env t v = ground arith
