-- ===== src/Target/Valid.antt =====
-- What holds of the target's variables in every round (teleport/src/target.rs): its buffers keep
-- their sizes, and partial frames are accepted only while the shared memory is there.
use iracing_teleport.Base.{
  ℕ, ◌%◌, ◌≡◌, refl, ap, subst, if◌then◌else◌, List, [], ◌∷◌, ◌++◌, Bool, true, false, Option, none,
  some, arith, length, length-replicate,
}
use iracing_teleport.Protocol.Sender.{would_block, timed_out, other, invalid_data}
use iracing_teleport.Protocol.Receiver.{ingest}
use iracing_teleport.Protocol.Receiver.Valid.{new-IsReceiver, ingest-IsReceiver}
use iracing_teleport.Protocol.Header.{delta_bit}
use iracing_teleport.Telemetry.{max_telemetry_size}
use iracing_teleport.Control.{Control, running}
use iracing_teleport.Target.{
  Target, Config, Env, Effect, create, Handled, wrote, continued, unwritten, session_info,
  write_frame, record_latency, after_write, request_resync, is_delta_offset,
}
use iracing_teleport.Target.Loop.{
  Input, shutdown, datagram, recv_error, new, open_map, conclude, assembled, recv, idle, step,
}
use iracing_teleport.Target.Sizes.{
  IsMap, IsTarget, partial-IsTarget, record_latency-IsTarget, request_resync-IsTarget,
  session_info-IsTarget,
}

-- The branches of `recv`: a heartbeat, no frame yet, a frame.
recv_branches :
    (heartbeat : Bool) (frame : Option (List ℕ)) (alive waiting : Control × Target × List Effect)
    (write_it : List ℕ → Control × Target × List Effect)
    → IsTarget alive.1
    → IsTarget waiting.1
    → ((c : List ℕ) → IsTarget (write_it c).1)
    → IsTarget (if heartbeat then alive else elim frame [ none ↦ waiting | some c ↦ write_it c ]).1
recv_branches true frame alive waiting write_it v v' v'' = v
recv_branches false none alive waiting write_it v v' v'' = v'
recv_branches false (some c) alive waiting write_it v v' v'' = v'' c

module _ (decompress_into : List ℕ → Option (List ℕ)) where
  write_frame-IsTarget :
      (cfg : Config) (env : Env) (t : Target) (m c : List ℕ) (off : ℕ)
      → IsTarget t
      → length m ≡ max_telemetry_size
      → IsTarget (write_frame decompress_into cfg env t m c off).1
  unfolding write_frame
  write_frame-IsTarget cfg env t m c off v hm = ground (
    arith,
    session_info-IsTarget cfg env t m (decompress_into c) v hm,
    partial-IsTarget t m (is_delta_offset off) (off % delta_bit) (decompress_into c) v hm,
  )

  after_write-IsTarget :
      (cfg : Config) (env : Env) (t : Target) (a b c : ℕ) (m : List ℕ)
      → IsTarget t
      → IsTarget (after_write cfg env t a b c m).0
  unfolding after_write
  after_write-IsTarget cfg env t a b c m v =
      let v' = record_latency-IsTarget env t a b c v in
      record {
        receiver = v'.receiver;
        prev_size = v'.prev_size;
        rebuilt_size = v'.rebuilt_size;
        map_size = v'.map_size;
        mapped = v'.mapped;
      }

  conclude-IsTarget :
      (cfg : Config) (env : Env) (a off : ℕ) (handled : Handled) (t : Target) (es : List Effect)
      → IsTarget t
      → IsTarget (conclude cfg env a off (handled, t, es)).1
  unfolding conclude
  conclude-IsTarget cfg env a off continued t es v = v
  conclude-IsTarget cfg env a off unwritten t es v = request_resync-IsTarget env t v
  conclude-IsTarget cfg env a off (wrote n) t es v =
      let m : List ℕ = elim t.telemetry [ some m ↦ m | none ↦ [] ] in
      request_resync-IsTarget env (after_write cfg env t a n off m).0
        (after_write-IsTarget cfg env t a n off m v)

  assembled_in :
      (cfg : Config) (env : Env) (t : Target) (c : List ℕ) (off : ℕ) (m : List ℕ) (es : List Effect)
      → length m ≡ max_telemetry_size
      → IsTarget t
      → let (handled, t', effects) =
          write_frame decompress_into cfg env (record t { telemetry = some m }) m c off in
        IsTarget (conclude cfg env (length c) off (handled, t', es ++ effects)).1
  assembled_in cfg env t c off m es hm v =
      let t0 : Target = record t { telemetry = some m } in
      let v0 : IsTarget t0 = record {
        receiver = v.receiver;
        prev_size = v.prev_size;
        rebuilt_size = v.rebuilt_size;
        map_size = hm;
        mapped = tt;
      } in
      let (handled, t', effects) = write_frame decompress_into cfg env t0 m c off in
      conclude-IsTarget cfg env (length c) off handled t' (es ++ effects)
        (write_frame-IsTarget cfg env t0 m c off v0 hm)

  -- The branches of `open_map`, which reads `held` and `created`.
  assembled_from :
      (cfg : Config) (env : Env) (t : Target) (c : List ℕ) (off : ℕ)
      (held created : Option (List ℕ))
      → t.telemetry ≡ held
      → env.created ≡ created
      → IsMap held
      → IsMap created
      → IsTarget t
      → IsTarget (assembled decompress_into cfg env t c off).1
  unfolding assembled open_map write_frame session_info conclude after_write request_resync
      record_latency
  assembled_from cfg env t c off (some m) created e e' hm hm' v =
      rw e (assembled_in cfg env t c off m [] hm v)
  assembled_from cfg env t c off none (some m) e e' hm hm' v =
      rw (e, e') (assembled_in cfg env t c off m (create ∷ []) hm' v)
  assembled_from cfg env t c off none none e e' hm hm' v =
      let same : t ≡ record t { telemetry = none } = ap (λ o. record t { telemetry = o }) e in
      rw (e, e') (subst IsTarget same v)

  assembled-IsTarget :
      (cfg : Config) (env : Env) (t : Target) (c : List ℕ) (off : ℕ)
      → IsMap env.created
      → IsTarget t
      → IsTarget (assembled decompress_into cfg env t c off).1
  assembled-IsTarget cfg env t c off created v =
      assembled_from cfg env t c off t.telemetry env.created refl refl v.map_size created v

  recv-IsTarget :
      (cfg : Config) (env : Env) (t : Target) (bytes : List ℕ) (src : ℕ)
      → IsMap env.created
      → IsTarget t
      → IsTarget (recv decompress_into cfg env t bytes src).1
  unfolding recv
  recv-IsTarget cfg env t bytes src created v =
      let (proto, res) = ingest t.proto bytes in
      let received = ingest-IsReceiver t.proto bytes v.receiver in
      let known : Target = record t { proto = proto; source_addr = some src } in
      let alive : Target = record known { last_update = env.now } in
      let started : Target =
        if res.new_seq then record known { seq_start = some env.now } else known in
      let alive_valid : IsTarget alive = ground arith in
      let started_valid : IsTarget started = ground arith in
      recv_branches res.heartbeat res.assembled
        (running, (request_resync env alive).0, (request_resync env alive).1)
        (running, (request_resync env started).0, (request_resync env started).1)
        (λ c. assembled decompress_into cfg env started c res.buf_offset)
        (request_resync-IsTarget env alive alive_valid)
        (request_resync-IsTarget env started started_valid)
        (λ c. assembled-IsTarget cfg env started c res.buf_offset created started_valid)

idle-IsTarget : (cfg : Config) (env : Env) (t : Target) → IsTarget t → IsTarget (idle cfg env t).0
unfolding idle
idle-IsTarget cfg env t v = ground (arith, length-replicate {A = ℕ} (length t.prev_varbuf) 0)

pub new-IsTarget : (max_compressed now : ℕ) → IsTarget (new max_compressed now)
unfolding new
new-IsTarget max_compressed now = record {
  receiver = new-IsReceiver max_compressed;
  prev_size = length-replicate {A = ℕ} max_telemetry_size 0;
  rebuilt_size = length-replicate {A = ℕ} max_telemetry_size 0;
  map_size = tt;
  mapped = refl;
}

-- Each round, whatever it receives, keeps a valid target valid, if a shared memory that is created
-- in it has max_telemetry_size bytes.
pub step-IsTarget :
    (decompress_into : List ℕ → Option (List ℕ)) (cfg : Config) (env : Env) (t : Target)
    (input : Input)
    → IsMap env.created
    → IsTarget t
    → IsTarget (step decompress_into cfg env t input).1
unfolding step
step-IsTarget decompress_into cfg env t shutdown created v = record {
  receiver = v.receiver;
  prev_size = v.prev_size;
  rebuilt_size = v.rebuilt_size;
  map_size = v.map_size;
  mapped = v.mapped;
}
step-IsTarget decompress_into cfg env t (datagram bytes src) created v =
    recv-IsTarget decompress_into cfg env t bytes src created v
step-IsTarget decompress_into cfg env t (recv_error would_block) created v =
    idle-IsTarget cfg env t v
step-IsTarget decompress_into cfg env t (recv_error timed_out) created v = idle-IsTarget cfg env t v
step-IsTarget decompress_into cfg env t (recv_error invalid_data) created v = v
step-IsTarget decompress_into cfg env t (recv_error other) created v = v
