-- ===== src/Target/Loop.antt =====
-- teleport/src/target.rs, a round of the loop of `run`.
use iracing_teleport.Base.{
  ℕ, ◌-◌, List, [], ◌∷◌, ◌++◌, false, Option, none, some, length, replicate, leb, if◌then◌else◌,
}
use iracing_teleport.Protocol.Sender.{ErrorKind, would_block, timed_out, other, invalid_data}
use iracing_teleport.Protocol.Receiver.{Ingested, ingest}
use iracing_teleport.Control.{Control, running, stopped, failed}
use iracing_teleport.Stats
use iracing_teleport.Telemetry.{max_telemetry_size}
use iracing_teleport.Protocol.Receiver
use iracing_teleport.Target.{
  Effect, create, write, stop_stub, finish_ibt, stale, Config, Env, Target, Handled, continued,
  wrote, unwritten, when, write_frame, after_write, request_resync,
}

-- What `recv_from` and the shutdown channel give to a round.
pub data Input : Type 0 where
  shutdown : Input
  datagram : List ℕ → ℕ → Input
  recv_error : ErrorKind → Input

-- The variables before the loop; the receiver's buffer has the size that lz4_flex names.
unfoldable pub new : ℕ → ℕ → Target
new max_compressed now = record {
  proto = Receiver.new max_compressed;
  prev_varbuf = replicate max_telemetry_size 0;
  reconstruct_buf = replicate max_telemetry_size 0;
  telemetry = none;
  last_update = now;
  stats = Stats.new now;
  seq_start = none;
  has_full_frame = false;
  first_data_called = false;
  source_addr = none;
  last_resync_request = now - 1000000;
  fanalab_stub = false;
}

-- `telemetry` once data arrived: it is created on first use, which can fail.
unfoldable pub open_map : Env → Target → Option (List ℕ × List Effect)
open_map env t = elim t.telemetry [
  | some m ↦ some (m, [])
  | none ↦ elim env.created [ some m ↦ some (m, create ∷ []) | none ↦ none ]
]

-- The end of the round of an assembled frame, by how the frame was handled.
unfoldable pub conclude :
    Config → Env → ℕ → ℕ → Handled × Target × List Effect → Control × Target × List Effect
conclude cfg env compressed_len buf_offset (continued, t, effects) = (running, t, effects)
conclude cfg env compressed_len buf_offset (unwritten, t, effects) =
    let (t', requests) = request_resync env t in (running, t', effects ++ requests)
conclude cfg env compressed_len buf_offset (wrote dec_len, t, effects) =
    let m : List ℕ = elim t.telemetry [ some m ↦ m | none ↦ [] ] in
    let (t', after) = after_write cfg env t compressed_len dec_len buf_offset m in
    let (t'', requests) = request_resync env t' in (running, t'', effects ++ after ++ requests)

module _ (decompress_into : List ℕ → Option (List ℕ)) where
  -- `if let Some(compressed) = res.assembled`
  unfoldable pub assembled : Config → Env → Target → List ℕ → ℕ → Control × Target × List Effect
  assembled cfg env t compressed buf_offset = elim (open_map env t) [
    | none ↦ (failed other, t, [])
    | some (m, created) ↦
        let (handled, t', effects) =
          write_frame decompress_into cfg env (record t { telemetry = some m }) m compressed
            buf_offset in
        conclude cfg env (length compressed) buf_offset (handled, t', created ++ effects)
  ]

  -- The branch `Ok((len, src))`.
  unfoldable pub recv : Config → Env → Target → List ℕ → ℕ → Control × Target × List Effect
  recv cfg env t bytes src =
      let (proto, res) = ingest t.proto bytes in
      let known : Target = record t { proto = proto; source_addr = some src } in
      let started : Target =
        if res.new_seq then record known { seq_start = some env.now } else known in
      let alive = request_resync env (record known { last_update = env.now }) in
      let waiting = request_resync env started in
      if res.heartbeat then (running, alive.0, alive.1) else elim res.assembled [
        | none ↦ (running, waiting.0, waiting.1)
        | some compressed ↦ assembled cfg env started compressed res.buf_offset
      ]

-- The branch of a quiet socket: after the timeout the memory is zeroed and closed.
unfoldable pub idle : Config → Env → Target → Target × List Effect
idle cfg env t = elim t.telemetry [
  | none ↦ (t, [])
  | some m ↦
      if leb cfg.stale_timeout (env.now - t.last_update)
      then (
        record t {
          telemetry = none;
          has_full_frame = false;
          first_data_called = false;
          prev_varbuf = replicate (length t.prev_varbuf) 0;
          fanalab_stub = false;
        },
        when cfg.write_ibt (finish_ibt ∷ [])
            ++ (write 0 (replicate (length m) 0) ∷ [])
            ++ when cfg.has_stale (stale ∷ [])
            ++ when t.fanalab_stub (stop_stub ∷ []),
      )
      else (t, [])
]

module _ (decompress_into : List ℕ → Option (List ℕ)) where
  -- A round of the loop.
  unfoldable pub step : Config → Env → Target → Input → Control × Target × List Effect
  step cfg env t shutdown = (
    stopped,
    record t { fanalab_stub = false },
    when cfg.write_ibt (finish_ibt ∷ []) ++ when t.fanalab_stub (stop_stub ∷ []),
  )
  step cfg env t (datagram bytes src) = recv decompress_into cfg env t bytes src
  step cfg env t (recv_error would_block) =
      let (t', effects) = idle cfg env t in (running, t', effects)
  step cfg env t (recv_error timed_out) =
      let (t', effects) = idle cfg env t in (running, t', effects)
  step cfg env t (recv_error invalid_data) = (failed invalid_data, t, [])
  step cfg env t (recv_error other) = (failed other, t, [])
