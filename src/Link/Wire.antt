-- ===== src/Link/Wire.antt =====
-- Datagrams at the target: the loop writes what the receiver assembles of them.
use iracing_teleport.Base.{
  ℕ, ◌≡◌, refl, sym, ap, subst, ◌∙◌, List, [], ◌++◌, true, false, Option, none, some, arith, length,
  if◌then◌else◌,
}
use iracing_teleport.Control.{Control, running, failed}
use iracing_teleport.Protocol.Sender.{other}
use iracing_teleport.Protocol.Receiver.{Receiver, ingest}
use iracing_teleport.Protocol.Receiver.Dropped.{undropped, ingest-heartbeat}
use iracing_teleport.Target.{Effect, Config, Env, Target, write_frame, request_resync}
use iracing_teleport.Target.Loop.{open_map, conclude, assembled, recv}
use iracing_teleport.Link.Session.{memory}
use iracing_teleport.Link.Unseen.{is_open}
use iracing_teleport.Link.Rounds.{
  copies, IsSame, IsSame-trans, conclude-IsQuiet, write_frame-IsSame, request_resync-IsSame,
}

module _ (decompress_into : List ℕ → Option (List ℕ)) (cfg : Config) where
  -- What a frame does to a target, if there is one, with the copies that it makes.
  unfoldable pub apply_frame : Env → Target → Option (List ℕ) → ℕ → Target × List Effect
  apply_frame env u none off = (u, [])
  apply_frame env u (some compressed) off =
      let (handled, u', effects) =
        write_frame decompress_into cfg env u (memory u) compressed off in
      (u', copies effects)

  -- A round did what the frame does.
  pub record IsFollowed (r : Receiver) (x : Control × Target × List Effect)
      (y : Target × List Effect) : Type 0 where
    pub goes_on : x.0 ≡ running
    pub same : IsSame x.1 y.0
    pub copied : copies x.2 ≡ y.1
    pub proto : undropped x.1.proto ≡ undropped r

  open_map-memory :
      (env : Env) (t : Target) → is_open t.telemetry ≡ true → open_map env t ≡ some (memory t, [])
  unfolding open_map
  open_map-memory env t e = ground arith

  pub memory-open : (t : Target) → is_open t.telemetry ≡ true → t.telemetry ≡ some (memory t)
  memory-open t e = ground arith

  assembled-IsFollowed :
      (env : Env) (t u : Target) (compressed : List ℕ) (off : ℕ)
      → IsSame t u
      → is_open u.telemetry ≡ true
      → IsFollowed t.proto
          (assembled decompress_into cfg env t compressed off)
          (apply_frame env u (some compressed) off)
  unfolding assembled apply_frame
  assembled-IsFollowed env t u compressed off same e =
      let opened : Target = record t { telemetry = some (memory u) } in
      let same' : IsSame opened u = record {
        telemetry = sym (memory-open u e);
        prev_varbuf = same.prev_varbuf;
        reconstruct_buf = same.reconstruct_buf;
        has_full_frame = same.has_full_frame;
        first_data_called = same.first_data_called;
        fanalab_stub = same.fanalab_stub;
      } in
      let (handled, t', effects) =
        write_frame decompress_into cfg env opened (memory u) compressed off in
      let w = write_frame-IsSame decompress_into cfg env opened u (memory u) compressed off same' in
      let q = conclude-IsQuiet cfg env (length compressed) off handled t' effects in
      let found : open_map env t ≡ some (memory u, []) =
        open_map-memory env t (ap is_open same.telemetry ∙ e)
        ∙ ap (λ o. some (elim o [ some m ↦ m | none ↦ [] ], [])) same.telemetry in
      let y = write_frame decompress_into cfg env u (memory u) compressed off in
      subst
        (λ o.
          IsFollowed t.proto
            (elim o as (λ _. Control × Target × List Effect) [
              | none ↦ (failed other, t, [])
              | some (m, created) ↦
                  let (handled, t', effects) =
                    write_frame decompress_into cfg env (record t { telemetry = some m }) m
                      compressed off in
                  conclude cfg env (length compressed) off (handled, t', created ++ effects)
            ])
            (y.1, copies y.2))
        (sym found)
        (record {
          goes_on = q.goes_on;
          same = IsSame-trans _ t' y.1 q.same w.same;
          copied = q.copied ∙ ap copies w.effects;
          proto = q.proto ∙ ap undropped w.proto;
        })

  -- A round that receives bytes: the frame that the receiver completes with them, if any, is applied,
  -- and the receiver of the target goes on as the receiver alone.
  pub recv-IsFollowed :
      (env : Env) (t u : Target) (bytes : List ℕ) (src : ℕ)
      → IsSame t u
      → is_open u.telemetry ≡ true
      → let (proto, res) = ingest t.proto bytes in
        IsFollowed proto
          (recv decompress_into cfg env t bytes src)
          (apply_frame env u res.assembled res.buf_offset)
  unfolding recv apply_frame
  recv-IsFollowed env t u bytes src same e =
      let (proto, res) = ingest t.proto bytes in
      let known : Target = record t { proto = proto; source_addr = some src } in
      let started : Target =
        if res.new_seq then record known { seq_start = some env.now } else known in
      let awake : Target = record known { last_update = env.now } in
      let started_same : IsSame started u × (started.proto ≡ proto) = ground arith in
      let awake_same : IsSame awake u = ground arith in
      let quiet : (x : Target)
          → IsSame x u
          → x.proto ≡ proto
          → IsFollowed proto (running, (request_resync env x).0, (request_resync env x).1) (u, []) =
        λ x x_same x_proto.
          let (kept, silent, same_proto) = request_resync-IsSame env x in
          record {
            goes_on = refl;
            same = IsSame-trans _ x u kept x_same;
            copied = silent;
            proto = ap undropped (same_proto ∙ x_proto);
          } in
      let alive = request_resync env awake in
      let waiting = request_resync env started in
      let outcome : Option (List ℕ) → Control × Target × List Effect = λ o. elim o [
        | none ↦ (running, waiting.0, waiting.1)
        | some compressed ↦ assembled decompress_into cfg env started compressed res.buf_offset
      ] in
      let without : (o : Option (List ℕ))
          → IsFollowed proto (outcome o) (apply_frame env u o res.buf_offset) =
        λ o. elim o as (λ o. IsFollowed proto (outcome o) (apply_frame env u o res.buf_offset)) [
          | none ↦ quiet started started_same.0 started_same.1
          | some compressed ↦
              let f =
                assembled-IsFollowed env started u compressed res.buf_offset started_same.0 e in
              record {
                goes_on = f.goes_on;
                same = f.same;
                copied = f.copied;
                proto = f.proto ∙ ap undropped started_same.1;
              }
        ] in
      let with_heartbeat : res.heartbeat ≡ true
          → IsFollowed proto (running, alive.0, alive.1)
              (apply_frame env u res.assembled res.buf_offset) =
        λ h.
          subst
            (λ o. IsFollowed proto (running, alive.0, alive.1) (apply_frame env u o res.buf_offset))
            (sym (ingest-heartbeat t.proto bytes h)) (quiet awake awake_same refl) in
      (elim res.heartbeat
          as (λ b.
            (res.heartbeat ≡ b)
            → IsFollowed proto (if b then (running, alive.0, alive.1) else outcome res.assembled)
                (apply_frame env u res.assembled res.buf_offset)) [
                  | true ↦ with_heartbeat
                  | false ↦ λ _. without res.assembled
                ])
        refl
