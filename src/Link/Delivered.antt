-- ===== src/Link/Delivered.antt =====
-- A message from the sender of teleport/src/protocol.rs to the memory of teleport/src/target.rs: the
-- rounds of the target's loop that receive its datagrams.
use iracing_teleport.Base.{
  ℕ, ◌*◌, ◌^◌, ◌≤◌, ◌<◌, ◌≡◌, ◌≢◌, refl, sym, ap, ap₂, subst, ◌∙◌, List, [], ◌∷◌, ◌++◌, map, true,
  Option, none, some, length,
}
use mathlib.Core.List.{append-nil, cons≢nil, head-eq_of_cons-eq, tail-eq_of_cons-eq}
use iracing_teleport.Control.{Control, running, stopped, failed}
use iracing_teleport.Protocol.Header.{max_payload_per_datagram, max_fragments}
use iracing_teleport.Protocol.Sender.{Sender, send}
use iracing_teleport.Protocol.Sender.Datagrams.{IsSender}
use iracing_teleport.Protocol.Receiver.{Receiver, ingest, ingest_all}
use iracing_teleport.Protocol.Receiver.Valid.{IsReceiver}
use iracing_teleport.Protocol.Receiver.Dropped.{undropped, ingest-undropped}
use iracing_teleport.Protocol.Reassembly.RoundTrip.{deliver, ingest_all-send}
use iracing_teleport.Target.{Effect, Config, Env, Target, write_frame}
use iracing_teleport.Target.Loop.{datagram, recv, step}
use iracing_teleport.Link.Session.{memory}
use iracing_teleport.Link.Unseen.{is_open, write_frame-open}
use iracing_teleport.Link.Rounds.{copies, copies-append, IsSame, IsSame-refl}
use iracing_teleport.Link.Wire.{apply_frame, IsFollowed, recv-IsFollowed}

module _ (decompress_into : List ℕ → Option (List ℕ)) (cfg : Config) (src : ℕ) where
  -- Rounds of the loop that receive one datagram each.
  unfoldable pub recv_all : List (Env × List ℕ) → Target → Control × Target × List Effect
  recv_all [] t = (running, t, [])
  recv_all ((env, d) ∷ rounds) t =
      let (control, t', effects) = step decompress_into cfg env t (datagram d src) in
      let (control', t'', later) = recv_all rounds t' in
      elim control [
        | running ↦ (control', t'', effects ++ later)
        | stopped ↦ (stopped, t', effects)
        | failed e ↦ (failed e, t', effects)
      ]

  -- The frames that a receiver completes, applied one after another, with the copies that they make.
  unfoldable pub apply_all : Receiver → List (Env × List ℕ) → Target → Target × List Effect
  apply_all r [] u = (u, [])
  apply_all r ((env, d) ∷ rounds) u =
      let (r', res) = ingest r d in
      let (u', effects) = apply_frame decompress_into cfg env u res.assembled res.buf_offset in
      let (u'', later) = apply_all r' rounds u' in (u'', effects ++ later)

  pub apply_frame-open :
      (env : Env) (u : Target) (frame : Option (List ℕ)) (off : ℕ)
      → is_open u.telemetry ≡ true
      → is_open (apply_frame decompress_into cfg env u frame off).0.telemetry ≡ true
  unfolding apply_frame
  apply_frame-open env u none off e = e
  apply_frame-open env u (some compressed) off e =
      write_frame-open decompress_into cfg env u (memory u) compressed off e

  -- With the memory open, rounds that receive datagrams go on, and copy into the memory what the
  -- frames that a receiver completes of the same datagrams copy, whatever the datagrams are, if it
  -- starts as the target's receiver but for the count of dropped sequences.
  pub recv_all-apply_all :
      (rounds : List (Env × List ℕ)) (t u : Target) (r : Receiver)
      → IsSame t u
      → is_open u.telemetry ≡ true
      → undropped t.proto ≡ undropped r
      → let (control, t', effects) = recv_all rounds t in
        let (u', copied) = apply_all r rounds u in
        (control ≡ running) × IsSame t' u' × (copies effects ≡ copied)
  unfolding recv_all apply_all step
  recv_all-apply_all [] t u r same open_ proto = (refl, same, refl)
  recv_all-apply_all ((env, d) ∷ rounds) t u r same open_ proto =
      let (r', res) = ingest r d in
      let (same_r, same_res) = ingest-undropped t.proto r d proto in
      let (control, t', effects) = recv decompress_into cfg env t d src in
      let f =
        subst
          (λ x.
            IsFollowed decompress_into cfg (ingest t.proto d).0 (control, t', effects)
              (apply_frame decompress_into cfg env u x.assembled x.buf_offset))
          same_res (recv-IsFollowed decompress_into cfg env t u d src same open_) in
      let (u', copied) = apply_frame decompress_into cfg env u res.assembled res.buf_offset in
      let (control', t'', later) = recv_all rounds t' in
      let (goes_on, same', copied') =
        recv_all-apply_all rounds t' u' r' f.same
          (apply_frame-open env u res.assembled res.buf_offset open_) (f.proto ∙ same_r) in
      let (u'', copied_later) = apply_all r' rounds u' in
      subst
        (λ c.
          let x : Control × Target × List Effect = elim c [
            | running ↦ (control', t'', effects ++ later)
            | stopped ↦ (stopped, t', effects)
            | failed e ↦ (failed e, t', effects)
          ] in
          (x.0 ≡ running) × IsSame x.1 u'' × (copies x.2 ≡ copied ++ copied_later))
        (sym f.goes_on) (goes_on, same', copies-append effects later ∙ ap₂ ◌++◌ f.copied copied')

  -- Datagrams of which nothing is completed change nothing.
  apply_all-none :
      (rounds : List (Env × List ℕ)) (r : Receiver) (u : Target)
      → (ingest_all r (map (λ x. x.1) rounds)).1 ≡ []
      → apply_all r rounds u ≡ (u, [])
  unfolding apply_all apply_frame ingest_all
  apply_all-none [] r u e = refl
  apply_all-none ((env, d) ∷ rounds) r u e =
      let (r', res) = ingest r d in
      let later = (ingest_all r' (map (λ x. x.1) rounds)).1 in
      let rest : Target × List Effect → Target × List Effect =
        λ x. ((apply_all r' rounds x.0).0, x.1 ++ (apply_all r' rounds x.0).1) in
      (elim res.assembled
          as (λ o.
            elim o as (λ _. List (List ℕ × ℕ)) [
              | none ↦ later
              | some payload ↦ (payload, res.buf_offset) ∷ later
            ]
              ≡ []
            → rest (apply_frame decompress_into cfg env u o res.buf_offset) ≡ (u, [])) [
              | none ↦ λ h. apply_all-none rounds r' u h
              | some payload ↦ λ h. absurd (cons≢nil h)
            ])
        e

  -- Datagrams of which one frame is completed apply it.
  apply_all-one :
      (rounds : List (Env × List ℕ)) (r : Receiver) (u : Target) (frame : List ℕ) (off : ℕ)
      → (ingest_all r (map (λ x. x.1) rounds)).1 ≡ (frame, off) ∷ []
      → (env : Env) × (apply_all r rounds u
          ≡ apply_frame decompress_into cfg env u (some frame) off)
  unfolding apply_all apply_frame ingest_all
  apply_all-one [] r u frame off e = absurd (cons≢nil (sym e))
  apply_all-one ((env, d) ∷ rounds) r u frame off e =
      let (r', res) = ingest r d in
      let later = (ingest_all r' (map (λ x. x.1) rounds)).1 in
      let rest : Target × List Effect → Target × List Effect =
        λ x. ((apply_all r' rounds x.0).0, x.1 ++ (apply_all r' rounds x.0).1) in
      let applied : Env → Target × List Effect =
        λ env. apply_frame decompress_into cfg env u (some frame) off in
      (elim res.assembled
          as (λ o.
            elim o as (λ _. List (List ℕ × ℕ)) [
              | none ↦ later
              | some payload ↦ (payload, res.buf_offset) ∷ later
            ]
              ≡ (frame, off) ∷ []
            → (env' : Env) × (rest (apply_frame decompress_into cfg env u o res.buf_offset)
                ≡ applied env')) [
                  | none ↦ λ h. apply_all-one rounds r' u frame off h
                  | some payload ↦ λ h.
                      let (u', effects) =
                        apply_frame decompress_into cfg env u (some payload) res.buf_offset in
                      let frames = head-eq_of_cons-eq h in
                      (
                        env,
                        ap (λ x. (x.0, effects ++ x.1))
                              (apply_all-none rounds r' u' (tail-eq_of_cons-eq h))
                            ∙ ap (λ l. (u', l)) (append-nil effects)
                            ∙ ap (λ x. apply_frame decompress_into cfg env u (some x.0) x.1) frames,
                      )
                ])
        e

  -- A payload that a valid sender cuts into at most 256 datagrams of at most 9000 bytes, and that a
  -- target with an open memory, a valid receiver with room and not in the middle of the sequence number
  -- receives in that order, a datagram in each round: the rounds go on, and leave the target, and copy
  -- into its memory, as `write_frame` of the payload does in one of these rounds, but for statistics,
  -- clock, receiver and requests.
  pub recv_all-send :
      (s : Sender) (t : Target) (rounds : List (Env × List ℕ)) (payload : List ℕ)
      (source_us buf_offset : ℕ)
      → IsSender s
      → IsReceiver t.proto
      → is_open t.telemetry ≡ true
      → 0 < length payload
      → s.payload_per_datagram ≤ max_payload_per_datagram
      → length payload ≤ max_fragments * s.payload_per_datagram
      → source_us < 2 ^ 64
      → buf_offset < 2 ^ 32
      → t.proto.current_seq ≢ some s.sequence
      → length payload ≤ t.proto.max_payload
      → map (λ x. x.1) rounds ≡ (send deliver s payload source_us buf_offset []).2
      → let (control, t', effects) = recv_all rounds t in
        (env : Env) × (let (handled, u, written) =
            write_frame decompress_into cfg env t (memory t) payload buf_offset in
          (control ≡ running) × IsSame t' u × (copies effects ≡ copies written))
  unfolding apply_frame
  recv_all-send s t rounds payload source_us buf_offset v rv open_ some_bytes small few us off other
        fits same =
      let (_, _, whole) =
        ingest_all-send s t.proto payload source_us buf_offset v rv some_bytes small few us off
          other fits in
      let (env, applied) =
        apply_all-one rounds t.proto t payload buf_offset
          (ap (λ ds. (ingest_all t.proto ds).1) same ∙ whole) in
      let (goes_on, same_target, copied) =
        recv_all-apply_all rounds t t t.proto (IsSame-refl t) open_ refl in
      let (control, t', effects) = recv_all rounds t in
      (
        env,
        (goes_on, subst (λ x. IsSame t' x.0) applied same_target, copied ∙ ap (λ x. x.1) applied),
      )
