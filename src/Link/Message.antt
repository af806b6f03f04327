-- ===== src/Link/Message.antt =====
-- Message after message, from the sender of teleport/src/protocol.rs to the memory of
-- teleport/src/target.rs: how sender and target stand between two messages.
use iracing_teleport.Base.{
  ℕ, suc, ◌+◌, ◌-◌, ◌*◌, ◌%◌, ◌^◌, ◌≤◌, ◌<◌, ◌≡◌, ◌≢◌, refl, sym, ap, subst, ◌∙◌, inl, inr, List,
  [], ◌∷◌, ◌++◌, map, true, Option, some, arith, length, append_assoc,
}
use mathlib.Core.Path.{subst₂}
use mathlib.Core.List.{cons≢nil, head-eq_of_cons-eq, tail-eq_of_cons-eq}
use iracing_teleport.Control.{Control, running, stopped, failed}
use iracing_teleport.Protocol.Header.{max_payload_per_datagram, max_fragments}
use iracing_teleport.Protocol.Sender.{Sender, send}
use iracing_teleport.Protocol.Sender.Datagrams.{IsSender, send_refines, datagrams}
use iracing_teleport.Protocol.Receiver.{Receiver, ingest, ingest_all}
use iracing_teleport.Protocol.Receiver.Valid.{IsReceiver}
use iracing_teleport.Protocol.Receiver.Dropped.{undropped, ingest-undropped}
use iracing_teleport.Protocol.Reassembly.Message.{IsFitting}
use iracing_teleport.Protocol.Reassembly.RoundTrip.{
  deliver, message_of, message_of-IsFitting, send-datagrams,
}
use iracing_teleport.Protocol.Reassembly.Current.{
  IsCurrent, ingest_all-IsCurrent, ingest_all-IsReceiver, max_payload-ingest_all,
  undropped-IsReceiver,
}
use iracing_teleport.Target.{Effect, Config, Env, Target, write_frame}
use iracing_teleport.Target.Loop.{datagram, recv, step}
use iracing_teleport.Link.Session.{memory}
use iracing_teleport.Link.Unseen.{is_open, write_frame-open}
use iracing_teleport.Link.Rounds.{copies, IsSame, IsSame-refl}
use iracing_teleport.Link.Wire.{recv-IsFollowed}
use iracing_teleport.Link.Delivered.{recv_all, recv_all-send, apply_frame-open}

-- Sender and target are ready for any message of at most `bound` bytes.
pub record IsLive (bound : ℕ) (s : Sender) (t : Target) : Type 0 where
  pub sender_valid : IsSender s
  pub receiver_valid : IsReceiver t.proto
  pub opened : is_open t.telemetry ≡ true
  pub small : s.payload_per_datagram ≤ max_payload_per_datagram
  pub few : bound ≤ max_fragments * s.payload_per_datagram
  pub fresh : t.proto.current_seq ≢ some s.sequence
  pub room : bound ≤ t.proto.max_payload

-- The receiver alone, after datagrams that it takes as another but for the count.
ingest_all-undropped :
    (r r' : Receiver) (ds : List (List ℕ))
    → undropped r ≡ undropped r'
    → undropped (ingest_all r ds).0 ≡ undropped (ingest_all r' ds).0
unfolding ingest_all
ingest_all-undropped r r' [] e = e
ingest_all-undropped r r' (d ∷ ds) e =
    ingest_all-undropped (ingest r d).0 (ingest r' d).0 ds (ingest-undropped r r' d e).0

-- A number of 32 bits is not its successor.
next_sequence : (q : ℕ) (o : Option ℕ) → q < 2 ^ 32 → IsCurrent o q → o ≢ some ((q + 1) % 2 ^ 32)
next_sequence q o h (inl e) = cc
next_sequence q o h (inr e) = ground arith

-- A list of rounds whose datagrams are those of two lists falls into two.
pub split_rounds {ℓ κ} :
    {A : Type ℓ} {B : Type κ} (f : A → B) (ds ds' : List B) (rounds : List A)
    → map f rounds ≡ ds ++ ds'
    → (xs : List A) × (ys : List A) × (rounds ≡ xs ++ ys) × (map f xs ≡ ds) × (map f ys ≡ ds')
split_rounds f [] ds' rounds e = ([], rounds, refl, refl, e)
split_rounds f (d ∷ ds) ds' [] e = absurd (cons≢nil (sym e))
split_rounds f (d ∷ ds) ds' (x ∷ rounds) e =
    let (xs, ys, split, front, back) = split_rounds f ds ds' rounds (tail-eq_of_cons-eq e) in
    (
      x ∷ xs,
      ys,
      ap (λ l. x ∷ l) split,
      ap (λ l. f x ∷ l) front ∙ ap (λ y. y ∷ ds) (head-eq_of_cons-eq e),
      back,
    )

message-IsCurrent :
    (s : Sender) (r : Receiver) (payload : List ℕ) (source_us buf_offset : ℕ) (ds : List (List ℕ))
    → IsSender s
    → IsFitting (message_of s payload source_us buf_offset)
    → ds ≡ (send deliver s payload source_us buf_offset []).2
    → IsCurrent (ingest_all r ds).0.current_seq s.sequence
message-IsCurrent s r payload source_us buf_offset ds v f e =
    let m = message_of s payload source_us buf_offset in
    let some_piece : suc (m.n - 1) ≡ m.n = omega (arith, f.some_piece) in
    let same : datagrams m.sequence m.ppd payload source_us buf_offset m.n (suc (m.n - 1)) 0 ≡ ds =
      ap (λ k. datagrams m.sequence m.ppd payload source_us buf_offset m.n k 0) some_piece
      ∙ sym (ap (λ x. x.2) (send-datagrams s payload source_us buf_offset v f))
      ∙ sym e in
    subst (λ l. IsCurrent (ingest_all r l).0.current_seq s.sequence) same
      (ingest_all-IsCurrent m f r (m.n - 1) 0 (omega arith))

module _ (decompress_into : List ℕ → Option (List ℕ)) (cfg : Config) (src : ℕ) where
  -- The receiver of the target is as the receiver alone, but for the count.
  recv_all-proto :
      (rounds : List (Env × List ℕ)) (t : Target)
      → is_open t.telemetry ≡ true
      → undropped (recv_all decompress_into cfg src rounds t).1.proto
        ≡ undropped (ingest_all t.proto (map (λ x. x.1) rounds)).0
  unfolding recv_all step ingest_all
  recv_all-proto [] t open_ = refl
  recv_all-proto ((env, d) ∷ rounds) t open_ =
      let (r', res) = ingest t.proto d in
      let (control, t', effects) = recv decompress_into cfg env t d src in
      let f = recv-IsFollowed decompress_into cfg env t t d src (IsSame-refl t) open_ in
      let open' : is_open t'.telemetry ≡ true =
        ap is_open f.same.telemetry
        ∙ apply_frame-open decompress_into cfg src env t res.assembled res.buf_offset open_ in
      let (control', t'', later) = recv_all decompress_into cfg src rounds t' in
      let expected = undropped (ingest_all r' (map (λ x. x.1) rounds)).0 in
      subst
        (λ c.
          let x : Control × Target × List Effect = elim c [
            | running ↦ (control', t'', effects ++ later)
            | stopped ↦ (stopped, t', effects)
            | failed e ↦ (failed e, t', effects)
          ] in
          undropped x.1.proto ≡ expected)
        (sym f.goes_on)
        (recv_all-proto rounds t' open'
          ∙ ingest_all-undropped t'.proto r' (map (λ x. x.1) rounds) f.proto)

  -- Rounds after rounds that go on.
  pub recv_all-append :
      (xs ys : List (Env × List ℕ)) (t : Target)
      → (recv_all decompress_into cfg src xs t).0 ≡ running
      → let (_, t', effects) = recv_all decompress_into cfg src xs t in
        let (control, t'', later) = recv_all decompress_into cfg src ys t' in
        recv_all decompress_into cfg src (xs ++ ys) t ≡ (control, t'', effects ++ later)
  unfolding recv_all
  recv_all-append [] ys t e = refl
  recv_all-append ((env, d) ∷ xs) ys t e =
      let (c, t', effects) = step decompress_into cfg env t (datagram d src) in
      let (_, u, later) = recv_all decompress_into cfg src xs t' in
      let (_, _, last) = recv_all decompress_into cfg src ys u in
      ground (arith, recv_all-append xs ys t', append_assoc effects later last)

  -- What a message leaves: its frame applied as by `write_frame`, and both sides ready for the next.
  pub record IsRelayed (bound : ℕ) (t u : Target) (s' : Sender) (x : Control × Target × List Effect)
      (written : List Effect) : Type 0 where
    pub goes_on : x.0 ≡ running
    pub same : IsSame x.1 u
    pub copied : copies x.2 ≡ copies written
    pub live : IsLive bound s' x.1

  -- A message of at most `bound` bytes, of which a target receives the datagrams.
  pub recv_all-IsRelayed :
      (bound : ℕ) (s : Sender) (t : Target) (rounds : List (Env × List ℕ)) (payload : List ℕ)
      (source_us buf_offset : ℕ)
      → IsLive bound s t
      → 0 < length payload
      → length payload ≤ bound
      → source_us < 2 ^ 64
      → buf_offset < 2 ^ 32
      → map (λ x. x.1) rounds ≡ (send deliver s payload source_us buf_offset []).2
      → (env : Env) × (let (handled, u, written) =
            write_frame decompress_into cfg env t (memory t) payload buf_offset in
          IsRelayed bound t u
            (send deliver s payload source_us buf_offset []).1
            (recv_all decompress_into cfg src rounds t)
            written)
  recv_all-IsRelayed bound s t rounds payload source_us buf_offset l some_bytes fits us off same =
      let few : length payload ≤ max_fragments * s.payload_per_datagram = omega (arith, l.few) in
      let (env, outcome) =
        recv_all-send decompress_into cfg src s t rounds payload source_us buf_offset l.sender_valid
          l.receiver_valid l.opened some_bytes l.small few us off l.fresh (omega (arith, l.room))
          same in
      let (goes_on, same_target, copied) = outcome in
      let (handled, u, written) =
        write_frame decompress_into cfg env t (memory t) payload buf_offset in
      let (_, valid, size) =
        send_refines deliver s payload source_us buf_offset [] l.sender_valid in
      let (_, s', _) = send deliver s payload source_us buf_offset [] in
      let (_, t', _) = recv_all decompress_into cfg src rounds t in
      let f =
        message_of-IsFitting s payload source_us buf_offset l.sender_valid some_bytes l.small few us
          off in
      let ds = map (λ (x : Env × List ℕ). x.1) rounds in
      let proto : undropped t'.proto ≡ undropped (ingest_all t.proto ds).0 =
        recv_all-proto rounds t l.opened in
      let current : IsCurrent (ingest_all t.proto ds).0.current_seq s.sequence =
        message-IsCurrent s t.proto payload source_us buf_offset ds l.sender_valid f same in
      let sequence : s'.sequence ≡ (s.sequence + 1) % 2 ^ 32 =
        ap (λ x. x.1) (send-datagrams s payload source_us buf_offset l.sender_valid f) in
      (
        env,
        record {
          goes_on = goes_on;
          same = same_target;
          copied = copied;
          live = record {
            sender_valid = valid;
            receiver_valid =
                undropped-IsReceiver t'.proto (ingest_all t.proto ds).0 proto
                  (ingest_all-IsReceiver t.proto ds l.receiver_valid);
            opened =
                ap is_open same_target.telemetry
                ∙ write_frame-open decompress_into cfg env t (memory t) payload buf_offset l.opened;
            small = omega (arith, l.small, size);
            few = subst (λ k. bound ≤ max_fragments * k) (sym size) l.few;
            fresh =
                subst₂ (λ (o : Option ℕ) (q : ℕ). o ≢ some q)
                  (sym (ap (λ (r : Receiver). r.current_seq) proto)) (sym sequence)
                  (next_sequence s.sequence (ingest_all t.proto ds).0.current_seq
                    l.sender_valid.sequence_u32 current);
            room = omega (
              arith,
              l.room,
              ap (λ (r : Receiver). r.max_payload) proto,
              max_payload-ingest_all t.proto ds,
            );
          };
        },
      )
