-- ===== src/Protocol/Reassembly/Current.antt =====
-- The sequence that `Receiver` is in the middle of, after the datagrams of one message.
use iracing_teleport.Base.{
  ℕ, zero, suc, ◌+◌, ◌≤◌, ◌<◌, ◌≡◌, refl, sym, subst, ◌∙◌, ◌⊎◌, List, [], ◌∷◌, Option, none, some,
  arith, length, drop,
}
use iracing_teleport.Protocol.Header.{Header, read_header, header_size}
use iracing_teleport.Protocol.Sender.Datagrams.{datagram, datagrams}
use iracing_teleport.Protocol.Sender.Plain.{read_header-datagram, length-datagram}
use iracing_teleport.Protocol.Receiver.{
  Receiver, reset, prepare, finish, accept, ingest, ingest_all,
}
use iracing_teleport.Protocol.Receiver.Valid.{IsReceiver, ingest-IsReceiver, current_seq-prepare}
use iracing_teleport.Protocol.Receiver.Dropped.{undropped}
use iracing_teleport.Protocol.Reassembly.Message.{Message, IsFitting, header}

-- No sequence, or that of the message.
abbrev pub IsCurrent : Option ℕ → ℕ → Type 0
IsCurrent current q = (current ≡ none) ⊎ (current ≡ some q)

accept-IsCurrent :
    (r : Receiver) (hdr : Header) (payload : List ℕ) (q : ℕ)
    → r.current_seq ≡ some q
    → IsCurrent (accept r hdr payload).0.current_seq q
unfolding accept finish
accept-IsCurrent r hdr payload q e = ground arith

ingest-IsCurrent :
    (r : Receiver) (d : List ℕ)
    → header_size ≤ length d
    → 0 < (read_header d).fragments
    → IsCurrent (ingest r d).0.current_seq (read_header d).sequence
unfolding ingest
ingest-IsCurrent r d enough some_fragments =
    let hdr = read_header d in
    ground (
      arith,
      accept-IsCurrent (prepare r hdr) hdr (drop header_size d) hdr.sequence
          (current_seq-prepare r hdr),
    )

pub max_payload-ingest : (r : Receiver) (d : List ℕ) → (ingest r d).0.max_payload ≡ r.max_payload
unfolding ingest accept finish prepare reset
max_payload-ingest r d = ground arith

pub max_payload-ingest_all :
    (r : Receiver) (ds : List (List ℕ)) → (ingest_all r ds).0.max_payload ≡ r.max_payload
unfolding ingest_all
max_payload-ingest_all r [] = refl
max_payload-ingest_all r (d ∷ ds) =
    max_payload-ingest_all (ingest r d).0 ds ∙ max_payload-ingest r d

pub ingest_all-IsReceiver :
    (r : Receiver) (ds : List (List ℕ)) → IsReceiver r → IsReceiver (ingest_all r ds).0
unfolding ingest_all
ingest_all-IsReceiver r [] v = v
ingest_all-IsReceiver r (d ∷ ds) v =
    ingest_all-IsReceiver (ingest r d).0 ds (ingest-IsReceiver r d v)

module _ (m : Message) (f : IsFitting m) where
  abbrev rest : ℕ → ℕ → List (List ℕ)
  rest left i = datagrams m.sequence m.ppd m.payload m.source_us m.buf_offset m.n left i

  ingest-datagram :
      (r : Receiver) (i : ℕ)
      → i < m.n
      → let (r', _) =
          ingest r (datagram m.sequence m.ppd m.payload m.source_us m.buf_offset m.n i) in
        IsCurrent r'.current_seq m.sequence
  ingest-datagram r i below =
      let d = datagram m.sequence m.ppd m.payload m.source_us m.buf_offset m.n i in
      let e : read_header d ≡ header m i = read_header-datagram m.ppd f.wire i below in
      let l = length-datagram m.sequence m.ppd m.payload m.source_us m.buf_offset m.n i in
      subst (λ (h : Header). IsCurrent (ingest r d).0.current_seq h.sequence) e
        (ingest-IsCurrent r d (omega (arith, l))
          (subst (λ (h : Header). 0 < h.fragments) (sym e) f.some_piece))

  -- After fragments of a message the receiver is in the middle of it, or of none.
  pub ingest_all-IsCurrent :
      (r : Receiver) (left i : ℕ)
      → i + suc left ≤ m.n
      → IsCurrent (ingest_all r (rest (suc left) i)).0.current_seq m.sequence
  unfolding ingest_all
  ingest_all-IsCurrent r zero i h = ingest-datagram r i (omega arith)
  ingest_all-IsCurrent r (suc left) i h =
      ingest_all-IsCurrent
        (ingest r (datagram m.sequence m.ppd m.payload m.source_us m.buf_offset m.n i)).0 left
        (i + 1) (omega arith)

-- The count of dropped sequences is no part of validity.
pub undropped-IsReceiver :
    (r r' : Receiver) → undropped r ≡ undropped r' → IsReceiver r' → IsReceiver r
undropped-IsReceiver r r' e v =
    let kept : IsReceiver (undropped r') = record {
      buf_size = v.buf_size;
      flags = v.flags;
      total_small = v.total_small;
      payload_small = v.payload_small;
      got_le = v.got_le;
      pending = v.pending;
    } in
    let w = subst IsReceiver (sym e) kept in
    record {
      buf_size = w.buf_size;
      flags = w.flags;
      total_small = w.total_small;
      payload_small = w.payload_small;
      got_le = w.got_le;
      pending = w.pending;
    }
