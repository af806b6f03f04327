-- ===== src/Protocol/Receiver/Dropped.antt =====
-- The count of dropped sequences of `Receiver`: what is assembled does not depend on it.
use iracing_teleport.Base.{
  ℕ, ◌≡◌, refl, sym, ap, ◌∙◌, List, Bool, true, none, arith, length, drop, ltb, ◌==◌, Bool-cases,
  inl, inr,
}
use iracing_teleport.Protocol.Header.{Header, read_header, header_size}
use iracing_teleport.Protocol.Receiver.{
  Receiver, Ingested, reset, prepare, detect, accept, finish, ingest,
}

-- A receiver but for the count.
abbrev pub undropped : Receiver → Receiver
undropped r = record r { dropped_sequences = 0 }

-- The same receiver with another count.
abbrev counting : ℕ → Receiver → Receiver
counting d r = record r { dropped_sequences = d }

finish-counting :
    (d : ℕ) (r : Receiver) (first_frag : Bool)
    → finish (counting d r) first_frag
      ≡ (counting d (finish r first_frag).0, (finish r first_frag).1)
unfolding finish
finish-counting d r first_frag = ground arith

accept-counting :
    (d : ℕ) (r : Receiver) (hdr : Header) (payload : List ℕ)
    → accept (counting d r) hdr payload
      ≡ (counting d (accept r hdr payload).0, (accept r hdr payload).1)
unfolding accept finish detect
accept-counting d r hdr payload = ground arith

prepare-counting :
    (d : ℕ) (r : Receiver) (hdr : Header)
    → undropped (prepare (counting d r) hdr) ≡ undropped (prepare r hdr)
unfolding prepare reset
prepare-counting d r hdr = ground arith

-- The outcome but for the count.
abbrev outcome : Receiver × Ingested → Receiver × Ingested
outcome (r, res) = (undropped r, res)

accept-undropped :
    (r r' : Receiver) (hdr : Header) (payload : List ℕ)
    → undropped r ≡ undropped r'
    → outcome (accept r hdr payload) ≡ outcome (accept r' hdr payload)
accept-undropped r r' hdr payload e =
    sym (accept-counting 0 r hdr payload)
    ∙ ap (λ x. accept x hdr payload) e
    ∙ accept-counting 0 r' hdr payload

ingest-counting :
    (d : ℕ) (r : Receiver) (datagram : List ℕ)
    → outcome (ingest (counting d r) datagram) ≡ outcome (ingest r datagram)
unfolding ingest
ingest-counting d r datagram =
    let hdr = read_header datagram in
    let e =
      accept-undropped (prepare (counting d r) hdr) (prepare r hdr) hdr (drop header_size datagram)
        (prepare-counting d r hdr) in
    elim (Bool-cases (ltb (length datagram) header_size)) [
      | inl short ↦ rw short refl
      | inr enough ↦ elim (Bool-cases (hdr.fragments == 0)) [
        | inl heartbeat ↦ rw (enough, heartbeat) refl
        | inr some_fragments ↦ rw (enough, some_fragments) e
      ]
    ]

pub ingest-undropped :
    (r r' : Receiver) (datagram : List ℕ)
    → undropped r ≡ undropped r'
    → (undropped (ingest r datagram).0 ≡ undropped (ingest r' datagram).0)
      × ((ingest r datagram).1 ≡ (ingest r' datagram).1)
ingest-undropped r r' datagram e =
    let p : outcome (ingest r datagram) ≡ outcome (ingest r' datagram) =
      sym (ingest-counting 0 r datagram)
      ∙ ap (λ x. outcome (ingest x datagram)) e
      ∙ ingest-counting 0 r' datagram in
    (ap (λ x. x.0) p, ap (λ x. x.1) p)

-- A heartbeat completes nothing.
pub ingest-heartbeat :
    (r : Receiver) (datagram : List ℕ)
    → (ingest r datagram).1.heartbeat ≡ true
    → (ingest r datagram).1.assembled ≡ none
unfolding ingest accept finish
ingest-heartbeat r datagram h = ground arith
