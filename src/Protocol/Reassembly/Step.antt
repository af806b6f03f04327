-- ===== src/Protocol/Reassembly/Step.antt =====
-- One fragment of a message arrives.
use native.Mathlib.Nat.{mul-le-mul_right}
use native.Mathlib.Decide.{dec_lt, ℕ_discrete}
use iracing_teleport.Base.{
  ℕ, ◌+◌, ◌*◌, ◌≤◌, ◌<◌, ◌≡◌, ◌≢◌, ◌∙◌, ◌⊎◌, inl, inr, List, ◌∷◌, true, false, none, arith, length,
  get_or, overwrite, ◌==◌, length-set, length-overwrite, get_or-set_self, get_or-set_ne,
  get_or-overwrite_inside, get_or-overwrite_outside,
}
use iracing_teleport.Protocol.Header.{max_payload_per_datagram}
use iracing_teleport.Protocol.Sender.Chunks.{get_or-chunk}
use iracing_teleport.Protocol.Receiver.{Receiver, detect, accept, finish}
use iracing_teleport.Protocol.Receiver.Valid.{offset, stored}
use iracing_teleport.Protocol.Reassembly.Seen.{has, count_seen-cons}
use iracing_teleport.Protocol.Reassembly.Message.{
  Message, IsFitting, header, piece, IsAssembling, IsSettled, CanStart, length-piece, piece-le,
  piece-le-ppd,
}

-- Two different fragments do not overlap.
apart :
    (i j ppd k l : ℕ)
    → k < ppd
    → l ≤ ppd
    → i ≢ j
    → (j * ppd + k < i * ppd) ⊎ (i * ppd + l ≤ j * ppd + k)
apart i j ppd k l hk hl ne = elim (dec_lt j i) [
  | yes p ↦ inl (omega (arith, mul-le-mul_right {m = j + 1} {n = i} ppd (omega arith)))
  | no p ↦ inr (omega (arith, mul-le-mul_right {m = i + 1} {n = j} ppd (omega arith)))
]

module _ (m : Message) (f : IsFitting m) (seen : List ℕ) (r : Receiver) (a : IsAssembling m seen r)
    (i : ℕ) (below : i < m.n) (placed : IsSettled m r ⊎ CanStart m i) where
  -- The size that the receiver knows once the fragment is here.
  detect_cases :
      (detect r i (piece m i) ≡ m.ppd)
      ⊎ ((detect r i (piece m i) ≡ 0) × ((m.n ≡ 1) ⊎ (m.ppd ≡ max_payload_per_datagram)))
  unfolding detect
  detect_cases = ground (arith, a.detected, a.total, f.room, length-piece m i f)

  -- The fragment is stored at its place in the payload.
  offset_lem : offset r (header m i) (piece m i) ≡ i * m.ppd
  offset_lem = ground (arith, detect_cases, f.room)

  pub IsSettled-stored : IsSettled m (stored r (header m i) (piece m i))
  IsSettled-stored = ground (arith, detect_cases)

  bytes_stored :
      (j k : ℕ)
      → j < m.n
      → has (i ∷ seen) j ≡ true
      → k < length (piece m j)
      → get_or (overwrite r.buf (i * m.ppd) (piece m i)) (j * m.ppd + k) 0
        ≡ get_or m.payload (j * m.ppd + k) 0
  bytes_stored j k hj h hk = elim (ℕ_discrete i j) [
    | yes e ↦
        let hk' : k < length (piece m i) = rw e hk in
        get_or-overwrite_inside r.buf (i * m.ppd) (piece m i) (j * m.ppd + k) k (rw e) hk'
          (omega (arith, piece-le m j f hj, a.buf_size, a.fits))
        ∙ get_or-chunk m.ppd m.payload i k (j * m.ppd + k) (rw e) (omega (arith, piece-le-ppd m j))
    | no ne ↦
        get_or-overwrite_outside r.buf (i * m.ppd) (piece m i) (j * m.ppd + k) (
          apart i j m.ppd k (length (piece m i)) (omega (arith, piece-le-ppd m j))
            (piece-le-ppd m i) ne)
        ∙ a.bytes j k hj (ground arith) hk
  ]

  pub stored-IsAssembling :
      has seen i ≡ false → IsAssembling m (i ∷ seen) (stored r (header m i) (piece m i))
  stored-IsAssembling fresh = record {
    buf_size = length-overwrite r.buf _ (piece m i) ∙ a.buf_size;
    flags_size = length-set r.received i true ∙ a.flags_size;
    fits = a.fits;
    current = a.current;
    total = a.total;
    size = a.size;
    offset = a.offset;
    count = omega (arith, a.count, count_seen-cons m.n i seen below fresh);
    detected = ground (arith, detect_cases);
    flags = λ j hj. ground (
      arith,
      a.flags j hj,
      a.flags_size,
      f.few_pieces,
      get_or-set_self r.received i true false,
      get_or-set_ne r.received i j true false,
    );
    bytes = λ j k hj h hk. rw offset_lem (bytes_stored j k hj h hk);
  }

  -- A fragment that was not here yet passes every check.
  pub accept-new :
      has seen i ≡ false
      → accept r (header m i) (piece m i) ≡ finish (stored r (header m i) (piece m i)) (i == 0)
  unfolding accept
  accept-new fresh = ground (
    arith,
    a.flags i below,
    a.total,
    a.buf_size,
    a.fits,
    offset_lem,
    piece-le m i f below,
    piece-le-ppd m i,
    f.small,
  )

  -- One that is here already is ignored.
  pub accept-again :
      has seen i ≡ true
      → accept r (header m i) (piece m i)
        ≡ (r, record { assembled = none; new_seq = i == 0; heartbeat = false; buf_offset = 0 })
  unfolding accept
  accept-again here = ground (arith, a.flags i below, a.total)
