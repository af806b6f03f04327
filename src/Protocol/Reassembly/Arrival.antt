-- ===== src/Protocol/Reassembly/Arrival.antt =====
-- `ingest` at a fragment of a message: what it makes of the bytes, the start of an assembly, and
-- its end.
use native.Mathlib.Nat.{div-add-mod', mod-lt, mul-le-mul_right}
use native.Mathlib.Decide.{dec_lt}
use iracing_teleport.Base.{
  ℕ, zero, suc, ◌+◌, ◌*◌, ◌/◌, ◌%◌, ◌≤◌, ◌<◌, ◌≡◌, ◌≢◌, refl, sym, ◌∙◌, ltb, ◌||◌, List, [], ◌∷◌,
  Bool, true, false, some, inl, inr, arith, length, get_or, take, ◌==◌, length-take, get_or-take,
  get_or_ext, Bool-cases, if◌then◌else◌,
}
use iracing_teleport.Protocol.Header.{max_fragments}
use iracing_teleport.Protocol.Sender.Chunks.{length-chunk}
use iracing_teleport.Protocol.Sender.Plain.{read_header-datagram, drop-datagram, length-datagram}
use iracing_teleport.Protocol.Receiver.{Receiver, clear, reset, prepare, is_new_seq, accept, ingest}
use iracing_teleport.Protocol.Receiver.Valid.{IsReceiver, length-clear}
use iracing_teleport.Protocol.Reassembly.Seen.{has, count_seen-nil}
use iracing_teleport.Protocol.Reassembly.Message.{
  Message, IsFitting, header, fragment, piece, IsAssembling, IsSettled, pieces_cover,
}

get_or-clear : (n : ℕ) (flags : List Bool) (j : ℕ) → j < n → get_or (clear n flags) j false ≡ false
unfolding clear
get_or-clear zero flags j h = absurd (omega arith)
get_or-clear (suc n) [] j h = refl
get_or-clear (suc n) (x ∷ flags) zero h = refl
get_or-clear (suc n) (x ∷ flags) (suc j) h = get_or-clear n flags j (omega arith)

lt_of_mul : (j n ppd p : ℕ) → j * ppd ≤ p → p < n * ppd → j < n
lt_of_mul j n ppd p lo hi = elim (dec_lt j n) [
  | yes h ↦ h
  | no h ↦ absurd (omega (arith, mul-le-mul_right {m = n} {n = j} ppd (omega arith)))
]

module _ (m : Message) (f : IsFitting m) where
  pub ingest-fragment :
      (r : Receiver) (i : ℕ)
      → i < m.n
      → ingest r (fragment m i) ≡ accept (prepare r (header m i)) (header m i) (piece m i)
  unfolding ingest
  ingest-fragment r i below =
      rw (read_header-datagram m.ppd f.wire i below, drop-datagram m.ppd f.wire i below)
        (ground (
          arith,
          f.some_piece,
          length-datagram m.sequence m.ppd m.payload m.source_us m.buf_offset m.n i,
        ))

  reset-IsAssembling :
      (r : Receiver) (i : ℕ)
      → IsReceiver r
      → length m.payload ≤ r.max_payload
      → IsAssembling m [] (reset r (header m i))
  unfolding reset
  reset-IsAssembling r i v fits = rw accepted (record {
    buf_size = v.buf_size;
    flags_size = length-clear m.n r.received ∙ v.flags;
    fits = fits;
    current = refl;
    total = refl;
    size = refl;
    offset = refl;
    count = sym (count_seen-nil m.n);
    detected = inr refl;
    flags = λ j h. get_or-clear m.n r.received j h;
    bytes = λ j k h e. cc;
  })
    where
      accepted : (ltb max_fragments m.n || ltb r.max_payload (length m.payload)) ≡ false
      accepted = ground (arith, f.few_pieces)

  -- Both ways past the timestamp.
  unstamped :
      (P : Receiver → Type 0) (r : Receiver) (i : ℕ)
      → P r
      → P (record r { last_source_us = m.source_us })
      → P (if i == 0 then record r { last_source_us = m.source_us } else r)
  unstamped P r i p q = elim (Bool-cases (i == 0)) [ inl e ↦ rw e q | inr e ↦ rw e p ]

  prepare-other :
      (r : Receiver) (i : ℕ)
      → r.current_seq ≢ some m.sequence
      → prepare r (header m i)
        ≡ reset (if i == 0 then record r { last_source_us = m.source_us } else r) (header m i)
  unfolding prepare is_new_seq
  prepare-other r i other = ground arith

  prepare-same :
      (r : Receiver) (i : ℕ)
      → r.current_seq ≡ some m.sequence
      → prepare r (header m i) ≡ (if i == 0 then record r { last_source_us = m.source_us } else r)
  unfolding prepare is_new_seq
  prepare-same r i same = ground arith

  -- A receiver that is not at this message's sequence number starts to assemble it.
  pub prepare_start :
      (r : Receiver) (i : ℕ)
      → IsReceiver r
      → r.current_seq ≢ some m.sequence
      → length m.payload ≤ r.max_payload
      → IsAssembling m [] (prepare r (header m i))
  prepare_start r i v other fits = rw (prepare-other r i other) (
      unstamped (λ q. IsAssembling m [] (reset q (header m i))) r i (reset-IsAssembling r i v fits)
        (reset-IsAssembling (record r { last_source_us = m.source_us }) i (ground arith) fits))

  pub prepare-IsAssembling :
      (seen : List ℕ) (r : Receiver) (i : ℕ)
      → IsAssembling m seen r
      → IsAssembling m seen (prepare r (header m i))
  prepare-IsAssembling seen r i a = rw (prepare-same r i a.current) (
      unstamped (IsAssembling m seen) r i a (record {
        buf_size = a.buf_size;
        flags_size = a.flags_size;
        fits = a.fits;
        current = a.current;
        total = a.total;
        size = a.size;
        offset = a.offset;
        count = a.count;
        detected = a.detected;
        flags = a.flags;
        bytes = a.bytes;
      }))

  pub prepare-IsSettled :
      (seen : List ℕ) (r : Receiver) (i : ℕ)
      → IsAssembling m seen r
      → IsSettled m r
      → IsSettled m (prepare r (header m i))
  prepare-IsSettled seen r i a s = rw (prepare-same r i a.current) (unstamped (IsSettled m) r i s s)

  -- With every fragment there, the buffer starts with the payload.
  pub take-buf :
      (seen : List ℕ) (r : Receiver)
      → IsAssembling m seen r
      → ((j : ℕ) → j < m.n → has seen j ≡ true)
      → take r.payload_size r.buf ≡ m.payload
  take-buf seen r a all =
      get_or_ext 0 (take r.payload_size r.buf) m.payload
        (omega (arith, length-take r.payload_size r.buf, a.size, a.buf_size, a.fits))
        λ p h. get_or-take r.buf r.payload_size p 0 (omega (arith, a.size)) ∙ at_byte p h
    where
      at_byte : (p : ℕ) → p < length m.payload → get_or r.buf p 0 ≡ get_or m.payload p 0
      at_byte p h =
          let j : ℕ = p / m.ppd in
          let e : j * m.ppd + p % m.ppd ≡ p = div-add-mod' p m.ppd in
          let small : p % m.ppd < m.ppd = mod-lt p f.room in
          let below : j < m.n =
            lt_of_mul j m.n m.ppd p (omega arith) (omega (arith, pieces_cover m f)) in
          rw e at (
            a.bytes j (p % m.ppd) below (all j below)
              (omega (arith, length-chunk m.ppd m.payload j)))
