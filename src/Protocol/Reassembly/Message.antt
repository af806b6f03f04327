-- ===== src/Protocol/Reassembly/Message.antt =====
-- A message that the sender cuts into `n` fragments, within the limits of the receiver, and what
-- the receiver holds while some of them have arrived.
use native.Mathlib.Nat.{mul-le-mul_right}
use iracing_teleport.Base.{
  ℕ, ◌+◌, ◌*◌, ◌≤◌, ◌<◌, ◌≡◌, ◌⊎◌, List, true, false, some, arith, length, get_or,
}
use iracing_teleport.Protocol.Header.{Header, max_payload_per_datagram, max_fragments}
use iracing_teleport.Protocol.Sender.{chunk, div_ceil}
use iracing_teleport.Protocol.Sender.Chunks.{div_ceil_lem, length-chunk}
use iracing_teleport.Protocol.Sender.Datagrams.{datagram}
use iracing_teleport.Protocol.Sender.Plain.{IsMessage, plain_header}
use iracing_teleport.Protocol.Receiver.{Receiver}
use iracing_teleport.Protocol.Reassembly.Seen.{has, count_seen}

pub record Message : Type 0 where
  pub sequence : ℕ
  pub ppd : ℕ
  pub payload : List ℕ
  pub source_us : ℕ
  pub buf_offset : ℕ
  pub n : ℕ

-- A message that a sender with `ppd` bytes of payload per datagram sends, and that a receiver
-- takes: at most 256 fragments, of at most 8976 bytes each.
pub record IsFitting (m : Message) : Type 0 where
  pub wire : IsMessage m.sequence m.payload m.source_us m.buf_offset m.n
  pub pieces : m.n ≡ div_ceil (length m.payload) m.ppd
  pub room : 0 < m.ppd
  pub small : m.ppd ≤ max_payload_per_datagram
  pub some_piece : 0 < m.n
  pub few_pieces : m.n ≤ max_fragments

abbrev pub header : Message → ℕ → Header
header m i = plain_header m.sequence (length m.payload) m.source_us m.buf_offset m.n i

abbrev pub fragment : Message → ℕ → List ℕ
fragment m i = datagram m.sequence m.ppd m.payload m.source_us m.buf_offset m.n i

abbrev pub piece : Message → ℕ → List ℕ
piece m i = chunk m.ppd m.payload i

-- What a receiver holds of a message while the fragments `seen` have arrived.
pub record IsAssembling (m : Message) (seen : List ℕ) (r : Receiver) : Type 0 where
  pub buf_size : length r.buf ≡ r.max_payload
  pub flags_size : length r.received ≡ max_fragments
  pub fits : length m.payload ≤ r.max_payload
  pub current : r.current_seq ≡ some m.sequence
  pub total : r.total_frags ≡ m.n
  pub size : r.payload_size ≡ length m.payload
  pub offset : r.last_buf_offset ≡ m.buf_offset
  pub count : r.got_frags ≡ count_seen m.n seen
  pub detected : (r.detected_frag_size ≡ m.ppd) ⊎ (r.detected_frag_size ≡ 0)
  pub flags : (j : ℕ) → j < m.n → get_or r.received j false ≡ has seen j
  pub bytes :
      (j k : ℕ)
      → j < m.n
      → has seen j ≡ true
      → k < length (piece m j)
      → get_or r.buf (j * m.ppd + k) 0 ≡ get_or m.payload (j * m.ppd + k) 0

-- Later fragments will be placed right: their size is known, or it is the one that the receiver
-- falls back to, or there is only one of them.
abbrev pub IsSettled : Message → Receiver → Type 0
IsSettled m r = (r.detected_frag_size ≡ m.ppd) ⊎ ((m.n ≡ 1) ⊎ (m.ppd ≡ max_payload_per_datagram))

-- A fragment that may come first: not the last one, unless that has the fallback's size, or is
-- the only one.
abbrev pub CanStart : Message → ℕ → Type 0
CanStart m i = (i + 1 < m.n) ⊎ ((m.n ≡ 1) ⊎ (m.ppd ≡ max_payload_per_datagram))

pub pieces_cover :
    (m : Message)
    → IsFitting m
    → (length m.payload ≤ m.n * m.ppd) × (m.n * m.ppd < length m.payload + m.ppd)
pieces_cover m f = rw f.pieces (div_ceil_lem (length m.payload) m.ppd f.room)

-- A fragment that is not the last is full.
pub length-piece : (m : Message) (i : ℕ) → IsFitting m → i + 1 < m.n → length (piece m i) ≡ m.ppd
length-piece m i f h = omega (
  arith,
  length-chunk m.ppd m.payload i,
  pieces_cover m f,
  mul-le-mul_right {m = i + 2} {n = m.n} m.ppd (omega arith),
)

-- No fragment reaches past the end of the payload.
pub piece-le :
    (m : Message) (i : ℕ)
    → IsFitting m
    → i < m.n
    → i * m.ppd + length (piece m i) ≤ length m.payload
piece-le m i f h = omega (
  arith,
  length-chunk m.ppd m.payload i,
  pieces_cover m f,
  mul-le-mul_right {m = i + 1} {n = m.n} m.ppd (omega arith),
)

pub piece-le-ppd : (m : Message) (i : ℕ) → length (piece m i) ≤ m.ppd
piece-le-ppd m i = omega (arith, length-chunk m.ppd m.payload i)
