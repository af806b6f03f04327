-- ===== src/Protocol/Receiver/Valid.antt =====
-- What holds of a receiver at all times, whatever bytes arrive: no index and no slice of
-- `ingest` is out of range.
use iracing_teleport.Base.{
  ℕ, zero, suc, ◌+◌, ◌*◌, ◌==◌, ltb, if◌then◌else◌, true, set, ◌≤◌, ◌<◌, ◌≡◌, refl, ap, ◌⊎◌, List,
  [], ◌∷◌, Bool, Option, none, some, arith, length, drop, overwrite, length-set, length-overwrite,
  length-replicate,
}
use iracing_teleport.Protocol.Header.{
  Header, read_header, header_size, max_fragments, max_payload_per_datagram,
}
use iracing_teleport.Protocol.Receiver.{
  Receiver, new, clear, reset, prepare, finish, accept, detect, ingest, is_new_seq,
}

-- While a sequence is being assembled a fragment is missing, or all its fragments are refused.
abbrev pub IsPending : Option ℕ → ℕ → ℕ → Type 0
IsPending none got total = Unit
IsPending (some s) got total = (got < total) ⊎ (total ≡ 0)

pub record IsReceiver (r : Receiver) : Type 0 where
  pub buf_size : length r.buf ≡ r.max_payload
  pub flags : length r.received ≡ max_fragments
  pub total_small : r.total_frags ≤ max_fragments
  pub payload_small : r.payload_size ≤ r.max_payload
  pub got_le : r.got_frags ≤ r.total_frags
  pub pending : IsPending r.current_seq r.got_frags r.total_frags

pub new-IsReceiver : (max_payload : ℕ) → IsReceiver (new max_payload)
unfolding new
new-IsReceiver max_payload = ground (arith, length-replicate {0} {A = ℕ} max_payload 0)

pub length-clear : (n : ℕ) (flags : List Bool) → length (clear n flags) ≡ length flags
unfolding clear
length-clear zero flags = refl
length-clear (suc n) [] = refl
length-clear (suc n) (f ∷ flags) = ap suc (length-clear n flags)

pub reset-IsReceiver :
    (r : Receiver) (hdr : Header) → IsReceiver r → 0 < hdr.fragments → IsReceiver (reset r hdr)
unfolding reset
reset-IsReceiver r hdr v h = ground (arith, length-clear hdr.fragments r.received)

-- The receiver after a fragment was stored.
record IsStored (r : Receiver) : Type 0 where
  buf_size : length r.buf ≡ r.max_payload
  flags : length r.received ≡ max_fragments
  total_small : r.total_frags ≤ max_fragments
  payload_small : r.payload_size ≤ r.max_payload
  got_le : r.got_frags ≤ r.total_frags

finish-IsReceiver :
    (r : Receiver) (first_frag : Bool) → IsStored r → IsReceiver (finish r first_frag).0
unfolding finish
finish-IsReceiver r first_frag v = ground arith

-- Where `accept` stores a fragment, and what it stores.
abbrev pub offset : Receiver → Header → List ℕ → ℕ
offset r hdr payload =
    let detected = detect r hdr.fragment payload in
    hdr.fragment * (if ltb 0 detected then detected else max_payload_per_datagram)

abbrev pub stored : Receiver → Header → List ℕ → Receiver
stored r hdr payload = record r {
  detected_frag_size = detect r hdr.fragment payload;
  buf = overwrite r.buf (offset r hdr payload) payload;
  received = set r.received hdr.fragment true;
  got_frags = r.got_frags + 1;
}

accept-IsReceiver :
    (r : Receiver) (hdr : Header) (payload : List ℕ) (s : ℕ)
    → r.current_seq ≡ some s
    → IsReceiver r
    → IsReceiver (accept r hdr payload).0
unfolding accept
accept-IsReceiver r hdr payload s e v = ground (
  arith,
  finish-IsReceiver (stored r hdr payload) (hdr.fragment == 0),
  length-set r.received hdr.fragment true,
  length-overwrite r.buf (offset r hdr payload) payload,
)

prepare-IsReceiver :
    (r : Receiver) (hdr : Header) → IsReceiver r → 0 < hdr.fragments → IsReceiver (prepare r hdr)
unfolding prepare
prepare-IsReceiver r hdr v h = ground (
  arith,
  reset-IsReceiver r hdr,
  reset-IsReceiver (record r { last_source_us = hdr.source_us }) hdr,
)

pub current_seq-prepare :
    (r : Receiver) (hdr : Header) → (prepare r hdr).current_seq ≡ some hdr.sequence
unfolding prepare is_new_seq reset
current_seq-prepare r hdr = ground arith

-- A step of the receiver keeps it valid, whatever the bytes are.
pub ingest-IsReceiver : (r : Receiver) (d : List ℕ) → IsReceiver r → IsReceiver (ingest r d).0
unfolding ingest
ingest-IsReceiver r d v = ground (
  arith,
  prepare-IsReceiver r (read_header d),
  accept-IsReceiver (prepare r (read_header d)) (read_header d) (drop header_size d)
      (read_header d).sequence (current_seq-prepare r (read_header d)),
)
