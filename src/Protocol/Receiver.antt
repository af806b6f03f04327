-- ===== src/Protocol/Receiver.antt =====
-- teleport/src/protocol.rs, `Receiver` and `Ingested`.
pub mod Valid
pub mod Dropped
use iracing_teleport.Base.{
  ℕ, zero, suc, ◌+◌, ◌-◌, ◌*◌, List, [], ◌∷◌, Bool, true, false, not, ◌&&◌, ◌||◌, Option, none,
  some, length, get_or, set, take, drop, replicate, overwrite, ltb, leb, ◌==◌, if◌then◌else◌,
}
use iracing_teleport.Protocol.Header.{
  Header, read_header, header_size, max_payload_per_datagram, max_fragments, u32_max,
}

pub record Ingested : Type 0 where
  pub assembled : Option (List ℕ)
  pub new_seq : Bool
  pub heartbeat : Bool
  pub buf_offset : ℕ

-- `Ingested::default()`
abbrev pub default : Ingested
default = record { assembled = none; new_seq = false; heartbeat = false; buf_offset = 0 }

pub record Receiver : Type 0 where
  pub buf : List ℕ
  pub received : List Bool
  pub max_payload : ℕ
  pub current_seq : Option ℕ
  pub total_frags : ℕ
  pub got_frags : ℕ
  pub payload_size : ℕ
  pub detected_frag_size : ℕ
  pub last_source_us : ℕ
  pub last_fragment_count : ℕ
  pub dropped_sequences : ℕ
  pub last_buf_offset : ℕ

unfoldable pub new : ℕ → Receiver
new max_payload = record {
  buf = replicate max_payload 0;
  received = replicate max_fragments false;
  max_payload = max_payload;
  current_seq = none;
  total_frags = 0;
  got_frags = 0;
  payload_size = 0;
  detected_frag_size = 0;
  last_source_us = 0;
  last_fragment_count = 0;
  dropped_sequences = 0;
  last_buf_offset = u32_max;
}

-- `received[..n].fill(false)`
unfoldable pub clear : ℕ → List Bool → List Bool
clear zero flags = flags
clear (suc n) [] = []
clear (suc n) (f ∷ flags) = false ∷ clear n flags

unfoldable pub reset : Receiver → Header → Receiver
reset r hdr =
    let dropped =
      if ltb 0 r.got_frags && ltb r.got_frags r.total_frags
      then r.dropped_sequences + 1
      else r.dropped_sequences in
    if ltb max_fragments hdr.fragments || ltb r.max_payload hdr.payload_size
    then record r {
      dropped_sequences = dropped;
      current_seq = some hdr.sequence;
      total_frags = 0;
      got_frags = 0;
    }
    else record r {
      dropped_sequences = dropped;
      current_seq = some hdr.sequence;
      total_frags = hdr.fragments;
      got_frags = 0;
      payload_size = hdr.payload_size;
      last_buf_offset = hdr.buf_offset;
      detected_frag_size = 0;
      received = clear hdr.fragments r.received;
    }

-- The end of `ingest`, once a fragment is stored: whether it was the last one missing.
unfoldable pub finish : Receiver → Bool → Receiver × Ingested
finish r first_frag =
    if r.got_frags == r.total_frags
    then (
      record r { last_fragment_count = r.total_frags; current_seq = none },
      record {
        assembled = some (take r.payload_size r.buf);
        new_seq = first_frag;
        heartbeat = false;
        buf_offset = r.last_buf_offset;
      },
    )
    else (r, record default { new_seq = first_frag })

-- The fragment size, detected from a fragment that is not the last.
unfoldable pub detect : Receiver → ℕ → List ℕ → ℕ
detect r idx payload =
    if ltb idx (r.total_frags - 1) && (r.detected_frag_size == 0)
    then length payload
    else r.detected_frag_size

-- `ingest` from the check of the fragment's number on.
unfoldable pub accept : Receiver → Header → List ℕ → Receiver × Ingested
accept r hdr payload =
    let idx = hdr.fragment in
    let first_frag = hdr.fragment == 0 in
    let ignored : Ingested = record default { new_seq = first_frag } in
    let detected = detect r idx payload in
    let dest_offset = idx * (if ltb 0 detected then detected else max_payload_per_datagram) in
    if leb r.total_frags idx || get_or r.received idx false
    then (r, ignored)
    else if ltb max_payload_per_datagram (length payload)
    then (r, ignored)
    else if ltb (length r.buf) (dest_offset + length payload)
    then (record r { detected_frag_size = detected }, ignored)
    else finish
        (record r {
          detected_frag_size = detected;
          buf = overwrite r.buf dest_offset payload;
          received = set r.received idx true;
          got_frags = r.got_frags + 1;
        })
        first_frag

-- Whether a header starts a sequence: `match self.current_seq`.
unfoldable pub is_new_seq : Option ℕ → ℕ → Bool
is_new_seq none sequence = true
is_new_seq (some s) sequence = not (s == sequence)

-- The head of `ingest` past the heartbeat check: fragment 0 carries the timestamp, and a new
-- sequence resets the receiver.
unfoldable pub prepare : Receiver → Header → Receiver
prepare r hdr =
    let stamped : Receiver =
      if hdr.fragment == 0 then record r { last_source_us = hdr.source_us } else r in
    if is_new_seq r.current_seq hdr.sequence then reset stamped hdr else stamped

unfoldable pub ingest : Receiver → List ℕ → Receiver × Ingested
ingest r datagram =
    let hdr = read_header datagram in
    if ltb (length datagram) header_size
    then (r, default)
    else if hdr.fragments == 0
    then (r, record default { heartbeat = true })
    else accept (prepare r hdr) hdr (drop header_size datagram)

-- A client that feeds datagrams in the order of arrival, and keeps what they assemble, each with
-- the offset to write it at.
unfoldable pub ingest_all : Receiver → List (List ℕ) → Receiver × List (List ℕ × ℕ)
ingest_all r [] = (r, [])
ingest_all r (d ∷ ds) =
    let (r', res) = ingest r d in
    let (r'', later) = ingest_all r' ds in
    (r'', elim res.assembled [ none ↦ later | some payload ↦ (payload, res.buf_offset) ∷ later ])
