-- ===== src/Protocol/Header.antt =====
-- teleport/src/protocol.rs, the constants and `struct Header`: 24 bytes, `repr(C, packed)`, and
-- its view as bytes on a little-endian machine, which is what the documentation of the wire
-- format says.
use iracing_teleport.Base.{
  ℕ, ◌-◌, ◌^◌, ◌<◌, ◌≡◌, refl, List, ◌++◌, length, slice, to_le, from_le, from_le-to_le,
}

abbrev pub max_datagram_size : ℕ
max_datagram_size = 9000

abbrev pub header_size : ℕ
header_size = 24

abbrev pub max_payload_per_datagram : ℕ
max_payload_per_datagram = max_datagram_size - header_size

abbrev pub max_fragments : ℕ
max_fragments = 256

-- `1 << 31`, and `u32::MAX`, the `buf_offset` of a session-info frame.
abbrev pub delta_bit : ℕ
delta_bit = 2 ^ 31

abbrev pub u32_max : ℕ
u32_max = 2 ^ 32 - 1

pub record Header : Type 0 where
  pub source_us : ℕ
  pub sequence : ℕ
  pub payload_size : ℕ
  pub buf_offset : ℕ
  pub fragment : ℕ
  pub fragments : ℕ

-- The ranges of the fields' types.
pub record IsHeader (h : Header) : Type 0 where
  pub source_us_u64 : h.source_us < 2 ^ 64
  pub sequence_u32 : h.sequence < 2 ^ 32
  pub payload_size_u32 : h.payload_size < 2 ^ 32
  pub buf_offset_u32 : h.buf_offset < 2 ^ 32
  pub fragment_u16 : h.fragment < 2 ^ 16
  pub fragments_u16 : h.fragments < 2 ^ 16

-- `from_raw_parts(&hdr as *const _ as *const u8, HEADER_SIZE)`
unfoldable pub header_bytes : Header → List ℕ
header_bytes h =
    to_le 8 h.source_us
    ++ (to_le 4 h.sequence
        ++ (to_le 4 h.payload_size
            ++ (to_le 4 h.buf_offset ++ (to_le 2 h.fragment ++ to_le 2 h.fragments))))

-- `read_unaligned(datagram.as_ptr() as *const Header)`
unfoldable pub read_header : List ℕ → Header
read_header d = record {
  source_us = from_le (slice d 0 8);
  sequence = from_le (slice d 8 12);
  payload_size = from_le (slice d 12 16);
  buf_offset = from_le (slice d 16 20);
  fragment = from_le (slice d 20 22);
  fragments = from_le (slice d 22 24);
}

pub length-header_bytes : (h : Header) → length (header_bytes h) ≡ header_size
unfolding header_bytes
length-header_bytes h = refl

-- A header whose fields are in the range of their types, written in front of any bytes, is read
-- back.
pub read_header-header_bytes :
    (h : Header) (rest : List ℕ) → IsHeader h → read_header (header_bytes h ++ rest) ≡ h
unfolding header_bytes read_header
read_header-header_bytes h rest v = λ i. record {
  source_us = from_le-to_le 8 h.source_us v.source_us_u64 i;
  sequence = from_le-to_le 4 h.sequence v.sequence_u32 i;
  payload_size = from_le-to_le 4 h.payload_size v.payload_size_u32 i;
  buf_offset = from_le-to_le 4 h.buf_offset v.buf_offset_u32 i;
  fragment = from_le-to_le 2 h.fragment v.fragment_u16 i;
  fragments = from_le-to_le 2 h.fragments v.fragments_u16 i;
}
