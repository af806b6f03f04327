-- ===== src/Protocol/Sender/Plain.antt =====
-- The datagrams of a message that the checks of `send` of teleport/src/protocol.rs let through.
use iracing_teleport.Base.{
  ℕ, ◌+◌, ◌^◌, ◌<◌, ◌≡◌, ap, ◌∙◌, List, ◌++◌, arith, drop-append, length, drop, length-append,
}
use iracing_teleport.Protocol.Header.{
  Header, header_bytes, header_size, length-header_bytes, read_header, read_header-header_bytes,
}
use iracing_teleport.Protocol.Sender.{chunk, fragment_header}
use iracing_teleport.Protocol.Sender.Datagrams.{datagram}

-- The header of a fragment that the sender's checks let through, with no wrap-around.
abbrev pub plain_header : ℕ → ℕ → ℕ → ℕ → ℕ → ℕ → Header
plain_header sequence total source_us buf_offset n i = record {
  source_us = source_us;
  sequence = sequence;
  payload_size = total;
  buf_offset = buf_offset;
  fragment = i;
  fragments = n;
}

-- The fields of a message that fit the types of the wire header.
pub record IsMessage (sequence : ℕ) (payload : List ℕ) (source_us buf_offset n : ℕ) : Type 0 where
  pub sequence_u32 : sequence < 2 ^ 32
  pub length_u32 : length payload < 2 ^ 32
  pub source_us_u64 : source_us < 2 ^ 64
  pub buf_offset_u32 : buf_offset < 2 ^ 32
  pub n_u16 : n < 2 ^ 16

module _ {sequence : ℕ} (ppd : ℕ) {payload : List ℕ} {source_us buf_offset n : ℕ}
    (m : IsMessage sequence payload source_us buf_offset n) (i : ℕ) (below : i < n) where
  pub read_header-datagram :
      read_header (datagram sequence ppd payload source_us buf_offset n i)
      ≡ plain_header sequence (length payload) source_us buf_offset n i
  unfolding datagram
  read_header-datagram =
      ap (λ h. read_header (header_bytes h ++ chunk ppd payload i)) plain
      ∙ read_header-header_bytes (plain_header sequence (length payload) source_us buf_offset n i)
          (chunk ppd payload i) (omega arith)
    where
      plain :
          fragment_header sequence (length payload) source_us buf_offset n i
          ≡ plain_header sequence (length payload) source_us buf_offset n i
      plain = unfold fragment_header in ground arith

  pub drop-datagram :
      drop header_size (datagram sequence ppd payload source_us buf_offset n i)
      ≡ chunk ppd payload i
  unfolding datagram
  drop-datagram =
      drop-append header_size
        (header_bytes (fragment_header sequence (length payload) source_us buf_offset n i))
        (chunk ppd payload i)
        (length-header_bytes (fragment_header sequence (length payload) source_us buf_offset n i))

pub length-datagram :
    (sequence ppd : ℕ) (payload : List ℕ) (source_us buf_offset n i : ℕ)
    → length (datagram sequence ppd payload source_us buf_offset n i)
      ≡ header_size + length (chunk ppd payload i)
unfolding datagram
length-datagram sequence ppd payload source_us buf_offset n i =
    length-append
      (header_bytes (fragment_header sequence (length payload) source_us buf_offset n i))
      (chunk ppd payload i)
    ∙ ap (λ (k : ℕ). k + length (chunk ppd payload i))
        (length-header_bytes (fragment_header sequence (length payload) source_us buf_offset n i))
