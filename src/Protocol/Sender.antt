-- ===== src/Protocol/Sender.antt =====
-- teleport/src/protocol.rs, `Sender`. The transport that `send_fn` reaches is a state `W`, which
-- a call changes; a call fails or succeeds.
pub mod Chunks
pub mod Datagrams
pub mod Plain
use iracing_teleport.Base.{
  ℕ, zero, suc, ◌+◌, ◌-◌, ◌*◌, ◌/◌, ◌%◌, ◌^◌, min, max, List, ◌||◌, length, take, replicate, slice,
  overwrite, ltb, ◌==◌, if◌then◌else◌,
}
use iracing_teleport.Protocol.Header.{Header, header_bytes, header_size, max_datagram_size}

-- The kinds of `io::Error` that the program tells apart.
pub data ErrorKind : Type 0 where
  invalid_data would_block timed_out other : ErrorKind

-- `io::Result`
pub data Result (A : Type 0) : Type 0 where
  ok : A → Result A
  err : ErrorKind → Result A

pub record Sender : Type 0 where
  pub sequence : ℕ
  pub buf : List ℕ
  pub payload_per_datagram : ℕ

unfoldable pub with_datagram_size : ℕ → Sender
with_datagram_size requested =
    let datagram_size = max requested (header_size + 1) in
    record {
      sequence = 0;
      buf = replicate datagram_size 0;
      payload_per_datagram = datagram_size - header_size;
    }

unfoldable pub new : Sender
new = with_datagram_size max_datagram_size

-- `usize::div_ceil`
unfoldable pub div_ceil : ℕ → ℕ → ℕ
div_ceil a b = if ltb 0 (a % b) then a / b + 1 else a / b

-- The header of fragment `i` of `n`.
unfoldable pub fragment_header : ℕ → ℕ → ℕ → ℕ → ℕ → ℕ → Header
fragment_header sequence total source_us buf_offset n i = record {
  source_us = source_us;
  sequence = sequence;
  payload_size = total % 2 ^ 32;
  buf_offset = buf_offset;
  fragment = i % 2 ^ 16;
  fragments = n % 2 ^ 16;
}

-- The bytes of fragment `i`: `data[offset..(offset + payload_per_datagram).min(total)]`.
unfoldable pub chunk : ℕ → List ℕ → ℕ → List ℕ
chunk ppd payload i = slice payload (i * ppd) (min (i * ppd + ppd) (length payload))

unfoldable pub heartbeat_header : Header
heartbeat_header = record {
  source_us = 0;
  sequence = 0;
  payload_size = 0;
  buf_offset = 0;
  fragment = 0;
  fragments = 0;
}

module _ {W : Type 0} (send_fn : List ℕ → W → Result (Unit {0}) × W) where
  -- The body of the loop over the fragments, with `left` rounds to go.
  unfoldable pub send_loop :
      ℕ → ℕ → ℕ → Sender → List ℕ → ℕ → ℕ → W → Result (Unit {0}) × Sender × W
  send_loop zero i n s payload source_us buf_offset w = (ok tt, s, w)
  send_loop (suc left) i n s payload source_us buf_offset w =
      let piece = chunk s.payload_per_datagram payload i in
      let hdr = fragment_header s.sequence (length payload) source_us buf_offset n i in
      let filled = overwrite (overwrite s.buf 0 (header_bytes hdr)) header_size piece in
      let s' : Sender = record s { buf = filled } in
      let (sent, w') = send_fn (take (header_size + length piece) filled) w in
      elim sent [
        | ok _ ↦ send_loop left (i + 1) n s' payload source_us buf_offset w'
        | err e ↦ (err e, s', w')
      ]

  -- `Sender::send`
  unfoldable pub send : Sender → List ℕ → ℕ → ℕ → W → Result ℕ × Sender × W
  send s payload source_us buf_offset w =
      let n = div_ceil (length payload) s.payload_per_datagram in
      let (sent, s', w') = send_loop n 0 n s payload source_us buf_offset w in
      if n == 0 || ltb (2 ^ 16 - 1) n then (err invalid_data, s, w) else elim sent [
        | ok _ ↦ (ok n, record s' { sequence = (s'.sequence + 1) % 2 ^ 32 }, w')
        | err e ↦ (err e, s', w')
      ]

  -- `Sender::send_heartbeat`
  unfoldable pub send_heartbeat : Sender → W → Result (Unit {0}) × Sender × W
  unfolding heartbeat_header
  send_heartbeat s w =
      let filled = overwrite s.buf 0 (header_bytes heartbeat_header) in
      let (sent, w') = send_fn (take header_size filled) w in (sent, record s { buf = filled }, w')
