-- ===== src/Protocol/Sender/Datagrams.antt =====
-- What `Sender::send` puts on the wire, and when it stops: the loop over the scratch buffer
-- against a list of datagrams that is handed to the transport one by one.
use mathlib.Core.List.{append_assoc}
use iracing_teleport.Base.{
  ℕ, zero, suc, ◌+◌, ◌-◌, ◌%◌, ◌^◌, ◌≤◌, ◌<◌, ◌≡◌, refl, ◌∙◌, ◌⊎◌, inl, inr, List, [], ◌∷◌, ◌++◌,
  ◌||◌, arith, Bool-cases, length, take, drop, overwrite, length-append, length-drop,
  length-overwrite, overwrite_zero, overwrite-append, take-append, ltb, ◌==◌, if◌then◌else◌,
}
use iracing_teleport.Protocol.Header.{header_bytes, header_size, length-header_bytes}
use iracing_teleport.Protocol.Sender.{
  ErrorKind, invalid_data, Result, ok, err, Sender, chunk, div_ceil, fragment_header, send_loop,
  send,
}
use iracing_teleport.Protocol.Sender.Chunks.{length-chunk}

-- A sender holds a scratch buffer for one datagram, with room for at least one byte of payload.
pub record IsSender (s : Sender) : Type 0 where
  pub room : 0 < s.payload_per_datagram
  pub scratch : length s.buf ≡ header_size + s.payload_per_datagram
  pub sequence_u32 : s.sequence < 2 ^ 32

-- Fragment `i` of `n` as it stands on the wire.
unfoldable pub datagram : ℕ → ℕ → List ℕ → ℕ → ℕ → ℕ → ℕ → List ℕ
datagram sequence ppd payload source_us buf_offset n i =
    header_bytes (fragment_header sequence (length payload) source_us buf_offset n i)
    ++ chunk ppd payload i

-- The fragments from number `i` on, `left` of them.
abbrev pub datagrams : ℕ → ℕ → List ℕ → ℕ → ℕ → ℕ → ℕ → ℕ → List (List ℕ)
datagrams sequence ppd payload source_us buf_offset n zero i = []
datagrams sequence ppd payload source_us buf_offset n (suc left) i =
    datagram sequence ppd payload source_us buf_offset n i
    ∷ datagrams sequence ppd payload source_us buf_offset n left (i + 1)

-- Handing datagrams to a transport, until one fails.
abbrev pub send_all :
    {W : Type 0} (send_fn : List ℕ → W → Result (Unit {0}) × W)
    → List (List ℕ)
    → W
    → Result (Unit {0}) × W
send_all send_fn [] w = (ok tt, w)
send_all send_fn (d ∷ ds) w =
    let (sent, w') = send_fn d w in
    elim sent [ ok _ ↦ send_all send_fn ds w' | err e ↦ (err e, w') ]

-- The scratch buffer holds just the header and the piece, up to where it is sent.
pub scratch_lem :
    (buf hdr piece : List ℕ)
    → length hdr ≡ header_size
    → header_size + length piece ≤ length buf
    → take (header_size + length piece) (overwrite (overwrite buf 0 hdr) header_size piece)
      ≡ hdr ++ piece
scratch_lem buf hdr piece e h =
    let rest : List ℕ = drop (length hdr) buf in
    let fits : length piece ≤ length rest = omega (arith, length-drop (length hdr) buf) in
    rw
      (
        overwrite_zero buf hdr (omega arith),
        overwrite-append header_size hdr rest piece e,
        overwrite_zero rest piece fits,
        ← append_assoc hdr piece (drop (length piece) rest),
      )
      (take-append (header_size + length piece) (hdr ++ piece) (drop (length piece) rest)
        (omega (arith, length-append hdr piece)))

-- The result of `Sender::send` by the list of datagrams: none is sent of a payload that is empty
-- or needs more than 65535 fragments, and the sequence number moves on only after all were sent.
abbrev pub sent_by :
    {W : Type 0} (send_fn : List ℕ → W → Result (Unit {0}) × W)
    → ℕ
    → ℕ
    → List ℕ
    → ℕ
    → ℕ
    → W
    → Result ℕ × ℕ × W
sent_by send_fn sequence ppd payload source_us buf_offset w =
    let n = div_ceil (length payload) ppd in
    let (sent, w') =
      send_all send_fn (datagrams sequence ppd payload source_us buf_offset n n 0) w in
    if n == 0 || ltb (2 ^ 16 - 1) n
    then (err invalid_data, sequence, w)
    else elim sent [ ok _ ↦ (ok n, (sequence + 1) % 2 ^ 32, w') | err e ↦ (err e, sequence, w') ]

Result-cases :
    {A : Type 0} (r : Result A) → ((a : A) × (r ≡ ok a)) ⊎ ((e : ErrorKind) × (r ≡ err e))
Result-cases (ok a) = inl (a, refl)
Result-cases (err e) = inr (e, refl)

module _ {W : Type 0} (send_fn : List ℕ → W → Result (Unit {0}) × W) where
  record IsSent (s : Sender) (expected : Result (Unit {0}) × W)
      (out : Result (Unit {0}) × Sender × W) : Type 0 where
    same_result : out.0 ≡ expected.0
    same_world : out.2 ≡ expected.1
    valid : IsSender out.1
    same_sequence : out.1.sequence ≡ s.sequence
    same_size : out.1.payload_per_datagram ≡ s.payload_per_datagram

  send_loop-IsSent :
      (left i n : ℕ) (s : Sender) (payload : List ℕ) (source_us buf_offset : ℕ) (w : W)
      → IsSender s
      → IsSent s
          (send_all send_fn
            (datagrams s.sequence s.payload_per_datagram payload source_us buf_offset n left i)
            w)
          (send_loop send_fn left i n s payload source_us buf_offset w)
  unfolding send_loop datagram
  send_loop-IsSent zero i n s payload source_us buf_offset w v = record {
    same_result = refl;
    same_world = refl;
    valid = v;
    same_sequence = refl;
    same_size = refl;
  }
  send_loop-IsSent (suc left) i n s payload source_us buf_offset w v =
      rw (wire, send_loop)
        (elim (Result-cases (send_fn (hdr ++ piece) w).0) [
          | inl (a, e) ↦
              rw (e, wire)
                (forget (
                  send_loop-IsSent left (i + 1) n s' payload source_us buf_offset
                    (send_fn (hdr ++ piece) w).1 v'))
          | inr (k, e) ↦
              rw (e, wire)
                (record {
                  same_result = refl;
                  same_world = refl;
                  valid = v';
                  same_sequence = refl;
                  same_size = refl;
                })
        ])
    where
      piece : List ℕ
      piece = chunk s.payload_per_datagram payload i

      hdr : List ℕ
      hdr = header_bytes (fragment_header s.sequence (length payload) source_us buf_offset n i)

      s' : Sender
      s' = record s { buf = overwrite (overwrite s.buf 0 hdr) header_size piece }

      fits : header_size + length piece ≤ length s.buf
      fits = omega (arith, length-chunk s.payload_per_datagram payload i, v.scratch)

      wire :
          take (header_size + length piece) (overwrite (overwrite s.buf 0 hdr) header_size piece)
          ≡ datagram s.sequence s.payload_per_datagram payload source_us buf_offset n i
      wire =
          scratch_lem s.buf hdr piece
            (length-header_bytes
              (fragment_header s.sequence (length payload) source_us buf_offset n i))
            fits

      forget :
          {expected : Result (Unit {0}) × W} {out : Result (Unit {0}) × Sender × W}
          → IsSent s' expected out
          → IsSent s expected out
      forget sent = record {
        same_result = sent.same_result;
        same_world = sent.same_world;
        valid = sent.valid;
        same_sequence = sent.same_sequence;
        same_size = sent.same_size;
      }

      v' : IsSender s'
      v' = record {
        room = v.room;
        scratch =
            length-overwrite (overwrite s.buf 0 hdr) header_size piece
            ∙ (length-overwrite s.buf 0 hdr ∙ v.scratch);
        sequence_u32 = v.sequence_u32;
      }

  -- `Sender::send` for a valid sender: the transport is handed the datagrams of the payload in
  -- order until it fails; the result, the transport and the sequence number are those of
  -- `sent_by`; the sender stays valid and keeps its datagram size.
  pub send_refines :
      (s : Sender) (payload : List ℕ) (source_us buf_offset : ℕ) (w : W)
      → IsSender s
      → let (r, s', w') = send send_fn s payload source_us buf_offset w in
        ((r, s'.sequence, w')
          ≡ sent_by send_fn s.sequence s.payload_per_datagram payload source_us buf_offset w)
        × IsSender s'
        × (s'.payload_per_datagram ≡ s.payload_per_datagram)
  unfolding send
  send_refines s payload source_us buf_offset w v =
      elim (Bool-cases (n == 0 || ltb (2 ^ 16 - 1) n)) [
        | inl refused ↦ rw refused (refl, v, refl)
        | inr accepted ↦ rw accepted (elim (Result-cases out.0) [
          | inl (a, e) ↦ ground (arith, e, loop)
          | inr (k, e) ↦ ground (arith, e, loop)
        ])
      ]
    where
      n : ℕ
      n = div_ceil (length payload) s.payload_per_datagram

      out : Result (Unit {0}) × Sender × W
      out = send_loop send_fn n 0 n s payload source_us buf_offset w

      loop :
          IsSent s
            (send_all send_fn
              (datagrams s.sequence s.payload_per_datagram payload source_us buf_offset n n 0)
              w)
            out
      loop = send_loop-IsSent n 0 n s payload source_us buf_offset w v
