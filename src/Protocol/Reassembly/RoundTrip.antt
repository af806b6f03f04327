-- ===== src/Protocol/Reassembly/RoundTrip.antt =====
-- `Sender::send` over a transport that loses and reorders nothing, then `Receiver::ingest`.
use native.Mathlib.Nat.{mul-le-mul_right}
use native.Mathlib.Decide.{dec_lt}
use mathlib.Core.List.{append_assoc, append-nil}
use iracing_teleport.Base.{
  ℕ, zero, suc, ◌+◌, ◌-◌, ◌*◌, ◌%◌, ◌^◌, ◌≤◌, ◌<◌, ◌≡◌, ◌≢◌, refl, sym, ap, ◌∙◌, ◌⊎◌, inl, inr,
  List, [], ◌∷◌, ◌++◌, map, true, false, some, arith, length, ◌==◌, ◌||◌, ltb,
}
use iracing_teleport.Protocol.Header.{max_payload_per_datagram, max_fragments}
use iracing_teleport.Protocol.Sender.{Result, ok, Sender, div_ceil, send}
use iracing_teleport.Protocol.Sender.Datagrams.{
  IsSender, datagrams, send_all, sent_by, send_refines,
}
use iracing_teleport.Protocol.Receiver.{Receiver, ingest_all}
use iracing_teleport.Protocol.Receiver.Valid.{IsReceiver}
use iracing_teleport.Protocol.Reassembly.Seen.{has}
use iracing_teleport.Protocol.Reassembly.Message.{Message, IsFitting, fragment}
use iracing_teleport.Protocol.Sender.Chunks.{div_ceil_lem}
use iracing_teleport.Protocol.Reassembly.Orders.{first, IsArrival, IsLate, ingest_all_arrival}

-- A transport that keeps each datagram, in order.
abbrev pub deliver : List ℕ → List (List ℕ) → Result (Unit {0}) × List (List ℕ)
deliver d sent = (ok tt, sent ++ (d ∷ []))

-- The message that a call of `send` makes.
abbrev pub message_of : Sender → List ℕ → ℕ → ℕ → Message
message_of s payload source_us buf_offset = record {
  sequence = s.sequence;
  ppd = s.payload_per_datagram;
  payload = payload;
  source_us = source_us;
  buf_offset = buf_offset;
  n = div_ceil (length payload) s.payload_per_datagram;
}

abbrev range : ℕ → ℕ → List ℕ
range i zero = []
range i (suc left) = i ∷ range (i + 1) left

range_last : (i left last : ℕ) → i + left ≡ last → range i (suc left) ≡ range i left ++ (last ∷ [])
range_last i zero last e = ap (λ (k : ℕ). k ∷ []) (omega arith)
range_last i (suc left) last e = ap (λ l. i ∷ l) (range_last (i + 1) left last (omega arith))

has-range-lt : (i left j : ℕ) → has (range i left) j ≡ true → (i ≤ j) × (j < i + left)
has-range-lt i zero j h = absurd (ground arith)
has-range-lt i (suc left) j h = ground (arith, has-range-lt (i + 1) left j)

has-range : (i left j : ℕ) → i ≤ j → j < i + left → has (range i left) j ≡ true
has-range i zero j lo hi = absurd (omega arith)
has-range i (suc left) j lo hi = ground (arith, has-range (i + 1) left j)

datagrams-eq-map :
    (m : Message) (left i : ℕ)
    → datagrams m.sequence m.ppd m.payload m.source_us m.buf_offset m.n left i
      ≡ map (fragment m) (range i left)
datagrams-eq-map m zero i = refl
datagrams-eq-map m (suc left) i = ap (λ l. fragment m i ∷ l) (datagrams-eq-map m left (i + 1))

send_all-deliver : (ds sent : List (List ℕ)) → send_all deliver ds sent ≡ (ok tt, sent ++ ds)
send_all-deliver [] sent = ap (λ (l : List (List ℕ)). (ok tt, l)) (sym (append-nil sent))
send_all-deliver (d ∷ ds) sent =
    send_all-deliver ds (sent ++ (d ∷ []))
    ∙ ap (λ (l : List (List ℕ)). (ok tt, l)) (append_assoc sent (d ∷ []) ds)

first-range : (k : ℕ) → first (range 0 k) k ≡ 0
first-range zero = refl
first-range (suc k) = refl

not-has-range : (i left j : ℕ) → i + left ≤ j → has (range i left) j ≡ false
not-has-range i zero j h = refl
not-has-range i (suc left) j h = ground (arith, not-has-range (i + 1) left j)

in_order : (m : Message) → IsFitting m → IsArrival m (range 0 (m.n - 1)) (m.n - 1)
in_order m f = record {
  starts = rw (first-range (m.n - 1)) starts_at_zero;
  below = λ j h. omega (arith, has-range-lt 0 (m.n - 1) j h, f.some_piece);
  last_below = omega (arith, f.some_piece);
  last_new = not-has-range 0 (m.n - 1) (m.n - 1) (omega arith);
  cover = covered;
}
  where
    starts_at_zero : (0 + 1 < m.n) ⊎ ((m.n ≡ 1) ⊎ (m.ppd ≡ max_payload_per_datagram))
    starts_at_zero = omega (arith, f.some_piece)

    covered : (j : ℕ) → j < m.n → (has (range 0 (m.n - 1)) j ≡ true) ⊎ (m.n - 1 ≡ j)
    covered j h = elim (dec_lt j (m.n - 1)) [
      | yes p ↦ inl (has-range 0 (m.n - 1) j (omega arith) (omega arith))
      | no p ↦ inr (omega arith)
    ]

none-IsLate : (m : Message) → IsFitting m → IsLate m []
none-IsLate m f = record {
  starts = inl refl;
  below = λ j h. ground arith;
  missing = 0;
  missing_below = f.some_piece;
  missing_new = refl;
}

in_order_fragments :
    (m : Message)
    → IsFitting m
    → datagrams m.sequence m.ppd m.payload m.source_us m.buf_offset m.n m.n 0
      ≡ map (fragment m) (range 0 (m.n - 1) ++ ((m.n - 1) ∷ []))
in_order_fragments m f =
    datagrams-eq-map m m.n 0
    ∙ ap (map (fragment m)) (
        ap (range 0) {y = suc (m.n - 1)} (omega (arith, f.some_piece))
        ∙ range_last 0 (m.n - 1) (m.n - 1) (omega arith))

-- What the sender's parameters and the payload have to satisfy for the receiver to take it.
pub message_of-IsFitting :
    (s : Sender) (payload : List ℕ) (source_us buf_offset : ℕ)
    → IsSender s
    → 0 < length payload
    → s.payload_per_datagram ≤ max_payload_per_datagram
    → length payload ≤ max_fragments * s.payload_per_datagram
    → source_us < 2 ^ 64
    → buf_offset < 2 ^ 32
    → IsFitting (message_of s payload source_us buf_offset)
message_of-IsFitting s payload source_us buf_offset v some_bytes small few us off = record {
  wire = record {
    sequence_u32 = v.sequence_u32;
    length_u32 = omega arith;
    source_us_u64 = us;
    buf_offset_u32 = off;
    n_u16 = omega (arith, n-le);
  };
  pieces = refl;
  room = v.room;
  small = small;
  some_piece = n-pos;
  few_pieces = n-le;
}
  where
    n : ℕ
    n = div_ceil (length payload) s.payload_per_datagram

    cover :
        (length payload ≤ n * s.payload_per_datagram)
        × (n * s.payload_per_datagram < length payload + s.payload_per_datagram)
    cover = div_ceil_lem (length payload) s.payload_per_datagram v.room

    n-pos : 0 < n
    n-pos = elim (dec_lt 0 n) [
      | yes p ↦ p
      | no p ↦ absurd (
          omega
            (arith, cover, mul-le-mul_right {m = n} {n = 0} s.payload_per_datagram (omega arith)))
    ]

    n-le : n ≤ max_fragments
    n-le = elim (dec_lt max_fragments n) [
      | yes p ↦ absurd (
          omega
            (arith, cover, mul-le-mul_right {m = 257} {n = n} s.payload_per_datagram (omega arith)))
      | no p ↦ omega arith
    ]

sent_by-deliver :
    (sequence ppd : ℕ) (payload : List ℕ) (source_us buf_offset : ℕ)
    → let n = div_ceil (length payload) ppd in
      0 < n
      → n ≤ max_fragments
      → sent_by deliver sequence ppd payload source_us buf_offset []
        ≡ (ok n, (sequence + 1) % 2 ^ 32, datagrams sequence ppd payload source_us buf_offset n n 0)
sent_by-deliver sequence ppd payload source_us buf_offset n-pos n-le =
    let n = div_ceil (length payload) ppd in
    let taken : (n == 0 || ltb (2 ^ 16 - 1) n) ≡ false = ground arith in
    let all = send_all-deliver (datagrams sequence ppd payload source_us buf_offset n n 0) [] in
    rw (all, taken, all)

-- What such a sender hands to the transport.
pub send-datagrams :
    (s : Sender) (payload : List ℕ) (source_us buf_offset : ℕ)
    → IsSender s
    → IsFitting (message_of s payload source_us buf_offset)
    → let n = div_ceil (length payload) s.payload_per_datagram in
      let (res, s', sent) = send deliver s payload source_us buf_offset [] in
      let out : Result ℕ × ℕ × List (List ℕ) = (res, s'.sequence, sent) in
      out ≡ (
        ok n,
        (s.sequence + 1) % 2 ^ 32,
        datagrams s.sequence s.payload_per_datagram payload source_us buf_offset n n 0,
      )
send-datagrams s payload source_us buf_offset v f =
    (send_refines deliver s payload source_us buf_offset [] v).0
    ∙ sent_by-deliver s.sequence s.payload_per_datagram payload source_us buf_offset f.some_piece
        f.few_pieces

-- A payload that a valid sender cuts into at most 256 datagrams of at most 9000 bytes, sent over
-- a transport that loses and reorders nothing: `send` returns the number of fragments and moves
-- the sequence number on, and a valid receiver that has room for the payload and is not in the
-- middle of this sequence number assembles the payload exactly once, with its offset.
pub ingest_all-send :
    (s : Sender) (r : Receiver) (payload : List ℕ) (source_us buf_offset : ℕ)
    → IsSender s
    → IsReceiver r
    → 0 < length payload
    → s.payload_per_datagram ≤ max_payload_per_datagram
    → length payload ≤ max_fragments * s.payload_per_datagram
    → source_us < 2 ^ 64
    → buf_offset < 2 ^ 32
    → r.current_seq ≢ some s.sequence
    → length payload ≤ r.max_payload
    → let (res, s', sent) = send deliver s payload source_us buf_offset [] in
      (res ≡ ok (div_ceil (length payload) s.payload_per_datagram))
      × (s'.sequence ≡ (s.sequence + 1) % 2 ^ 32)
      × ((ingest_all r sent).1 ≡ (payload, buf_offset) ∷ [])
ingest_all-send s r payload source_us buf_offset v rv some_bytes small few us off other fits =
    let m = message_of s payload source_us buf_offset in
    let f = message_of-IsFitting s payload source_us buf_offset v some_bytes small few us off in
    let e = send-datagrams s payload source_us buf_offset v f in
    (
      ap (λ (t : Result ℕ × ℕ × List (List ℕ)). t.0) e,
      ap (λ (t : Result ℕ × ℕ × List (List ℕ)). t.1) e,
      ap (λ (t : Result ℕ × ℕ × List (List ℕ)). (ingest_all r t.2).1) e
          ∙ (ap (λ (ds : List (List ℕ)). (ingest_all r ds).1) (in_order_fragments m f)
              ∙ ingest_all_arrival m f r (range 0 (m.n - 1)) (m.n - 1) [] rv other fits
                  (in_order m f) (none-IsLate m f)),
    )
