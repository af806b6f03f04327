-- ===== src/Examples/Wire.antt =====
-- teleport/src/protocol.rs at small inputs: datagrams of 26 bytes carry two bytes of payload.
use iracing_teleport.Base.{
  inr, ℕ, ◌+◌, ◌-◌, ◌^◌, ◌≤◌, ◌≡◌, ◌≢◌, refl, inl, List, [], ◌∷◌, map, some, arith, overwrite,
}
use iracing_teleport.Protocol.Header.{Header, header_bytes, read_header}
use iracing_teleport.Protocol.Sender.{
  Sender, Result, ok, err, other, invalid_data, send, send_loop, with_datagram_size, div_ceil,
  chunk, fragment_header,
}
use iracing_teleport.Protocol.Sender.Datagrams.{IsSender, datagram, sent_by, send_refines}
use iracing_teleport.Protocol.Receiver
use iracing_teleport.Protocol.Receiver.{
  Receiver, reset, clear, finish, detect, accept, is_new_seq, prepare, ingest, ingest_all,
}
use iracing_teleport.Protocol.Receiver.Valid.{IsReceiver, new-IsReceiver, ingest-IsReceiver}
use iracing_teleport.Protocol.Reassembly.Message.{Message, IsFitting, fragment}
use iracing_teleport.Protocol.Reassembly.Orders.{IsArrival, IsLate, ingest_all_arrival}
use iracing_teleport.Protocol.Reassembly.RoundTrip.{
  deliver, message_of, message_of-IsFitting, ingest_all-send,
}
use iracing_teleport.Protocol.Delta.{xor_delta}
use iracing_teleport.Protocol.Delta.Bytewise.{xor_delta-eq-zip_xor, xor_delta_round_trip}
use iracing_teleport.Protocol.Delta.ZipXor.{zip_xor}

abbrev small_sender : Sender
small_sender = record {
  sequence = 7;
  buf =
      0 ∷ 0 ∷ 0 ∷ 0 ∷ 0 ∷ 0 ∷ 0 ∷ 0 ∷ 0 ∷ 0 ∷ 0 ∷ 0 ∷ 0 ∷ 0 ∷ 0 ∷ 0 ∷ 0 ∷ 0 ∷ 0 ∷ 0 ∷ 0 ∷ 0 ∷ 0 ∷ 0
      ∷ 0 ∷ 0 ∷ [];
  payload_per_datagram = 2;
}

with_datagram_size_runs : with_datagram_size 26 ≡ record small_sender { sequence = 0 }
unfolding with_datagram_size
with_datagram_size_runs = refl

abbrev five : List ℕ
five = 11 ∷ 22 ∷ 33 ∷ 44 ∷ 55 ∷ []

abbrev sample_header : Header
sample_header = record {
  source_us = 9999;
  sequence = 7;
  payload_size = 5;
  buf_offset = 2 ^ 32 - 1;
  fragment = 1;
  fragments = 3;
}

header_bytes_runs :
    header_bytes sample_header
    ≡ 15 ∷ 39 ∷ 0 ∷ 0 ∷ 0 ∷ 0 ∷ 0 ∷ 0 ∷ 7 ∷ 0 ∷ 0 ∷ 0 ∷ 5 ∷ 0 ∷ 0 ∷ 0 ∷ 255 ∷ 255 ∷ 255 ∷ 255 ∷ 1
      ∷ 0 ∷ 3 ∷ 0 ∷ []
unfolding header_bytes
header_bytes_runs = refl

send_counts : (send deliver small_sender five 1 64 []).0 ≡ ok 3
unfolding send send_loop div_ceil overwrite
send_counts = refl

send_empty : (send deliver small_sender [] 1 64 []).0 ≡ err invalid_data
unfolding send send_loop div_ceil
send_empty = refl

-- A transport that fails at once.
abbrev broken : List ℕ → ℕ → Result (Unit {0}) × ℕ
broken d w = (err other, w + 1)

small_sender-IsSender : IsSender small_sender
small_sender-IsSender = omega arith

send_refines_example :
    let (r, s', w') = send broken small_sender five 1 64 0 in
    ((r, s'.sequence, w') ≡ sent_by broken 7 2 five 1 64 0)
    × IsSender s'
    × (s'.payload_per_datagram ≡ 2)
send_refines_example = send_refines broken small_sender five 1 64 0 small_sender-IsSender

-- The transport failed at the first datagram, so it was called once and the sequence stays.
sent_by-broken : sent_by broken 7 2 five 1 64 0 ≡ (err other, 7, 1)
unfolding div_ceil
sent_by-broken = refl

abbrev small_receiver : Receiver
small_receiver = Receiver.new 8

ingest-IsReceiver_example : IsReceiver (ingest (Receiver.new 8) (1 ∷ 2 ∷ 3 ∷ [])).0
ingest-IsReceiver_example = ingest-IsReceiver (Receiver.new 8) (1 ∷ 2 ∷ 3 ∷ []) (new-IsReceiver 8)

not_started : small_receiver.current_seq ≢ some 7
unfolding Receiver.new
not_started = cc

eight : 5 ≤ (Receiver.new 8).max_payload
unfolding Receiver.new
eight = omega arith

-- Three fragments, in order, in a receiver with room for 8 bytes.
ingest_all-send_example :
    let (res, s', sent) = send deliver small_sender five 1 64 [] in
    (res ≡ ok (div_ceil 5 2))
    × (s'.sequence ≡ 8)
    × ((ingest_all (Receiver.new 8) sent).1 ≡ (five, 64) ∷ [])
ingest_all-send_example =
    ingest_all-send small_sender (Receiver.new 8) five 1 64 small_sender-IsSender (new-IsReceiver 8)
      (omega arith) (omega arith) (omega arith) (omega arith) (omega arith) not_started eight

abbrev five_message : Message
five_message = message_of small_sender five 1 64

five_message-IsFitting : IsFitting five_message
five_message-IsFitting =
    message_of-IsFitting small_sender five 1 64 small_sender-IsSender (omega arith) (omega arith)
      (omega arith) (omega arith) (omega arith)

five_message-IsArrival : IsArrival five_message (1 ∷ 0 ∷ 1 ∷ []) 2
unfolding div_ceil
five_message-IsArrival = record {
  starts = inl (omega arith);
  below = λ j h. ground arith;
  last_below = omega arith;
  last_new = refl;
  cover = λ j h. ground arith;
}

five_message-IsLate : IsLate five_message (1 ∷ 0 ∷ 0 ∷ [])
unfolding div_ceil
five_message-IsLate = record {
  starts = inr (inl (omega arith));
  below = λ j h. ground arith;
  missing = 2;
  missing_below = omega arith;
  missing_new = refl;
}

-- The fragments 1, 0, 1, 2: out of order and with a duplicate; then 1, 0, 0, which are late.
ingest_all_arrival_example :
    (ingest_all (Receiver.new 8) (map (fragment five_message) (1 ∷ 0 ∷ 1 ∷ 2 ∷ 1 ∷ 0 ∷ 0 ∷ []))).1
    ≡ (five, 64) ∷ []
ingest_all_arrival_example =
    ingest_all_arrival five_message five_message-IsFitting (Receiver.new 8) (1 ∷ 0 ∷ 1 ∷ []) 2
      (1 ∷ 0 ∷ 0 ∷ []) (new-IsReceiver 8) not_started eight five_message-IsArrival
      five_message-IsLate

abbrev row : List ℕ
row = 1 ∷ 2 ∷ 3 ∷ 4 ∷ 5 ∷ 6 ∷ 7 ∷ 8 ∷ 200 ∷ []

abbrev last_row : List ℕ
last_row = 1 ∷ 2 ∷ 3 ∷ 255 ∷ 5 ∷ 6 ∷ 7 ∷ 9 ∷ 100 ∷ []

abbrev scratch : List ℕ
scratch = 0 ∷ 0 ∷ 0 ∷ 0 ∷ 0 ∷ 0 ∷ 0 ∷ 0 ∷ 0 ∷ []

xor_delta_runs : xor_delta row last_row scratch ≡ 0 ∷ 0 ∷ 0 ∷ 251 ∷ 0 ∷ 0 ∷ 0 ∷ 1 ∷ 172 ∷ []
unfolding xor_delta overwrite
xor_delta_runs = refl

xor_delta-eq-zip_xor_example : xor_delta row last_row scratch ≡ zip_xor row last_row
xor_delta-eq-zip_xor_example =
    xor_delta-eq-zip_xor row last_row scratch refl refl (omega arith) (omega arith)

xor_delta_round_trip_example : xor_delta (xor_delta row last_row scratch) last_row row ≡ row
xor_delta_round_trip_example =
    xor_delta_round_trip row last_row scratch row refl refl refl (omega arith) (omega arith)

abbrev three_message : Message
three_message = message_of small_sender (11 ∷ 22 ∷ 33 ∷ []) 1 64

-- The last fragment arrives first: without a fragment size to go by it is put at 8976, and the
-- payload has a stale byte in its place.
last_fragment_first :
    (ingest_all (Receiver.new 9000) (map (fragment three_message) (1 ∷ 0 ∷ []))).1
    ≡ (11 ∷ 22 ∷ 0 ∷ [], 64) ∷ []
unfolding ingest_all ingest prepare is_new_seq reset clear accept detect finish Receiver.new
    read_header header_bytes overwrite div_ceil datagram chunk fragment_header
last_fragment_first = refl
