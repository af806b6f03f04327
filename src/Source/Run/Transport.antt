-- ===== src/Source/Run/Transport.antt =====
-- What holds of the outside and is kept by each call of the transport is kept by a round of
-- teleport/src/source.rs that sends.
use iracing_teleport.Base.{
  ℕ, zero, suc, ◌+◌, List, Bool, Option, none, some, length, arith, take, overwrite,
}
use iracing_teleport.Protocol.Sender.{
  Result, Sender, send_loop, send, send_heartbeat, chunk, fragment_header, div_ceil,
}
use iracing_teleport.Protocol.Header.{header_bytes, header_size}
use iracing_teleport.Source.{Source, Config, Payload, skip, frame, choose, payload_of}
use iracing_teleport.Source.Loop.{keep_alive, start_data, poll_cap}
use iracing_teleport.Source.Round.{Env, send_compressed, transmit, send_data}

module _ {W : Type 0} (send_fn : List ℕ → W → Result (Unit {0}) × W) (P : W → Type 0)
    (kept : (d : List ℕ) (w : W) → P w → P (send_fn d w).1) where
  send_loop-kept :
      (left i n : ℕ) (s : Sender) (payload : List ℕ) (source_us buf_offset : ℕ) (w : W)
      → P w
      → P (send_loop send_fn left i n s payload source_us buf_offset w).2
  unfolding send_loop
  send_loop-kept zero i n s payload source_us buf_offset w p = p
  send_loop-kept (suc left) i n s payload source_us buf_offset w p =
      let piece = chunk s.payload_per_datagram payload i in
      let hdr = fragment_header s.sequence (length payload) source_us buf_offset n i in
      let filled = overwrite (overwrite s.buf 0 (header_bytes hdr)) header_size piece in
      let d = take (header_size + length piece) filled in
      let (_, w') = send_fn d w in
      ground (
        arith,
        kept d w,
        send_loop-kept left (i + 1) n (record s { buf = filled }) payload source_us buf_offset w',
      )

  send-kept :
      (s : Sender) (payload : List ℕ) (source_us buf_offset : ℕ) (w : W)
      → P w
      → P (send send_fn s payload source_us buf_offset w).2
  unfolding send
  send-kept s payload source_us buf_offset w p =
      let n = div_ceil (length payload) s.payload_per_datagram in
      ground (arith, send_loop-kept n 0 n s payload source_us buf_offset w)

  send_heartbeat-kept : (s : Sender) (w : W) → P w → P (send_heartbeat send_fn s w).2
  unfolding send_heartbeat
  send_heartbeat-kept s w p = kept _ w p

  pub keep_alive-kept :
      (cfg : Config) (now : ℕ) (cap : Option (ℕ × ℕ)) (s : Source) (w : W)
      → P w
      → P (keep_alive send_fn cfg now cap s w).1
  unfolding keep_alive
  keep_alive-kept cfg now cap s w p =
      ground (arith, send_heartbeat-kept (poll_cap cfg cap s).sender w)

  send_compressed-kept :
      (compress_into : List ℕ → Option (List ℕ)) (cfg : Config) (env : Env)
      (buf_offset payload_len : ℕ) (is_delta : Bool) (wire : ℕ) (compressed : Option (List ℕ))
      (s : Source) (w : W)
      → P w
      → P
          (send_compressed compress_into send_fn cfg env buf_offset payload_len is_delta wire
            compressed s w).2
  unfolding send_compressed
  send_compressed-kept compress_into cfg env buf_offset payload_len is_delta wire none s w p = p
  send_compressed-kept compress_into cfg env buf_offset payload_len is_delta wire (some compressed)
        s w p =
      send-kept s.sender compressed env.source_us wire w p

  transmit-kept :
      (compress_into : List ℕ → Option (List ℕ)) (cfg : Config) (env : Env) (buf_offset : ℕ)
      (payload : Payload) (s : Source) (w : W)
      → P w
      → P (transmit compress_into send_fn cfg env buf_offset payload s w).2
  unfolding transmit
  transmit-kept compress_into cfg env buf_offset skip s w p = p
  transmit-kept compress_into cfg env buf_offset (frame payload is_delta wire) s w p =
      send_compressed-kept compress_into cfg env buf_offset (length payload) is_delta wire
        (compress_into payload) s w p

  pub send_data-kept :
      (compress_into : List ℕ → Option (List ℕ)) (cfg : Config) (env : Env) (s : Source) (w : W)
      → P w
      → P (send_data compress_into send_fn cfg env s w).2
  unfolding send_data
  send_data-kept compress_into cfg env s w p =
      let (choice, chosen) = choose env.now env.seen (start_data env.now s) in
      let (payload, s') = payload_of cfg choice env.copied env.rechecked chosen in
      transmit-kept compress_into cfg env choice.buf_offset payload s' w p
