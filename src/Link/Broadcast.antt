-- ===== src/Link/Broadcast.antt =====
-- Rounds with data of teleport/src/source.rs, the datagrams that they hand over, and the rounds of
-- teleport/src/target.rs that receive them.
pub mod Steps
pub mod Rounds
pub mod Delivery
pub mod Answered
use iracing_teleport.Base.{
  ℕ, ◌^◌, ◌≤◌, ◌<◌, ◌≡◌, ◌≢◌, List, [], ◌∷◌, ◌++◌, length, take, IsBytes, ◌==◌, if◌then◌else◌,
}
use iracing_teleport.Protocol.Header.{u32_max}
use iracing_teleport.Protocol.Reassembly.RoundTrip.{deliver}
use iracing_teleport.Telemetry.{irsdk_header_size}
use iracing_teleport.Source
use iracing_teleport.Source.{Source, Choice, Payload, skip, frame, choose, payload_of}
use iracing_teleport.Source.Loop.{start_data}
use iracing_teleport.Source.Kept.{staged_of}
use iracing_teleport.Source.Round
use iracing_teleport.Source.Round.{send_data}
use iracing_teleport.Target.{Target, Effect, prefix_writes, partial_writes}
use iracing_teleport.Link.Frames.{Codec}
use iracing_teleport.Link.Session.{IsFrame}
use iracing_teleport.Link.Start.{prefix}

-- The choice and the payload of a round.
abbrev pub choice_of : Round.Env → Source → Choice × Source
choice_of env s = choose env.now env.seen (start_data env.now s)

abbrev pub payload_in : Source.Config → Round.Env → Source → Payload × Source
payload_in cfg env s =
    let (c, chosen) = choice_of env s in payload_of cfg c env.copied env.rechecked chosen

-- The copies of a round that sends a frame: of the static prefix or of what was staged.
abbrev pub frame_writes : List ℕ → Round.Env → Choice → Payload → List Effect
frame_writes m env c skip = []
frame_writes m env c (frame bytes is_delta wire) =
    if c.buf_offset == u32_max
    then prefix_writes m (prefix env.copied)
    else partial_writes c.buf_offset (staged_of env.copied c)

-- What the copied memory of a round has to satisfy: a header, at most `limit` bytes, and if a partial
-- frame is chosen, one of `n` bytes that fits into a memory of `size` bytes.
pub record IsRound (n size limit : ℕ) (env : Round.Env) (c : Choice) : Type 0 where
  pub has_header : irsdk_header_size ≤ length env.copied
  pub copied_small : length env.copied ≤ limit
  pub time_u64 : env.source_us < 2 ^ 64
  pub fits : c.buf_offset ≢ u32_max → IsFrame n size c.buf_offset (staged_of env.copied c)

-- Buffers with room for a frame of `n` bytes on both sides.
pub record IsRoomy (n : ℕ) (s : Source) (t : Target) : Type 0 where
  pub source_prev : n ≤ length s.prev_varbuf
  pub source_delta : n ≤ length s.delta_buf
  pub target_prev : n ≤ length t.prev_varbuf
  pub target_rebuilt : n ≤ length t.reconstruct_buf
  pub prev_bytes : IsBytes (take n s.prev_varbuf)

module _ (codec : Codec) (cfg : Source.Config) where
  -- Rounds with data, over a transport that keeps each datagram.
  unfoldable pub send_rounds : List Round.Env → Source → Source × List (List ℕ)
  send_rounds [] s = (s, [])
  send_rounds (env ∷ envs) s =
      let (s', _, handed) = send_data codec.compress_into deliver cfg env s [] in
      let (s'', later) = send_rounds envs s' in (s'', handed ++ later)

  -- The copies that the rounds are to make into a memory of the length of `m`.
  unfoldable pub expected : List ℕ → List Round.Env → Source → List Effect
  expected m [] s = []
  expected m (env ∷ envs) s =
      let (s', _, _) = send_data codec.compress_into deliver cfg env s [] in
      frame_writes m env (choice_of env s).0 (payload_in cfg env s).0 ++ expected m envs s'

  -- Every round satisfies `IsRound`.
  abbrev pub AllRounds : ℕ → ℕ → ℕ → List Round.Env → Source → Type 0
  AllRounds n size limit [] s = Unit
  AllRounds n size limit (env ∷ envs) s =
      let (s', _, _) = send_data codec.compress_into deliver cfg env s [] in
      IsRound n size limit env (choice_of env s).0 × AllRounds n size limit envs s'
