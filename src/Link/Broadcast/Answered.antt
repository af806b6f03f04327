-- ===== src/Link/Broadcast/Answered.antt =====
-- A packet with which a target of teleport/src/target.rs asks the source of teleport/src/source.rs
-- for a session-info frame, and the answer as the target's rounds receive it.
use iracing_teleport.Base.{
  ℕ, ◌^◌, ◌≤◌, ◌<◌, ◌≡◌, refl, sym, subst, ◌∙◌, List, [], map, true, false, some, arith, length,
}
use iracing_teleport.Control.{Control, running}
use iracing_teleport.Protocol.Header.{u32_max}
use iracing_teleport.Protocol.Reassembly.RoundTrip.{deliver}
use iracing_teleport.Telemetry.{irsdk_header_size, max_telemetry_size}
use iracing_teleport.Source
use iracing_teleport.Source.{
  Source, choose, payload_of, prefix_payload, full_frame_interval, minus_one,
}
use iracing_teleport.Telemetry.Windows.{WindowsTelemetry, drop_telemetry}
use iracing_teleport.Source.Run.{
  Outside, Turn, Connection, found, stopping, refused, waiting, Outcome, goes_on, returned, waits,
  connect, reopened, reconnect,
}
use iracing_teleport.Source.Loop.{poll_cap, start_data, disconnect}
use iracing_teleport.Source.Kept.{poll_cap-IsKept}
use iracing_teleport.Source.Round
use iracing_teleport.Source.Round.{send_data}
use iracing_teleport.Target
use iracing_teleport.Target.{Target, Effect, prefix_writes, partial_writes}
use iracing_teleport.Link.Frames.{Codec}
use iracing_teleport.Link.Session.{memory}
use iracing_teleport.Link.Start.{prefix}
use iracing_teleport.Link.Rounds.{copies}
use iracing_teleport.Link.Delivered.{recv_all}
use iracing_teleport.Link.Message.{IsLive}
use iracing_teleport.Link.Transmit.{IsBounded}
use iracing_teleport.Link.Broadcast.{choice_of, frame_writes, IsRoomy}
use iracing_teleport.Link.Broadcast.Rounds.{chosen-IsKept, prefix-Follows}

-- Rounds of the target went on, copied the static prefix, and a full frame has been received.
pub record IsAnswered (m copied : List ℕ) (x : Control × Target × List Effect) : Type 0 where
  pub goes_on : x.0 ≡ running
  pub prefix_copied : copies x.2 ≡ prefix_writes m (prefix copied)
  pub full : x.1.has_full_frame ≡ true

-- A pending request forces a session-info frame.
asked-choice :
    (cfg : Source.Config) (flag capabilities : ℕ) (env : Round.Env) (s : Source)
    → (choice_of env (poll_cap cfg (some (flag, capabilities)) s)).0.buf_offset ≡ u32_max
unfolding choose start_data poll_cap
asked-choice cfg flag capabilities env s = ground arith

frame_writes-prefix :
    (cfg : Source.Config) (m : List ℕ) (env : Round.Env) (c : Source.Choice) (s : Source)
    → c.buf_offset ≡ u32_max
    → frame_writes m env c (payload_of cfg c env.copied env.rechecked s).0
      ≡ prefix_writes m (prefix env.copied)
unfolding payload_of prefix_payload
frame_writes-prefix cfg m env c s e = rw e refl

-- Before the first data of a connection.
fresh-choice :
    (env : Round.Env) (s : Source)
    → s.got_data ≡ false
    → full_frame_interval ≤ env.now
    → (choice_of env s).0.buf_offset ≡ u32_max
unfolding choose start_data
fresh-choice env s fresh late = ground arith

-- The variables after a reconnection, if the loop goes on.
abbrev IsBack : {W : Type 0} → Source → Outcome × W → Type 0
IsBack s (goes_on t s', w) =
    (s'.tick_counter ≡ 0)
    × (s'.last_tick ≡ minus_one)
    × (s'.got_data ≡ false)
    × (s'.sender ≡ s.sender)
IsBack s (returned r, w) = Unit
IsBack s (waits, w) = Unit

reopened-IsBack :
    {W : Type 0} (out : Outside W) (turn : Turn) (s : Source) (x : Connection × W)
    → IsBack s (reopened out turn (disconnect turn.env.now s) x)
unfolding reopened disconnect
reopened-IsBack out turn s (found t, w) = (refl, refl, refl, refl)
reopened-IsBack out turn s (stopping, w) = tt
reopened-IsBack out turn s (refused, w) = tt
reopened-IsBack out turn s (waiting, w) = tt

reconnect-IsBack :
    {W : Type 0} (out : Outside W) (turn : Turn) (t : WindowsTelemetry) (s : Source) (w : W)
    → IsBack s (reconnect out turn t s w)
unfolding reconnect
reconnect-IsBack out turn t s w =
    reopened-IsBack out turn s (connect out turn.waits (drop_telemetry out.win t w))

module _ (codec : Codec) (cfg : Source.Config) (target_cfg : Target.Config) (src : ℕ)
    (limit bound : ℕ) (limit_max : limit ≤ max_telemetry_size)
    (bounded : IsBounded codec limit bound) where
  -- A round with data that chooses a session-info frame, received.
  starts-IsAnswered :
      (env : Round.Env) (s : Source) (t : Target) (rounds : List (Target.Env × List ℕ))
      → (choice_of env s).0.buf_offset ≡ u32_max
      → irsdk_header_size ≤ length env.copied
      → length env.copied ≤ limit
      → env.source_us < 2 ^ 64
      → IsLive bound s.sender t
      → map (λ x. x.1) rounds ≡ (send_data codec.compress_into deliver cfg env s []).2
      → IsAnswered (memory t) env.copied (recv_all codec.decompress_into target_cfg src rounds t)
  unfolding send_data
  starts-IsAnswered env s t rounds starts header small time live handed =
      let (c, chosen) = choice_of env s in
      let (_, same) = chosen-IsKept env s in
      let roomy : IsRoomy 0 chosen t = omega arith in
      let stepped =
        prefix-Follows codec cfg target_cfg src limit bound 0 limit_max bounded env c chosen t
          rounds starts roomy (subst (λ k. IsLive bound k t) (sym same) live)
          (record {
            has_header = header;
            copied_small = small;
            time_u64 = time;
            fits = λ other. absurd (other starts);
          })
          handed in
      record {
        goes_on = stepped.goes_on;
        prefix_copied = stepped.copied ∙ frame_writes-prefix cfg (memory t) env c chosen starts;
        full = stepped.synced.full;
      }

  -- After a packet of a target the source's next round with data answers it: if its datagrams are
  -- handed over and the rounds of a target with an open memory receive all of them in order, these
  -- rounds go on, copy the static prefix of the memory of the game, and leave the target with a full
  -- frame. The memory of the game holds a header and at most `limit` bytes, compressed payloads have at
  -- most `bound`, and a message of these takes at most 256 datagrams of at most 9000 bytes and fits
  -- into the receiver. The sender and the receiver are valid, and the receiver is not at the sequence
  -- number of the message.
  pub recv_all-poll_cap :
      (flag capabilities : ℕ) (env : Round.Env) (s : Source) (t : Target)
      (rounds : List (Target.Env × List ℕ))
      → irsdk_header_size ≤ length env.copied
      → length env.copied ≤ limit
      → env.source_us < 2 ^ 64
      → IsLive bound s.sender t
      → (let asked = poll_cap cfg (some (flag, capabilities)) s in
          map (λ x. x.1) rounds ≡ (send_data codec.compress_into deliver cfg env asked []).2)
      → IsAnswered (memory t) env.copied (recv_all codec.decompress_into target_cfg src rounds t)
  recv_all-poll_cap flag capabilities env s t rounds header small time live handed =
      let (_, same) = poll_cap-IsKept cfg (some (flag, capabilities)) s in
      starts-IsAnswered env (poll_cap cfg (some (flag, capabilities)) s) t rounds
        (asked-choice cfg flag capabilities env s) header small time
        (subst (λ k. IsLive bound k t) (sym same) live) handed

  -- If the source goes on after a reconnection to the game, then it counts no partial frame and knows
  -- no tick, and the next round with data, at a time of at least the interval of full frames, sends a
  -- session-info frame: if its datagrams are handed over and the rounds of a target with an open memory
  -- receive all of them in order, these rounds go on, copy the static prefix of the memory of the game,
  -- and leave the target with a full frame. The memory of the game holds a header and at most `limit`
  -- bytes, compressed payloads have at most `bound`, and a message of these takes at most 256 datagrams
  -- of at most 9000 bytes and fits into the receiver. The sender and the receiver are valid, and the
  -- receiver is not at the sequence number of the message.
  pub recv_all-reconnect :
      {W : Type 0} (out : Outside W) (turn : Turn) (telemetry telemetry' : WindowsTelemetry)
      (s s' : Source) (w w' : W) (env : Round.Env) (t : Target)
      (rounds : List (Target.Env × List ℕ))
      → reconnect out turn telemetry s w ≡ (goes_on telemetry' s', w')
      → full_frame_interval ≤ env.now
      → irsdk_header_size ≤ length env.copied
      → length env.copied ≤ limit
      → env.source_us < 2 ^ 64
      → IsLive bound s.sender t
      → map (λ x. x.1) rounds ≡ (send_data codec.compress_into deliver cfg env s' []).2
      → (s'.tick_counter ≡ 0)
        × (s'.last_tick ≡ minus_one)
        × IsAnswered (memory t) env.copied (recv_all codec.decompress_into target_cfg src rounds t)
  recv_all-reconnect out turn telemetry telemetry' s s' w w' env t rounds e late header small time
        live handed =
      let back = reconnect-IsBack out turn telemetry s w in
      let (ticks, last, fresh, same) = subst (IsBack s) e back in
      (
        ticks,
        last,
        starts-IsAnswered env s' t rounds (fresh-choice env s' fresh late) header small time
            (subst (λ k. IsLive bound k t) (sym same) live) handed,
      )
