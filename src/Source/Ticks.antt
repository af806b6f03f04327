-- ===== src/Source/Ticks.antt =====
-- teleport/src/source.rs: the ticks of the partial frames that are sent, over rounds with data.
use iracing_teleport.Base.{
  ℕ, ◌+◌, ◌≡◌, ◌≢◌, List, [], ◌∷◌, ◌++◌, Option, none, some, length, leb, ◌==◌, if◌then◌else◌,
}
use iracing_teleport.Protocol.Header.{u32_max}
use iracing_teleport.Protocol.Sender.{Result}
use iracing_teleport.Telemetry.{read_i32}
use iracing_teleport.Source.{
  Source, Config, Choice, Payload, skip, frame, choose, payload_of, minus_one,
}
use iracing_teleport.Source.Loop.{start_data}
use iracing_teleport.Source.Round.{Env, send_data}

-- The tick that the memory shows at the place of the chosen buffer, after the copy.
abbrev pub tick_after : Env → Choice → ℕ
tick_after env c =
    if leb (c.tick_field_off + 4) (length env.rechecked)
    then read_i32 env.rechecked c.tick_field_off
    else c.tick_before

-- What a round sends: a session-info frame, or a partial frame with its tick and the one after the
-- copy.
abbrev pub mark : Env → Choice → Payload → List (Option (ℕ × ℕ))
mark env c skip = []
mark env c (frame bytes is_delta wire) =
    (if c.buf_offset == u32_max then none else some (c.tick_before, tick_after env c)) ∷ []

-- Each partial frame has the tick that the memory showed before and after its copy, and another one
-- than the partial frame before it; -1 stands for the last tick after a session-info frame.
abbrev pub AreFresh : ℕ → List (Option (ℕ × ℕ)) → Type 0
AreFresh last [] = Unit
AreFresh last (none ∷ frames) = AreFresh minus_one frames
AreFresh last (some (tick, after) ∷ frames) = (tick ≢ last) × (after ≡ tick) × AreFresh tick frames

-- The same for one round, which leaves `after` as the last tick.
abbrev Marks : ℕ → List (Option (ℕ × ℕ)) → ℕ → Type 0
Marks last [] after = after ≡ last
Marks last (none ∷ []) after = after ≡ minus_one
Marks last (some (tick, read) ∷ []) after = (tick ≢ last) × (read ≡ tick) × (after ≡ tick)
Marks last (m ∷ m' ∷ ms) after = ⊥

module _ (compress_into : List ℕ → Option (List ℕ)) {W : Type 0}
    (send_fn : List ℕ → W → Result (Unit {0}) × W) (cfg : Config) where
  -- What rounds with data send, over any transport.
  pub sent_frames : List Env → Source → W → List (Option (ℕ × ℕ))
  sent_frames [] s w = []
  sent_frames (env ∷ envs) s w =
      let (c, chosen) = choose env.now env.seen (start_data env.now s) in
      let (p, _) = payload_of cfg c env.copied env.rechecked chosen in
      let (s', _, w') = send_data compress_into send_fn cfg env s w in
      mark env c p ++ sent_frames envs s' w'
