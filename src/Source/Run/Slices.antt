-- ===== src/Source/Run/Slices.antt =====
-- The slices that a round with data of teleport/src/source.rs takes of the memory of the game and of
-- its own buffers, where the code would panic out of bounds.
use iracing_teleport.Base.{
  ℕ, ◌+◌, ◌-◌, ◌%◌, ◌^◌, ◌≤◌, ◌≡◌, refl, sym, subst, ap, ◌⊎◌, inl, inr, List, Bool, true, false,
  Option, none, some, arith, length, ltb, leb, not, ◌||◌, ◌==◌, if◌then◌else◌, Bool-cases,
  le_of_not_ltb,
}
use iracing_teleport.Protocol.Header.{u32_max}
use iracing_teleport.Protocol.Sender.{Result}
use iracing_teleport.Telemetry.{
  max_telemetry_size, irsdk_header_size, ActiveBuf, active_var_buf, read_i32,
}
use iracing_teleport.Telemetry.Slots.{HasPlainOffsets, active_var_buf_inside}
use iracing_teleport.Telemetry.Windows.{WindowsTelemetry}
use iracing_teleport.Source.{
  Source, Config, Choice, Payload, skip, frame, choose, payload_of, partial_payload,
  session_info_end, full_frame_interval, full_choice, prefix_payload,
}
use iracing_teleport.Source.Loop.{start_data}
use iracing_teleport.Source.Prefix.{session_info_end_bounds}
use iracing_teleport.Source.Round.{Env}
use iracing_teleport.Source.Valid.{IsSource, choose-IsSource}
use iracing_teleport.Source.Run.{Outside}
use iracing_teleport.Source.Run.Reach.{Reach, Reach-IsSource}

-- What the three reads of a round show: a memory that holds a header and is not larger than the
-- buffers, in which no counted buffer has a negative offset.
pub record IsPlainMemory (env : Env) : Type 0 where
  pub has_header : irsdk_header_size ≤ length env.copied
  pub small : length env.copied ≤ max_telemetry_size
  pub same_size : length env.seen ≡ length env.copied
  pub plain : HasPlainOffsets env.seen

-- `[..full_len]` of `partial_staging`, `prev_varbuf` and `delta_buf`, if a frame is sent.
abbrev pub FitsBuffers : Choice → Source → Payload → Type 0
FitsBuffers c s skip = Unit
FitsBuffers c s (frame bytes is_delta wire) =
    let full_len = irsdk_header_size + c.len in
    (full_len ≤ max_telemetry_size)
    × (full_len ≤ length s.prev_varbuf)
    × (full_len ≤ length s.delta_buf)

-- `[..prefix_end]` of the memory and of `partial_staging`, or, for a partial frame, `payload_slice`
-- and the header of the memory, and the slices of the buffers.
abbrev pub IsInBounds : List ℕ → Choice → Source → Payload → Type 0
IsInBounds copied c s p =
    ((c.buf_offset ≡ u32_max)
      × (session_info_end copied ≤ length copied)
      × (session_info_end copied ≤ max_telemetry_size))
    ⊎ ((c.start + c.len ≤ length copied) × (irsdk_header_size ≤ length copied) × FitsBuffers c s p)

-- The choice is the whole memory, or the buffer that `active_var_buf` found.
abbrev IsFound : List ℕ → Choice → Type 0
IsFound seen c =
    (c.buf_offset ≡ u32_max)
    ⊎ ((a : ActiveBuf) × (active_var_buf seen ≡ some a) × (c.start ≡ a.off) × (c.len ≡ a.len))

choice-IsFound :
    (seen : List ℕ) (forced : Bool) (x : Choice × Source) (o : Option ActiveBuf) (s s' : Source)
    → x.0.buf_offset ≡ u32_max
    → active_var_buf seen ≡ o
    → IsFound seen
        (if forced then x else elim o as (λ _. Choice × Source) [
          | none ↦ (full_choice seen, s')
          | some a ↦ (
            record {
              buf_offset = a.off % 2 ^ 32;
              start = a.off;
              len = a.len;
              tick_before = a.tick;
              tick_field_off = a.tick_off;
            },
            s,
          )
        ]).0
choice-IsFound seen true x o s s' h e = inl h
choice-IsFound seen false x none s s' h e = inl refl
choice-IsFound seen false x (some a) s s' h e = inr (a, e, refl, refl)

choose-IsFound : (now : ℕ) (seen : List ℕ) (s : Source) → IsFound seen (choose now seen s).0
unfolding choose
choose-IsFound now seen s =
    let update = if leb 16 (length seen) then read_i32 seen 12 else 0 in
    let forced =
      not (update == s.last_session_update)
      || (leb full_frame_interval (now - s.last_full_frame) || s.pending_resync) in
    let full : Source = record s {
      last_session_update = update;
      last_full_frame = now;
      pending_resync = false;
    } in
    choice-IsFound seen forced (full_choice seen, full) (active_var_buf seen) s
      (record s { last_full_frame = now; pending_resync = false }) refl refl

fits_all :
    (c : Choice) (s : Source) (p : Payload)
    → IsSource s
    → irsdk_header_size + c.len ≤ max_telemetry_size
    → FitsBuffers c s p
fits_all c s skip v h = tt
fits_all c s (frame bytes is_delta wire) v h =
    (h, omega (arith, v.prev_size), omega (arith, v.delta_size))

partial_payload-FitsBuffers :
    (cfg : Config) (c : Choice) (copied rechecked : List ℕ) (s : Source)
    → IsSource s
    → FitsBuffers c s (partial_payload cfg c copied rechecked s).0
unfolding partial_payload
partial_payload-FitsBuffers cfg c copied rechecked s v =
    elim (Bool-cases (ltb max_telemetry_size (irsdk_header_size + c.len))) [
      | inl large ↦ rw large tt
      | inr fits ↦
          fits_all c s (partial_payload cfg c copied rechecked s).0 v
            (le_of_not_ltb max_telemetry_size (irsdk_header_size + c.len) fits)
    ]

is_u32_max : (off : ℕ) → (off == u32_max) ≡ true → off ≡ u32_max
is_u32_max off e = ground arith

not_u32_max : (off : ℕ) → (off == u32_max) ≡ false → off ≡ u32_max → ⊥
not_u32_max off e e' = ground arith

pub payload_of-IsInBounds :
    (cfg : Config) (env : Env) (s : Source)
    → IsSource s
    → IsPlainMemory env
    → let (c, chosen) = choose env.now env.seen (start_data env.now s) in
      let (p, _) = payload_of cfg c env.copied env.rechecked chosen in
      IsInBounds env.copied c chosen p
unfolding payload_of
payload_of-IsInBounds cfg env s v m =
    let (c, chosen) = choose env.now env.seen (start_data env.now s) in
    let (_, prefix_small) = session_info_end_bounds env.copied m.has_header in
    let partial_chosen = (partial_payload cfg c env.copied env.rechecked chosen).0 in
    let partial_fits =
      partial_payload-FitsBuffers cfg c env.copied env.rechecked chosen
        (choose-IsSource env.now env.seen s v) in
    elim (Bool-cases (c.buf_offset == u32_max)) [
      | inl whole ↦
          inl (is_u32_max c.buf_offset whole, prefix_small, omega (arith, prefix_small, m.small))
      | inr part ↦
          subst (IsInBounds env.copied c chosen)
            (sym (
              ap
                (λ b.
                  (if b
                    then prefix_payload env.copied chosen
                    else partial_payload cfg c env.copied env.rechecked chosen).0)
                part))
            (elim (choose-IsFound env.now env.seen (start_data env.now s)) [
              | inl whole ↦ absurd (not_u32_max c.buf_offset part whole)
              | inr (a, found, start, len) ↦
                  let inside =
                    active_var_buf_inside env.seen a (omega (arith, m.small, m.same_size)) m.plain
                      found in
                  inr (omega (arith, inside, start, len, m.same_size), m.has_header, partial_fits)
            ])
    ]

-- In each state that the loop of the source reaches, the next round with data takes each slice of the
-- memory of the game and of its own buffers in bounds, if the memory holds a header, is not larger
-- than the buffers, keeps its size, and has no counted buffer with a negative offset.
pub Reach-IsInBounds :
    {W : Type 0} (out : Outside W) (send_one : List ℕ → W → Result (Unit {0}) × W) (cfg : Config)
    (poll_ms datagram_size : ℕ) {t : WindowsTelemetry} {now : ℕ} {w : W} {t' : WindowsTelemetry}
    {s : Source} {w' : W} (env : Env)
    → Reach out send_one cfg poll_ms datagram_size t now w t' s w'
    → IsPlainMemory env
    → let (c, chosen) = choose env.now env.seen (start_data env.now s) in
      let (p, _) = payload_of cfg c env.copied env.rechecked chosen in
      IsInBounds env.copied c chosen p
Reach-IsInBounds out send_one cfg poll_ms datagram_size {s = s} env r m =
    payload_of-IsInBounds cfg env s (Reach-IsSource out send_one cfg poll_ms datagram_size r) m
