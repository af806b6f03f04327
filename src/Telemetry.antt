-- ===== src/Telemetry.antt =====
-- teleport/src/telemetry: the layout of the shared memory, and what `WindowsTelemetry` reads of it.
-- An i32 is kept as its 32 bits.
pub mod Slots
pub mod Windows
pub mod Mock
use iracing_teleport.Base.{
  ℕ, zero, suc, ◌+◌, ◌-◌, ◌*◌, ◌%◌, ◌^◌, min, List, Bool, ◌||◌, Option, none, some, length,
  replicate, slice, overwrite, ltb, ◌==◌, if◌then◌else◌, from_le,
}

abbrev pub max_telemetry_size : ℕ
max_telemetry_size = 2 * 1024 * 1024

abbrev pub irsdk_header_size : ℕ
irsdk_header_size = 112

-- `i32::from_le_bytes(d[at..at + 4])`, as 32 bits.
unfoldable pub read_i32 : List ℕ → ℕ → ℕ
read_i32 d at = from_le (slice d at (at + 4))

-- `as usize` of an i32: a negative number is extended with its sign to 64 bits.
unfoldable pub as_usize : ℕ → ℕ
as_usize v = if ltb v (2 ^ 31) then v else 2 ^ 64 - 2 ^ 32 + v

-- `a > b` on i32: the order of the 32 bits with the sign flipped.
unfoldable pub i32_gt : ℕ → ℕ → Bool
i32_gt a b = ltb ((b + 2 ^ 31) % 2 ^ 32) ((a + 2 ^ 31) % 2 ^ 32)

-- The slot that the loop of `active_var_buf` keeps.
pub record Slot : Type 0 where
  pub best_tick : ℕ
  pub best_off : ℕ
  pub best_tick_off : ℕ

-- `for i in 0..num_buf`, with `left` rounds to go.
unfoldable pub best_slot : ℕ → ℕ → List ℕ → Slot → Slot
best_slot zero i d best = best
best_slot (suc left) i d best =
    let b = 48 + i * 16 in
    let better =
      if i32_gt (read_i32 d b) best.best_tick
      then record {
        best_tick = read_i32 d b;
        best_off = as_usize (read_i32 d (b + 4));
        best_tick_off = b;
      }
      else best in
    best_slot left (i + 1) d better

pub record ActiveBuf : Type 0 where
  pub off : ℕ
  pub len : ℕ
  pub tick : ℕ
  pub tick_off : ℕ

-- `WindowsTelemetry::active_var_buf`
unfoldable pub active_var_buf : List ℕ → Option ActiveBuf
active_var_buf d =
    let buf_len = as_usize (read_i32 d 36) in
    let num_buf = min (as_usize (read_i32 d 32)) 4 in
    let best =
      best_slot num_buf 0 d (record { best_tick = 2 ^ 31; best_off = 0; best_tick_off = 48 }) in
    if ltb (length d) irsdk_header_size
    then none
    else if (buf_len == 0) || ltb (length d) buf_len
    then none
    else if num_buf == 0
    then none
    else if ltb (length d) ((best.best_off + buf_len) % 2 ^ 64)
    then none
    else some (record {
      off = best.best_off;
      len = buf_len;
      tick = best.best_tick;
      tick_off = best.best_tick_off;
    })

-- `WindowsTelemetry::clear_status`
unfoldable pub clear_status : List ℕ → List ℕ
clear_status d = if ltb (length d) 8 then d else overwrite d 4 (replicate 4 0)
