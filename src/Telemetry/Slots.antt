-- ===== src/Telemetry/Slots.antt =====
-- teleport/src/telemetry/windows.rs, `active_var_buf`: the slot that it chooses.
use iracing_teleport.Base.{
  ℕ, zero, suc, ◌+◌, ◌*◌, ◌%◌, ◌^◌, ◌≤◌, ◌<◌, ◌≡◌, refl, ◌⊎◌, inl, inr, List, Bool, true, false,
  some, arith, length, min, ltb, if◌then◌else◌, Bool-cases, ltb→lt, le_of_not_ltb, subst,
}
use iracing_teleport.Telemetry.{
  Slot, ActiveBuf, best_slot, active_var_buf, read_i32, as_usize, i32_gt,
}

-- The order of i32, on their 32 bits with the sign flipped.
abbrev pub signed : ℕ → ℕ
signed v = (v + 2 ^ 31) % 2 ^ 32

-- The rounds never lower the tick.
best_slot_mono :
    (left i : ℕ) (d : List ℕ) (best : Slot)
    → signed best.best_tick ≤ signed (best_slot left i d best).best_tick
unfolding best_slot i32_gt
best_slot_mono zero i d best = omega arith
best_slot_mono (suc left) i d best = ground (
  arith,
  best_slot_mono left (i + 1) d best,
  best_slot_mono left (i + 1) d (record {
    best_tick = read_i32 d (48 + i * 16);
    best_off = as_usize (read_i32 d (48 + i * 16 + 4));
    best_tick_off = 48 + i * 16;
  }),
)

best_slot_here :
    (left i : ℕ) (d : List ℕ) (best : Slot)
    → signed (read_i32 d (48 + i * 16)) ≤ signed (best_slot (suc left) i d best).best_tick
unfolding best_slot i32_gt
best_slot_here left i d best = ground (
  arith,
  best_slot_mono left (i + 1) d best,
  best_slot_mono left (i + 1) d (record {
    best_tick = read_i32 d (48 + i * 16);
    best_off = as_usize (read_i32 d (48 + i * 16 + 4));
    best_tick_off = 48 + i * 16;
  }),
)

best_slot_greatest :
    (left i : ℕ) (d : List ℕ) (best : Slot) (j : ℕ)
    → i ≤ j
    → j < i + left
    → signed (read_i32 d (48 + j * 16)) ≤ signed (best_slot left i d best).best_tick
unfolding best_slot i32_gt
best_slot_greatest zero i d best j h h' = absurd (omega arith)
best_slot_greatest (suc left) i d best j h h' = elim (Bool-cases (ltb i j)) [
  | inl later ↦
      let after : i < j = ltb→lt i j later in
      ground (
        arith,
        after,
        best_slot_greatest left (i + 1) d best j,
        best_slot_greatest left (i + 1) d
            (record {
              best_tick = read_i32 d (48 + i * 16);
              best_off = as_usize (read_i32 d (48 + i * 16 + 4));
              best_tick_off = 48 + i * 16;
            })
            j,
      )
  | inr here ↦
      let e : i ≡ j = omega (arith, le_of_not_ltb i j here) in
      subst
        (λ k. signed (read_i32 d (48 + k * 16)) ≤ signed (best_slot (suc left) i d best).best_tick)
        e (best_slot_here left i d best)
]

-- A slot of the header, or none yet.
abbrev pub IsSlot : List ℕ → Slot → Type 0
IsSlot d b =
    (b.best_tick ≡ 2 ^ 31)
    ⊎ ((b.best_tick ≡ read_i32 d b.best_tick_off)
        × (b.best_off ≡ as_usize (read_i32 d (b.best_tick_off + 4))))

either-IsSlot :
    (d : List ℕ) (b : Bool) (x y : Slot) → IsSlot d x → IsSlot d y → IsSlot d (if b then x else y)
either-IsSlot d true x y h h' = h
either-IsSlot d false x y h h' = h'

best_slot-IsSlot :
    (left i : ℕ) (d : List ℕ) (best : Slot) → IsSlot d best → IsSlot d (best_slot left i d best)
unfolding best_slot
best_slot-IsSlot zero i d best h = h
best_slot-IsSlot (suc left) i d best h =
    let b = 48 + i * 16 in
    let slot : Slot = record {
      best_tick = read_i32 d b;
      best_off = as_usize (read_i32 d (b + 4));
      best_tick_off = b;
    } in
    let better = i32_gt (read_i32 d b) best.best_tick in
    best_slot-IsSlot left (i + 1) d (if better then slot else best)
      (either-IsSlot d better slot best (inr (refl, refl)) h)

-- No buffer that the header counts has a negative offset.
abbrev pub HasPlainOffsets : List ℕ → Type 0
HasPlainOffsets d =
    (i : ℕ) → i < min (as_usize (read_i32 d 32)) 4 → read_i32 d (48 + i * 16 + 4) < 2 ^ 31

as_usize_small : (v : ℕ) → v < 2 ^ 31 → as_usize v < 2 ^ 31
unfolding as_usize
as_usize_small v h = ground arith

best_slot_off :
    (left i : ℕ) (d : List ℕ) (best : Slot)
    → best.best_off < 2 ^ 31
    → ((j : ℕ) → j < i + left → read_i32 d (48 + j * 16 + 4) < 2 ^ 31)
    → (best_slot left i d best).best_off < 2 ^ 31
unfolding best_slot as_usize
best_slot_off zero i d best h plain = h
best_slot_off (suc left) i d best h plain =
    let here = plain i (omega arith) in
    let plain' : (j : ℕ) → j < i + 1 + left → read_i32 d (48 + j * 16 + 4) < 2 ^ 31 =
      λ j lt. plain j (omega arith) in
    ground (
      arith,
      best_slot_off left (i + 1) d best h plain',
      best_slot_off left (i + 1) d
          (record {
            best_tick = read_i32 d (48 + i * 16);
            best_off = as_usize (read_i32 d (48 + i * 16 + 4));
            best_tick_off = 48 + i * 16;
          })
          (as_usize_small (read_i32 d (48 + i * 16 + 4)) here) plain',
    )

pub active_var_buf_inside :
    (d : List ℕ) (a : ActiveBuf)
    → length d < 2 ^ 63
    → HasPlainOffsets d
    → active_var_buf d ≡ some a
    → a.off + a.len ≤ length d
unfolding active_var_buf
active_var_buf_inside d a small plain e =
    let num = min (as_usize (read_i32 d 32)) 4 in
    let none_yet : Slot = record { best_tick = 2 ^ 31; best_off = 0; best_tick_off = 48 } in
    let low = best_slot_off num 0 d none_yet (omega arith) (λ j lt. plain j (omega arith)) in
    ground (arith, low)

-- In a memory of less than 2 ^ 63 bytes in which no counted buffer has a negative offset, the buffer
-- that is chosen lies inside the memory; its tick is not below that of any buffer that the header
-- counts, by the order of i32; and unless its tick is the least i32, tick and offset are those at the
-- place in the header that is returned.
pub active_var_buf_greatest :
    (d : List ℕ) (a : ActiveBuf) (j : ℕ)
    → length d < 2 ^ 63
    → HasPlainOffsets d
    → active_var_buf d ≡ some a
    → j < min (as_usize (read_i32 d 32)) 4
    → (signed (read_i32 d (48 + j * 16)) ≤ signed a.tick)
      × (a.off + a.len ≤ length d)
      × ((a.tick ≡ 2 ^ 31)
          ⊎ ((a.tick ≡ read_i32 d a.tick_off) × (a.off ≡ as_usize (read_i32 d (a.tick_off + 4)))))
unfolding active_var_buf
active_var_buf_greatest d a j small plain e h =
    let num = min (as_usize (read_i32 d 32)) 4 in
    let none_yet : Slot = record { best_tick = 2 ^ 31; best_off = 0; best_tick_off = 48 } in
    let greatest = best_slot_greatest num 0 d none_yet j (omega arith) (omega arith) in
    let slot = best_slot-IsSlot num 0 d none_yet (inl refl) in
    (ground (arith, greatest), active_var_buf_inside d a small plain e, ground (arith, slot))
