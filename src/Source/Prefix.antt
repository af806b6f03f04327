-- ===== src/Source/Prefix.antt =====
-- teleport/src/source.rs, `session_info_end`: where the static prefix ends.
use iracing_teleport.Base.{
  ℕ, zero, suc, ◌+◌, ◌*◌, ◌≤◌, ◌<◌, ◌≡◌, inl, inr, List, arith, subst, Bool-cases, ltb→lt,
  le_of_not_ltb, length, min, ltb,
}
use iracing_teleport.Telemetry.{irsdk_header_size, read_i32, as_usize}
use iracing_teleport.Source.{least_offset, session_info_end}

least_offset_bounds :
    (left i : ℕ) (bytes : List ℕ) (m : ℕ)
    → i + left ≤ 4
    → irsdk_header_size ≤ length bytes
    → irsdk_header_size ≤ m
    → m ≤ length bytes
    → (irsdk_header_size ≤ least_offset left i bytes m) × (least_offset left i bytes m ≤ m)
unfolding least_offset
least_offset_bounds zero i bytes m h hb lo hi = (lo, omega arith)
least_offset_bounds (suc left) i bytes m h hb lo hi = ground (
  arith,
  least_offset_bounds left (i + 1) bytes m,
  least_offset_bounds left (i + 1) bytes (min m (as_usize (read_i32 bytes (48 + i * 16 + 4)))),
)

-- The offset of buffer `j`, where it is one that the code counts.
pub record IsCounted (bytes : List ℕ) (off : ℕ) : Type 0 where
  pub past_header : irsdk_header_size < off
  pub inside : off < length bytes

least_offset_here :
    (left i : ℕ) (bytes : List ℕ) (m : ℕ)
    → i + suc left ≤ 4
    → irsdk_header_size ≤ length bytes
    → irsdk_header_size ≤ m
    → m ≤ length bytes
    → IsCounted bytes (as_usize (read_i32 bytes (48 + i * 16 + 4)))
    → least_offset (suc left) i bytes m ≤ as_usize (read_i32 bytes (48 + i * 16 + 4))
unfolding least_offset
least_offset_here left i bytes m h hb lo hi c = ground (
  arith,
  least_offset_bounds left (i + 1) bytes (min m (as_usize (read_i32 bytes (48 + i * 16 + 4)))),
)

least_offset_least :
    (left i : ℕ) (bytes : List ℕ) (m j : ℕ)
    → i + left ≤ 4
    → irsdk_header_size ≤ length bytes
    → irsdk_header_size ≤ m
    → m ≤ length bytes
    → i ≤ j
    → j < i + left
    → IsCounted bytes (as_usize (read_i32 bytes (48 + j * 16 + 4)))
    → least_offset left i bytes m ≤ as_usize (read_i32 bytes (48 + j * 16 + 4))
unfolding least_offset
least_offset_least zero i bytes m j h hb lo hi hj hj' c = absurd (omega arith)
least_offset_least (suc left) i bytes m j h hb lo hi hj hj' c = elim (Bool-cases (ltb i j)) [
  | inl later ↦
      let after : i < j = ltb→lt i j later in
      ground (
        arith,
        after,
        least_offset_least left (i + 1) bytes m j,
        least_offset_least left (i + 1) bytes (min m (as_usize (read_i32 bytes (48 + i * 16 + 4))))
            j,
      )
  | inr here ↦
      let e : i ≡ j = omega (arith, le_of_not_ltb i j here) in
      subst
        (λ k.
          IsCounted bytes (as_usize (read_i32 bytes (48 + k * 16 + 4)))
          → least_offset (suc left) i bytes m ≤ as_usize (read_i32 bytes (48 + k * 16 + 4)))
        e (least_offset_here left i bytes m h hb lo hi) c
]

-- The prefix of a memory that holds a header ends past the header and inside the memory.
pub session_info_end_bounds :
    (bytes : List ℕ)
    → irsdk_header_size ≤ length bytes
    → (irsdk_header_size ≤ session_info_end bytes) × (session_info_end bytes ≤ length bytes)
unfolding session_info_end
session_info_end_bounds bytes h =
    ground
      (arith, least_offset_bounds (min (as_usize (read_i32 bytes 32)) 4) 0 bytes (length bytes))

-- In a memory that holds a header, no buffer that the header counts starts inside the prefix, if its
-- offset lies past the header and inside the memory.
pub session_info_end_least :
    (bytes : List ℕ) (j : ℕ)
    → irsdk_header_size ≤ length bytes
    → j < min (as_usize (read_i32 bytes 32)) 4
    → IsCounted bytes (as_usize (read_i32 bytes (48 + j * 16 + 4)))
    → session_info_end bytes ≤ as_usize (read_i32 bytes (48 + j * 16 + 4))
unfolding session_info_end
session_info_end_least bytes j h hj c =
    ground
      (arith, least_offset_least (min (as_usize (read_i32 bytes 32)) 4) 0 bytes (length bytes) j)
