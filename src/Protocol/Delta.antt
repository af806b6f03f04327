-- ===== src/Protocol/Delta.antt =====
-- teleport/src/protocol.rs, `xor_delta`: eight bytes at a time as a u64, then the tail.
pub mod Bits
pub mod Bytewise
pub mod ZipXor
use Prim.Native.Nat.{bit_xor}
use iracing_teleport.Base.{
  ℕ, zero, suc, ◌+◌, ◌*◌, ◌/◌, List, length, get_or, set, slice, take, drop, overwrite, to_le,
  from_le, ◌++◌,
}

-- `for i in 0..chunks`, with `left` rounds to go: the eight bytes from `i * 8` on, as a u64.
unfoldable pub xor_chunks : ℕ → ℕ → List ℕ → List ℕ → List ℕ → List ℕ
xor_chunks zero i current previous output = output
xor_chunks (suc left) i current previous output =
    let c = from_le (slice current (i * 8) (i * 8 + 8)) in
    let p = from_le (slice previous (i * 8) (i * 8 + 8)) in
    xor_chunks left (i + 1) current previous (overwrite output (i * 8) (to_le 8 (bit_xor c p)))

-- `for i in 0..cur_tail.len()`
unfoldable pub xor_tail : ℕ → ℕ → List ℕ → List ℕ → List ℕ → List ℕ
xor_tail zero i current previous output = output
xor_tail (suc left) i current previous output =
    xor_tail left (i + 1) current previous
      (set output i (bit_xor (get_or current i 0) (get_or previous i 0)))

-- `xor_delta`, with the contents that it leaves in `output`.
unfoldable pub xor_delta : List ℕ → List ℕ → List ℕ → List ℕ
unfolding xor_chunks xor_tail
xor_delta current previous output =
    let cut = length current / 8 * 8 in
    xor_chunks (length current / 8) 0 (take cut current) (take cut previous) (take cut output)
    ++ xor_tail (length (drop cut current)) 0 (drop cut current) (drop cut previous)
        (drop cut output)
