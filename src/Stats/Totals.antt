-- ===== src/Stats/Totals.antt =====
-- What the statistics of teleport/src/stats.rs add up to.
use mathlib.Core.Option
use iracing_teleport.Base.{
  ◌≡◌, some, ℕ, ◌+◌, ◌*◌, ◌/◌, ◌^◌, ◌≤◌, ◌<◌, Bool, arith, ltb, if◌then◌else◌,
}
use native.Mathlib.Nat.{mul-le-mul_right, le-div_iff_mul-le, div-le_of_le-mul}
use iracing_teleport.Stats.{
  Stats, new, record_frame, total_latency, lifetime_snapshot, SummaryLine, summary_line,
}

-- The sum of the latencies that were recorded stands between the least and the greatest of them,
-- times the number of frames, and both are u64.
pub record IsStats (s : Stats) : Type 0 where
  pub sum_ge : s.lifetime_latency_min * s.lifetime_updates ≤ s.lifetime_latency_sum
  pub sum_le : s.lifetime_latency_sum ≤ s.lifetime_latency_max * s.lifetime_updates
  pub max_small : s.lifetime_latency_max < 2 ^ 64

pub new-IsStats : (now : ℕ) → IsStats (new now)
unfolding new
new-IsStats now = ground arith

total_latency_small : (a b : ℕ) → total_latency a b < 2 ^ 64
unfolding total_latency
total_latency_small a b = omega arith

-- One more number that is not below the least, or not above the greatest.
sum_ge_next : (lo lo' n sum x : ℕ) → lo' ≤ lo → lo' ≤ x → lo * n ≤ sum → lo' * (n + 1) ≤ sum + x
sum_ge_next lo lo' n sum x h h' hs = omega (arith, mul-le-mul_right {m = lo'} {n = lo} n h)

sum_le_next : (hi hi' n sum x : ℕ) → hi ≤ hi' → x ≤ hi' → sum ≤ hi * n → sum + x ≤ hi' * (n + 1)
sum_le_next hi hi' n sum x h h' hs = omega (arith, mul-le-mul_right {m = hi} {n = hi'} n h)

-- Recording a frame keeps the sum of the latencies between the least and the greatest of them,
-- times the number of frames, and the greatest a u64.
pub record_frame-IsStats :
    (s : Stats) (compressed uncompressed source_us transit_us : ℕ) (is_full is_delta : Bool)
    → IsStats s
    → IsStats (record_frame s compressed uncompressed source_us transit_us is_full is_delta)
unfolding record_frame
record_frame-IsStats s compressed uncompressed source_us transit_us is_full is_delta v =
    let total = total_latency source_us transit_us in
    let n = s.lifetime_updates in
    let new_min = if ltb total s.lifetime_latency_min then total else s.lifetime_latency_min in
    let new_max = if ltb s.lifetime_latency_max total then total else s.lifetime_latency_max in
    record {
      sum_ge =
          sum_ge_next s.lifetime_latency_min new_min n s.lifetime_latency_sum total (ground arith)
            (ground arith) v.sum_ge;
      sum_le =
          sum_le_next s.lifetime_latency_max new_max n s.lifetime_latency_sum total (ground arith)
            (ground arith) v.sum_le;
      max_small = ground (arith, total_latency_small source_us transit_us);
    }

-- Once a frame was recorded, the average that the callback is given lies between the least and the
-- greatest latency, if the sum does so as in `IsStats`.
pub lifetime_snapshot-IsStats :
    (s : Stats)
    → IsStats s
    → 0 < s.lifetime_updates
    → let (msgs, bytes, avg) = lifetime_snapshot s in
      (s.lifetime_latency_min ≤ avg) × (avg ≤ s.lifetime_latency_max)
unfolding lifetime_snapshot
lifetime_snapshot-IsStats s v h =
    let avg = s.lifetime_latency_sum / s.lifetime_updates in
    let lo : s.lifetime_latency_min ≤ avg = (le-div_iff_mul-le h).1 v.sum_ge in
    let hi : avg ≤ s.lifetime_latency_max =
      div-le_of_le-mul s.lifetime_updates (omega (arith, v.sum_le)) in
    let small = v.max_small in ground arith

-- The summary is printed once a frame was recorded, with the numbers that the callback is given.
pub summary_line-lifetime_snapshot :
    (s : Stats)
    → 0 < s.lifetime_updates
    → Option.map (λ (l : SummaryLine). (l.msgs, l.bytes, l.avg)) (summary_line s)
      ≡ some (lifetime_snapshot s)
unfolding summary_line lifetime_snapshot
summary_line-lifetime_snapshot s h = ground (arith, h)
