-- ===== src/Stats.antt =====
-- teleport/src/stats.rs, `Stats`. The counters of frames and bytes are u64 that the program does
-- not let reach 2 ^ 64, and are unbounded here; the sum of two times, of which one comes from the
-- wire, wraps as it does in a release build. Of the printed lines the whole numbers are modelled, not
-- the rates, which are f64, nor the text.
pub mod Totals
pub mod Ranks
pub mod Window
use iracing_teleport.Base.{
  ℕ, ◌+◌, ◌-◌, ◌*◌, ◌/◌, ◌%◌, ◌^◌, List, [], ◌++◌, ◌∷◌, Bool, true, false, ltb, if◌then◌else◌,
  Option, none, some, length, get_or, leb, ◌==◌, min,
}

-- Times are in microseconds.
abbrev pub print_interval : ℕ
print_interval = 5 * 1000000

pub record Stats : Type 0 where
  pub started_at : ℕ
  pub window_start : ℕ
  pub updates : ℕ
  pub bytes : ℕ
  pub uncompressed_bytes : ℕ
  pub delta_updates : ℕ
  pub dropped : ℕ
  pub partial_latencies : List ℕ
  pub full_latencies : List ℕ
  pub source_latencies : List ℕ
  pub lifetime_updates : ℕ
  pub lifetime_bytes : ℕ
  pub lifetime_uncompressed_bytes : ℕ
  pub lifetime_dropped : ℕ
  pub lifetime_latency_sum : ℕ
  pub lifetime_latency_min : ℕ
  pub lifetime_latency_max : ℕ

unfoldable pub new : ℕ → Stats
new now = record {
  started_at = now;
  window_start = now;
  updates = 0;
  bytes = 0;
  uncompressed_bytes = 0;
  delta_updates = 0;
  dropped = 0;
  partial_latencies = [];
  full_latencies = [];
  source_latencies = [];
  lifetime_updates = 0;
  lifetime_bytes = 0;
  lifetime_uncompressed_bytes = 0;
  lifetime_dropped = 0;
  lifetime_latency_sum = 0;
  lifetime_latency_min = 2 ^ 64 - 1;
  lifetime_latency_max = 0;
}

-- `source_us + transit_us`
unfoldable pub total_latency : ℕ → ℕ → ℕ
total_latency source_us transit_us = (source_us + transit_us) % 2 ^ 64

-- `Stats::record`; `record` is a keyword here.
unfoldable pub record_frame : Stats → ℕ → ℕ → ℕ → ℕ → Bool → Bool → Stats
record_frame s compressed uncompressed source_us transit_us is_full is_delta =
    let total_us = total_latency source_us transit_us in
    record s {
      updates = s.updates + 1;
      bytes = s.bytes + compressed;
      uncompressed_bytes = s.uncompressed_bytes + uncompressed;
      delta_updates = if is_delta then s.delta_updates + 1 else s.delta_updates;
      full_latencies = if is_full then s.full_latencies ++ (total_us ∷ []) else s.full_latencies;
      partial_latencies =
          if is_full then s.partial_latencies else s.partial_latencies ++ (total_us ∷ []);
      source_latencies =
          if is_full
          then s.source_latencies
          else if ltb 0 transit_us
          then s.source_latencies ++ (source_us ∷ [])
          else s.source_latencies;
      lifetime_updates = s.lifetime_updates + 1;
      lifetime_bytes = s.lifetime_bytes + compressed;
      lifetime_uncompressed_bytes = s.lifetime_uncompressed_bytes + uncompressed;
      lifetime_latency_sum = s.lifetime_latency_sum + total_us;
      lifetime_latency_min =
          if ltb total_us s.lifetime_latency_min then total_us else s.lifetime_latency_min;
      lifetime_latency_max =
          if ltb s.lifetime_latency_max total_us then total_us else s.lifetime_latency_max;
    }

unfoldable pub record_dropped : Stats → ℕ → Stats
record_dropped s count = record s {
  dropped = s.dropped + count;
  lifetime_dropped = s.lifetime_dropped + count;
}

unfoldable pub lifetime_snapshot : Stats → ℕ × ℕ × ℕ
lifetime_snapshot s =
    let avg =
      if ltb 0 s.lifetime_updates
      then (s.lifetime_latency_sum / s.lifetime_updates) % 2 ^ 64
      else 0 in
    (s.lifetime_updates, s.lifetime_bytes, avg)

-- `maybe_print` without the line that it prints.
unfoldable pub maybe_print : Stats → ℕ → Bool × Stats
maybe_print s now = if ltb (now - s.window_start) print_interval then (false, s) else (
  true,
  record s {
    updates = 0;
    bytes = 0;
    uncompressed_bytes = 0;
    delta_updates = 0;
    dropped = 0;
    partial_latencies = [];
    full_latencies = [];
    source_latencies = [];
    window_start = now;
  },
)

-- The samples in order.
unfoldable pub insert : ℕ → List ℕ → List ℕ
insert x [] = x ∷ []
insert x (y ∷ ys) = let rest = insert x ys in if leb x y then x ∷ y ∷ ys else y ∷ rest

unfoldable pub sort : List ℕ → List ℕ
sort [] = []
sort (x ∷ xs) = insert x (sort xs)

-- `*samples.select_nth_unstable(k).1`: the sample that stands at `k` when they are in order.
unfoldable pub select_nth : List ℕ → ℕ → ℕ
select_nth samples k = get_or (sort samples) k 0

unfoldable pub percentiles : List ℕ → ℕ × ℕ × ℕ
percentiles [] = (0, 0, 0)
percentiles (x ∷ xs) =
    let samples = x ∷ xs in
    let n = length samples in
    let p50_idx = n / 2 in
    let p99_idx = min (n * 99 / 100) (n - 1) in
    (select_nth samples p50_idx, select_nth samples p99_idx, select_nth samples (n - 1))

abbrev pub sum : List ℕ → ℕ
sum [] = 0
sum (x ∷ xs) = x + sum xs

-- `checked_div`
unfoldable pub checked_div : ℕ → ℕ → Option ℕ
checked_div a b = if b == 0 then none else some (a / b)

-- `unwrap_or(0)`
unfoldable pub or_zero : Option ℕ → ℕ
or_zero none = 0
or_zero (some n) = n

-- The whole numbers of the line that `maybe_print` prints: the percentiles of the partial frames, the
-- count and the average of the full ones, the percentiles of the source, and the share of deltas.
pub record WindowLine : Type 0 where
  pub partial : ℕ × ℕ × ℕ
  pub full_count : ℕ
  pub full_avg : ℕ
  pub source : ℕ × ℕ × ℕ
  pub delta_pct : Option ℕ
  pub dropped : ℕ

unfoldable pub window_line : Stats → WindowLine
window_line s =
    let full_count = length s.full_latencies in
    record {
      partial = percentiles s.partial_latencies;
      full_count = full_count;
      full_avg = or_zero (checked_div (sum s.full_latencies % 2 ^ 64) full_count);
      source = percentiles s.source_latencies;
      delta_pct =
          if ltb 0 s.delta_updates
          then checked_div (s.delta_updates * 100) (s.updates - full_count)
          else none;
      dropped = s.dropped;
    }

-- The whole numbers of the line that `print_summary` prints.
pub record SummaryLine : Type 0 where
  pub msgs : ℕ
  pub bytes : ℕ
  pub avg : ℕ
  pub min_latency : ℕ
  pub max_latency : ℕ
  pub dropped : ℕ

-- `print_summary`; `none` where it says that no data was transferred.
unfoldable pub summary_line : Stats → Option SummaryLine
summary_line s =
    if s.lifetime_updates == 0
    then none
    else some (record {
      msgs = s.lifetime_updates;
      bytes = s.lifetime_bytes;
      avg = (s.lifetime_latency_sum / s.lifetime_updates) % 2 ^ 64;
      min_latency = s.lifetime_latency_min;
      max_latency = s.lifetime_latency_max;
      dropped = s.lifetime_dropped;
    })
