-- ===== src/Stats/Window.antt =====
-- The window of stats.rs: what its counters and its lists of latencies agree on.
use iracing_teleport.Base.{
  ℕ, ◌+◌, ◌-◌, ◌*◌, ◌/◌, ◌≤◌, ◌<◌, ◌≡◌, refl, [], ◌∷◌, Bool, true, false, ◌&&◌, some, arith, length,
  ltb, ◌==◌, length-append,
}
use native.Mathlib.Nat.{div-le_of_le-mul}
use iracing_teleport.Stats.{
  Stats, new, record_frame, total_latency, maybe_print, window_line, checked_div,
}

-- Each update of the window is a full frame or a partial one, and each delta is partial.
pub record IsWindow (s : Stats) : Type 0 where
  pub counted : s.updates ≡ length s.full_latencies + length s.partial_latencies
  pub deltas : s.delta_updates ≤ length s.partial_latencies
  pub sources : length s.source_latencies ≤ length s.partial_latencies

pub new-IsWindow : (now : ℕ) → IsWindow (new now)
unfolding new
new-IsWindow now = ground arith

-- Recording a frame that is not full and a delta at once, and the end of a window after it, keep the
-- updates the sum of full and partial frames, and the deltas and the latencies of the source at most
-- the partial frames.
pub record_frame-IsWindow :
    (s : Stats) (compressed uncompressed source_us transit_us : ℕ) (is_full is_delta : Bool)
    (now : ℕ)
    → is_full && is_delta ≡ false
    → IsWindow s
    → let s' = record_frame s compressed uncompressed source_us transit_us is_full is_delta in
      IsWindow s' × IsWindow (maybe_print s' now).1
unfolding record_frame maybe_print
record_frame-IsWindow s compressed uncompressed source_us transit_us is_full is_delta now h v =
    let total = total_latency source_us transit_us in
    let c = v.counted in
    let d = v.deltas in
    let e = v.sources in
    let a1 = length-append {0} s.full_latencies (total ∷ []) in
    let a2 = length-append {0} s.partial_latencies (total ∷ []) in
    let a3 = length-append {0} s.source_latencies (source_us ∷ []) in ground arith

-- If a window as in `IsWindow` has deltas, the share that its line shows is a number, and at most 100.
pub window_line-IsWindow :
    (s : Stats)
    → IsWindow s
    → 0 < s.delta_updates
    → (pct : ℕ) × ((window_line s).delta_pct ≡ some pct) × (pct ≤ 100)
unfolding window_line checked_div
window_line-IsWindow s v h =
    let partial_updates = s.updates - length s.full_latencies in
    let pct = s.delta_updates * 100 / partial_updates in
    let c = v.counted in
    let d = v.deltas in
    let some_deltas : ltb 0 s.delta_updates ≡ true = ground arith in
    let some_partial : (partial_updates == 0) ≡ false = ground arith in
    (pct, rw (some_deltas, some_partial) refl, div-le_of_le-mul partial_updates (omega arith))
