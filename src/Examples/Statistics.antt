-- ===== src/Examples/Statistics.antt =====
-- teleport/src/stats.rs at small inputs: percentiles, and a window of one keyframe and one delta.
use iracing_teleport.Base.{◌≡◌, refl, [], ◌∷◌, true, false, some, arith}
use iracing_teleport.Stats
use iracing_teleport.Stats.{
  Stats, record_frame, maybe_print, window_line, checked_div, percentiles, select_nth, sort, insert,
}
use iracing_teleport.Stats.Ranks.{HasRank, percentiles-HasRank}
use iracing_teleport.Stats.Window.{IsWindow, new-IsWindow, record_frame-IsWindow}

percentiles_run : percentiles (30 ∷ 10 ∷ 20 ∷ []) ≡ (20, 30, 30)
unfolding percentiles select_nth sort insert
percentiles_run = refl

percentiles-HasRank_example :
    let (p50, p99, most) = percentiles (30 ∷ 10 ∷ 20 ∷ []) in
    HasRank (30 ∷ 10 ∷ 20 ∷ []) 1 p50
    × HasRank (30 ∷ 10 ∷ 20 ∷ []) 2 p99
    × HasRank (30 ∷ 10 ∷ 20 ∷ []) 2 most
percentiles-HasRank_example = percentiles-HasRank (30 ∷ 10 ∷ 20 ∷ []) (omega arith)

abbrev keyframe : Stats
keyframe = record_frame (Stats.new 0) 100 300 40 5 false false

abbrev delta : Stats
delta = record_frame keyframe 10 300 40 5 false true

record_frame-IsWindow_example : IsWindow keyframe × IsWindow (maybe_print keyframe 6000000).1
record_frame-IsWindow_example =
    record_frame-IsWindow (Stats.new 0) 100 300 40 5 false false 6000000 refl (new-IsWindow 0)

window_line_runs : (window_line delta).delta_pct ≡ some 50
unfolding window_line record_frame Stats.new checked_div
window_line_runs = refl
