-- ===== src/Examples/Recordings.antt =====
-- teleport/src/ibt_writer.rs at small inputs: a map of 262 bytes with one variable, and a disk that is
-- one file in memory.
use iracing_teleport.Base.{
  ℕ, ◌+◌, ◌<◌, ◌≡◌, ◌≢◌, refl, List, [], ◌∷◌, ◌++◌, true, false, none, some, arith, length, ltb,
  if◌then◌else◌, drop, ap, ◌%◌, ◌^◌,
}
use iracing_teleport.Protocol.Sender.{ok, err, other, timed_out}
use iracing_teleport.Telemetry.{read_i32, as_usize, i32_gt}
use iracing_teleport.Ibt.{
  MapLayout, parse, buf_off, layout_of, find_var, row_off, active_varbuf, best_varbuf, is_better,
  clamp_buf, until_zero, same_bytes,
}
use iracing_teleport.Ibt.Prefix.{IsSane}
use iracing_teleport.Ibt.Parsed.{parse-IsSane}
use iracing_teleport.Ibt.Writer.{
  Disk, opened, already_exists, IbtWriter, new, open_unique, finish, i32_min,
}
use iracing_teleport.Ibt.Recording.{rows_of, concat}
use iracing_teleport.Ibt.Reread.{disk_layout}
use iracing_teleport.Ibt.Feed.{AllOfSession, feed, maps}
use iracing_teleport.Ibt.Closed.{finish-feed}
use iracing_teleport.Ibt.Rolled.{feed-rolled}
use iracing_teleport.Ibt.Counts.{IsCounted, feed-IsCounted}
use iracing_teleport.Ibt.Unique.{open_unique-Concludes}
use iracing_teleport.Target
use iracing_teleport.Target.{Env}
use iracing_teleport.Target.Loop
use iracing_teleport.Target.Loop.{Input, recv_error, shutdown}
use iracing_teleport.Link.Recorder.{run}
use iracing_teleport.Link.Together.{IsTogether, IsLeft, run-IsLeft}
use iracing_teleport.Examples.Maps.{
  first_map, first_map-IsPlain, layout, map_of, mem_disk, mem_disk-IsReliable, parsed, parsed',
  second_map,
}

-- The second map is seen twice; two rows are recorded.
abbrev more_maps : List (ℕ × List ℕ)
more_maps = (101, second_map) ∷ (101, second_map) ∷ []

more_maps-AllOfSession : AllOfSession 7 more_maps
more_maps-AllOfSession = ((layout, parsed', refl), ((layout, parsed', refl), tt))

-- Both rows stand in the file.
recorded :
    rows_of i32_min 4 (first_map ∷ maps more_maps)
    ≡ (1 ∷ 0 ∷ 0 ∷ 0 ∷ []) ∷ (2 ∷ 0 ∷ 0 ∷ 0 ∷ []) ∷ []
unfolding active_varbuf best_varbuf is_better clamp_buf read_i32 as_usize i32_gt
recorded = refl

recorded_small : length (concat (rows_of i32_min 4 (first_map ∷ maps more_maps))) < 2 ^ 62
recorded_small = omega (arith, ap (λ r. length (concat r)) recorded)

finish-feed_example :
    let (fed, w1) = feed mem_disk ltb ((100, first_map) ∷ more_maps) new ([], 0) in
    let (closed, w2) = finish mem_disk fed w1 in
    (closed ≡ new)
    × (parse w2.0 ≡ some (disk_layout layout))
    × (active_varbuf w2.0 ≡ some (read_i32 w2.0 48, buf_off layout))
    × (drop (buf_off layout) w2.0 ≡ concat (rows_of i32_min 4 (first_map ∷ maps more_maps)))
    × (read_i32 w2.0 140 ≡ length (rows_of i32_min 4 (first_map ∷ maps more_maps)) % 2 ^ 32)
finish-feed_example =
    finish-feed mem_disk (λ w. w.0) (λ w. w.1) mem_disk-IsReliable ltb 100 first_map layout
      more_maps ([], 0) parsed first_map-IsPlain more_maps-AllOfSession recorded_small

parse-IsSane_example : IsSane first_map layout
parse-IsSane_example = parse-IsSane first_map layout first_map-IsPlain parsed

-- A map of another session.
abbrev other_map : List ℕ
other_map = map_of 8 9 (3 ∷ 0 ∷ 0 ∷ 0 ∷ [])

abbrev other_layout : MapLayout
other_layout = record layout { session_info_update = 8 }

parsed_other : parse other_map ≡ some other_layout
unfolding parse layout_of read_i32 as_usize find_var row_off until_zero same_bytes
parsed_other = refl

differs : layout.session_info_update ≢ other_layout.session_info_update
differs e = omega (arith, e)

feed-rolled_example :
    let (fed, w1) = feed mem_disk ltb ((100, first_map) ∷ more_maps) new ([], 0) in
    let (closed, w2) = finish mem_disk fed w1 in
    (closed ≡ new)
    × (feed mem_disk ltb (((100, first_map) ∷ more_maps) ++ ((200, other_map) ∷ [])) new ([], 0)
        ≡ feed mem_disk ltb ((200, other_map) ∷ []) new w2)
feed-rolled_example =
    feed-rolled mem_disk (λ w. w.0) (λ w. w.1) mem_disk-IsReliable ltb 100 first_map layout
      more_maps 200 other_map other_layout [] ([], 0) parsed more_maps-AllOfSession parsed_other
      differs

new-IsCounted : IsCounted 0 (IbtWriter.current new)
unfolding new
new-IsCounted = tt

feed-IsCounted_example :
    IsCounted 2 (feed mem_disk ltb ((100, first_map) ∷ (200, other_map) ∷ []) new ([], 0)).0.current
feed-IsCounted_example =
    feed-IsCounted mem_disk ltb ((100, first_map) ∷ (200, other_map) ∷ []) 0 new ([], 0)
      (omega arith) new-IsCounted

-- A disk on which the first two names are in use, and no writing works.
abbrev full_disk : Disk ℕ
full_disk = record {
  create_dir_all = λ w. (ok tt, w);
  create_new = λ stamp i w. (if ltb i 2 then already_exists else opened, w + 1);
  write_all = λ bytes w. (err other, w);
  seek = λ at w. (ok tt, w);
  flush = λ w. (ok tt, w);
}

abbrev tries : ℕ
tries = 2

open_unique-Concludes_example :
    (tries ≡ 100 → open_unique full_disk 100 0 ≡ (err other, 2))
    × (tries < 100 → open_unique full_disk 100 0 ≡ (ok tt, 3))
open_unique-Concludes_example =
    open_unique-Concludes full_disk 100 2 0 (omega arith) (refl, (refl, tt))

-- A quiet target that is stopped.
abbrev config : Target.Config
config = record {
  fanalab = false;
  write_ibt = true;
  has_first_data = false;
  has_stale = false;
  has_stats = false;
  stale_timeout = 10000000;
}

abbrev quiet : ℕ × Env × Input
quiet = (100, record { now = 20000000; created = none; spawned = false }, recv_error timed_out)

abbrev stop : ℕ × Env × Input
stop = (101, record { now = 20000001; created = none; spawned = false }, shutdown)

closed_target : IsTogether (Loop.new 2000 0) new
unfolding new Loop.new
closed_target e = refl

run-IsLeft_example :
    let (control, t, writer, w) =
      run (λ c. some c) mem_disk ltb config (quiet ∷ stop ∷ []) (Loop.new 2000 0) new ([], 0) in
    IsLeft control t writer
run-IsLeft_example =
    run-IsLeft (λ c. some c) mem_disk ltb config (quiet ∷ stop ∷ []) (Loop.new 2000 0) new ([], 0)
      refl closed_target
