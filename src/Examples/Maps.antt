-- ===== src/Examples/Maps.antt =====
-- Small maps of telemetry, and a disk on which nothing fails.
use iracing_teleport.Base.{
  ℕ, ◌+◌, ◌≡◌, refl, List, [], ◌∷◌, ◌++◌, Bool, true, ◌&&◌, none, some, arith, length, replicate,
  to_le, IsBytes, ltb,
}
use iracing_teleport.Protocol.Sender.{ok}
use iracing_teleport.Telemetry.{read_i32, as_usize}
use iracing_teleport.Ibt.{MapLayout, parse, layout_of, find_var, row_off, until_zero, same_bytes}
use iracing_teleport.Ibt.Prefix.{write_at}
use iracing_teleport.Ibt.Parsed.{IsPlain}
use iracing_teleport.Ibt.Writer.{Disk, opened}
use iracing_teleport.Ibt.Recording.{IsReliable}

-- A map with a number of updates of the session, a tick and a row of four bytes.
abbrev pub map_of : ℕ → ℕ → List ℕ → List ℕ
map_of update tick row =
    to_le 4 2
    ++ to_le 4 1
    ++ to_le 4 60
    ++ to_le 4 update
    ++ to_le 4 2
    ++ to_le 4 256
    ++ to_le 4 1
    ++ to_le 4 112
    ++ to_le 4 1
    ++ to_le 4 4
    ++ replicate 8 0
    ++ to_le 4 tick
    ++ to_le 4 258
    ++ replicate 56 0
    ++ replicate 16 0
    ++ (76 ∷ 97 ∷ 112 ∷ [])
    ++ replicate 125 0
    ++ (45 ∷ 10 ∷ [])
    ++ row

abbrev pub first_map : List ℕ
first_map = map_of 7 5 (1 ∷ 0 ∷ 0 ∷ 0 ∷ [])

abbrev pub second_map : List ℕ
second_map = map_of 7 6 (2 ∷ 0 ∷ 0 ∷ 0 ∷ [])

-- The bytes of the file, and the position.
abbrev pub mem_disk : Disk (List ℕ × ℕ)
mem_disk = record {
  create_dir_all = λ w. (ok tt, w);
  create_new = λ stamp i w. (opened, ([], 0));
  write_all = λ bytes w. (ok tt, (write_at w.0 w.1 bytes, w.1 + length bytes));
  seek = λ at w. (ok tt, (w.0, at));
  flush = λ w. (ok tt, w);
}

pub mem_disk-IsReliable : IsReliable mem_disk (λ w. w.0) (λ w. w.1)
mem_disk-IsReliable = record {
  made = λ w. refl;
  created = λ stamp i w. (refl, refl, refl);
  written = λ bytes w. (refl, refl, refl);
  sought = λ at w. (refl, refl, refl);
  flushed = λ w. (refl, refl);
}

all_bytes : List ℕ → Bool
all_bytes [] = true
all_bytes (b ∷ bs) = ltb b 256 && all_bytes bs

all_bytes-IsBytes : (xs : List ℕ) → all_bytes xs ≡ true → IsBytes xs
unfolding all_bytes
all_bytes-IsBytes [] e = tt
all_bytes-IsBytes (b ∷ bs) e = (ground arith, all_bytes-IsBytes bs (ground arith))

abbrev pub layout : MapLayout
layout = record {
  ver = 2;
  tick_rate = 60;
  session_info_update = 7;
  num_vars = 1;
  buf_len = 4;
  vh_off = 112;
  si_off = 256;
  si_len = 2;
  session_time_row_off = none;
  lap_row_off = some 0;
}

pub parsed : parse first_map ≡ some layout
unfolding parse layout_of read_i32 as_usize find_var row_off until_zero same_bytes
parsed = refl

pub parsed' : parse second_map ≡ some layout
unfolding parse layout_of read_i32 as_usize find_var row_off until_zero same_bytes
parsed' = refl

pub first_map-IsPlain : IsPlain first_map
unfolding read_i32 all_bytes
first_map-IsPlain = record {
  small = omega arith;
  bytes = all_bytes-IsBytes first_map refl;
  si_len = omega arith;
  si_off = omega arith;
  num_vars = omega arith;
  vh_off = omega arith;
  buf_len = omega arith;
}
