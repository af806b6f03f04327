-- ===== src/Ibt/Writer.antt =====
-- teleport/src/ibt_writer.rs, `IbtWriter`. The file system is a parameter: operations on a state `W`,
-- each of which can fail; the writer has at most one file open, which belongs to that state. An f64
-- is kept as its 64 bits, and the order `>` of f64 is a parameter.
use iracing_teleport.Base.{
  ℕ, zero, suc, ◌+◌, ◌-◌, ◌%◌, ◌^◌, List, Bool, false, not, ◌&&◌, Option, none, some, length, slice,
  ltb, ◌==◌, if◌then◌else◌, to_le, from_le,
}
use iracing_teleport.Control.{Io, ◌>>◌}
use iracing_teleport.Protocol.Sender.{ErrorKind, other, ok, err}
use iracing_teleport.Telemetry.{read_i32, i32_gt}
use iracing_teleport.Ibt.{
  MapLayout, parse, active_varbuf, build_prefix, subheader_bytes, wrap, off_varbuf,
  disk_header_size,
}

-- The result of creating a file that must not exist.
pub data Creation : Type 0 where
  opened : Creation
  already_exists : Creation
  refused : ErrorKind → Creation

-- `create_new` is given the date and the number that the name of the file is made of.
pub record Disk (W : Type 0) : Type 0 where
  pub create_dir_all : Io W
  pub create_new : ℕ → ℕ → W → Creation × W
  pub write_all : List ℕ → Io W
  pub seek : ℕ → Io W
  pub flush : Io W

-- i32::MIN
abbrev pub i32_min : ℕ
i32_min = 2 ^ 31

pub record OpenIbt : Type 0 where
  pub layout : MapLayout
  pub start_date : ℕ
  pub record_count : ℕ
  pub start_time : ℕ
  pub end_time : ℕ
  pub lap_count : ℕ
  pub last_lap : ℕ
  pub last_tick : ℕ

-- The file that is open, if one is.
pub record IbtWriter : Type 0 where
  pub current : Option OpenIbt

unfoldable pub new : IbtWriter
new = record { current = none }

-- The state of a file that was just opened.
unfoldable pub opened_ibt : MapLayout → ℕ → OpenIbt
opened_ibt layout start_date = record {
  layout = layout;
  start_date = start_date;
  record_count = 0;
  start_time = 0;
  end_time = 0;
  lap_count = 0;
  last_lap = i32_min;
  last_tick = i32_min;
}

module _ (f64_gt : ℕ → ℕ → Bool) where
  -- "Track SessionTime": the count is already that with the row.
  unfoldable pub track_time : OpenIbt → List ℕ → OpenIbt
  track_time o row = elim o.layout.session_time_row_off [
    | none ↦ o
    | some off ↦
        let t = from_le (slice row off (off + 8)) in
        if ltb (length row) (wrap (off + 8))
        then o
        else if o.record_count == 1
        then record o { start_time = t; end_time = t }
        else if f64_gt t o.end_time
        then record o { end_time = t }
        else o
  ]

-- The lap before the first row: one less than that of the row.
unfoldable pub lap_before : OpenIbt → ℕ → ℕ
lap_before o lap = if o.record_count == 1 then (lap + (2 ^ 32 - 1)) % 2 ^ 32 else o.last_lap

-- "Track Lap": the count is already that with the row.
unfoldable pub track_lap : OpenIbt → List ℕ → OpenIbt
track_lap o row = elim o.layout.lap_row_off [
  | none ↦ o
  | some off ↦
      let lap = read_i32 row off in
      if ltb (length row) (wrap (off + 4))
      then o
      else if i32_gt lap (lap_before o lap)
      then record o { lap_count = (o.lap_count + 1) % 2 ^ 32; last_lap = lap }
      else record o { last_lap = lap_before o lap }
]

-- The tick that `finish` writes into the header.
unfoldable pub final_tick : OpenIbt → ℕ
final_tick o = if i32_gt o.record_count 0 && not (o.last_tick == i32_min) then o.last_tick else 0

-- The subheader that `finish` writes.
unfoldable pub subheader : OpenIbt → List ℕ
subheader o = subheader_bytes o.start_date o.start_time o.end_time o.lap_count o.record_count

-- Whether the session changed.
unfoldable pub is_rolled : IbtWriter → MapLayout → Bool
is_rolled writer layout = elim writer.current [
  | none ↦ false
  | some o ↦ not (o.layout.session_info_update == layout.session_info_update)
]

module _ {W : Type 0} (disk : Disk W) where
  -- `open_unique`, with `left` names to try.
  unfoldable pub try_names : ℕ → ℕ → ℕ → Io W
  try_names zero i stamp w = (err other, w)
  try_names (suc left) i stamp w =
      let (creation, w') = disk.create_new stamp i w in
      elim creation [
        | opened ↦ (ok tt, w')
        | already_exists ↦ try_names left (i + 1) stamp w'
        | refused e ↦ (err e, w')
      ]

  unfoldable pub open_unique : ℕ → Io W
  open_unique stamp = try_names 100 0 stamp

  unfoldable pub start_session : IbtWriter → List ℕ → MapLayout → ℕ → W → IbtWriter × W
  start_session writer live layout start_date w =
      let prefix = build_prefix live layout start_date in
      let (r, w') = (disk.create_dir_all >> open_unique start_date >> disk.write_all prefix) w in
      elim r [
        | ok _ ↦ (record { current = some (opened_ibt layout start_date) }, w')
        | err e ↦ (writer, w')
      ]

  -- `finish`: the outcome of the writes is only printed.
  unfoldable pub finish : IbtWriter → W → IbtWriter × W
  finish writer w = elim writer.current [
    | none ↦ (writer, w)
    | some o ↦
        let (r, w') =
          (disk.seek off_varbuf
              >> disk.write_all (to_le 4 (final_tick o))
              >> disk.seek disk_header_size
              >> disk.write_all (subheader o)
              >> disk.flush)
            w in
        (record { current = none }, w')
  ]

  -- `if self.open.is_none()`
  unfoldable pub ensure_open : IbtWriter → List ℕ → MapLayout → ℕ → W → IbtWriter × W
  ensure_open writer live layout now w = elim writer.current [
    | none ↦ start_session writer live layout now w
    | some o ↦ (writer, w)
  ]

  module _ (f64_gt : ℕ → ℕ → Bool) where
    -- `append_row` past the check of the tick, which is already the last one.
    unfoldable pub append_new : OpenIbt → List ℕ → ℕ → W → OpenIbt × W
    append_new o live off w =
        let row = slice live off (wrap (off + o.layout.buf_len)) in
        let counted : OpenIbt = record o { record_count = (o.record_count + 1) % 2 ^ 32 } in
        let (r, w') = disk.write_all row w in
        if ltb (length live) (wrap (off + o.layout.buf_len))
        then (o, w)
        else elim r [ ok _ ↦ (track_lap (track_time f64_gt counted row) row, w') | err e ↦ (o, w') ]

    -- `append_row` with an open file and what the header says of the active buffer.
    unfoldable pub append_active : OpenIbt → List ℕ → Option (ℕ × ℕ) → W → OpenIbt × W
    append_active o live none w = (o, w)
    append_active o live (some (tick, off)) w =
        if tick == o.last_tick
        then (o, w)
        else append_new (record o { last_tick = tick }) live off w

    unfoldable pub append_open : OpenIbt → List ℕ → W → OpenIbt × W
    append_open o live w = append_active o live (active_varbuf live) w

    unfoldable pub append_row : IbtWriter → List ℕ → W → IbtWriter × W
    append_row writer live w = elim writer.current [
      | none ↦ (writer, w)
      | some o ↦ let (o', w') = append_open o live w in (record { current = some o' }, w')
    ]

    -- `on_map_update` once the map is parsed, at the time `now`.
    unfoldable pub update : ℕ → MapLayout → IbtWriter → List ℕ → W → IbtWriter × W
    update now layout writer live w =
        let (rolled, w') = if is_rolled writer layout then finish writer w else (writer, w) in
        let (started, w'') = ensure_open rolled live layout now w' in append_row started live w''

    unfoldable pub on_map_update : ℕ → IbtWriter → List ℕ → W → IbtWriter × W
    on_map_update now writer live w = elim (parse live) [
      | none ↦ (writer, w)
      | some layout ↦ update now layout writer live w
    ]
