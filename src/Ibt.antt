-- ===== src/Ibt.antt =====
-- teleport/src/ibt_writer.rs: the layout of a live map, and the static prefix of an .ibt file.
-- Sums of usize wrap at 2 ^ 64. A slice whose end lies before its start, at which the code panics,
-- is empty.
pub mod Prefix
pub mod Names
pub mod Reread
pub mod Writer
pub mod Recording
pub mod Feed
pub mod Session
pub mod Closed
pub mod Parsed
pub mod Unique
pub mod Rolled
pub mod Counts
use iracing_teleport.Base.{
  ℕ, zero, suc, ◌+◌, ◌*◌, ◌%◌, ◌^◌, min, max, List, [], ◌∷◌, ◌++◌, Bool, true, false, not, ◌&&◌,
  ◌||◌, Option, none, some, length, replicate, slice, overwrite, ltb, ◌==◌, if◌then◌else◌, to_le,
}
use mathlib.Core.Option
use iracing_teleport.Telemetry.{read_i32, as_usize, i32_gt}

abbrev pub off_status : ℕ
off_status = 4

abbrev pub off_tickrate : ℕ
off_tickrate = 8

abbrev pub off_sessioninfoupdate : ℕ
off_sessioninfoupdate = 12

abbrev pub off_sessioninfolen : ℕ
off_sessioninfolen = 16

abbrev pub off_sessioninfooffset : ℕ
off_sessioninfooffset = 20

abbrev pub off_numvars : ℕ
off_numvars = 24

abbrev pub off_varheaderoffset : ℕ
off_varheaderoffset = 28

abbrev pub off_numbuf : ℕ
off_numbuf = 32

abbrev pub off_buflen : ℕ
off_buflen = 36

abbrev pub off_varbuf : ℕ
off_varbuf = 48

abbrev pub disk_header_size : ℕ
disk_header_size = 112

abbrev pub disk_subheader_size : ℕ
disk_subheader_size = 32

abbrev pub varheader_size : ℕ
varheader_size = 144

abbrev pub status_connected : ℕ
status_connected = 1

abbrev pub irsdk_ver : ℕ
irsdk_ver = 2

-- A result of usize arithmetic.
abbrev pub wrap : ℕ → ℕ
wrap n = n % 2 ^ 64

-- `i32::clamp(1, 4)` of 32 bits.
unfoldable pub clamp_buf : ℕ → ℕ
clamp_buf v = if ltb v (2 ^ 31) then min (max v 1) 4 else 1

-- `best.is_none_or(|(btc, _)| tc > btc)`
unfoldable pub is_better : Option (ℕ × ℕ) → ℕ → Bool
is_better none tick = true
is_better (some (best, off)) tick = i32_gt tick best

-- The loop of `active_varbuf`, with `left` rounds to go.
unfoldable pub best_varbuf : ℕ → ℕ → List ℕ → Option (ℕ × ℕ) → Option (ℕ × ℕ)
best_varbuf zero i live best = best
best_varbuf (suc left) i live best =
    let at = off_varbuf + i * 16 in
    let tick = read_i32 live at in
    let off = as_usize (read_i32 live (at + 4)) in
    best_varbuf left (i + 1) live (if is_better best tick then some (tick, off) else best)

-- The tick and the offset of the buffer with the greatest tick.
unfoldable pub active_varbuf : List ℕ → Option (ℕ × ℕ)
active_varbuf live =
    if ltb (length live) disk_header_size
    then none
    else best_varbuf (clamp_buf (read_i32 live off_numbuf)) 0 live none

-- The bytes of a name up to the first zero.
unfoldable pub until_zero : List ℕ → List ℕ
until_zero [] = []
until_zero (b ∷ bytes) = let rest = until_zero bytes in if b == 0 then [] else b ∷ rest

unfoldable pub same_bytes : List ℕ → List ℕ → Bool
same_bytes [] [] = true
same_bytes [] (b ∷ bs) = false
same_bytes (a ∷ as_) [] = false
same_bytes (a ∷ as_) (b ∷ bs) = (a == b) && same_bytes as_ bs

-- `find_var`, with `left` variables to go: the offset in a row, and the type.
unfoldable pub find_var : ℕ → ℕ → List ℕ → ℕ → List ℕ → Option (ℕ × ℕ)
find_var zero i live vh_off name = none
find_var (suc left) i live vh_off name =
    let at = wrap (vh_off + i * varheader_size) in
    let found = until_zero (slice live (at + 16) (at + 48)) in
    let later = find_var left (i + 1) live vh_off name in
    if ltb (length live) (wrap (at + varheader_size))
    then none
    else if same_bytes found name
    then some (as_usize (read_i32 live (at + 4)), read_i32 live at)
    else later

-- "SessionTime"
abbrev pub session_time : List ℕ
session_time = 83 ∷ 101 ∷ 115 ∷ 115 ∷ 105 ∷ 111 ∷ 110 ∷ 84 ∷ 105 ∷ 109 ∷ 101 ∷ []

-- "Lap"
abbrev pub lap_name : List ℕ
lap_name = 76 ∷ 97 ∷ 112 ∷ []

-- An i32 is kept as its 32 bits.
pub record MapLayout : Type 0 where
  pub ver : ℕ
  pub tick_rate : ℕ
  pub session_info_update : ℕ
  pub num_vars : ℕ
  pub buf_len : ℕ
  pub vh_off : ℕ
  pub si_off : ℕ
  pub si_len : ℕ
  pub session_time_row_off : Option ℕ
  pub lap_row_off : Option ℕ

-- `.map(|(o, _)| o)`
unfoldable pub row_off : Option (ℕ × ℕ) → Option ℕ
row_off none = none
row_off (some (off, kind)) = some off

-- What `MapLayout::parse` reads.
unfoldable pub layout_of : List ℕ → MapLayout
layout_of live =
    let num_vars = as_usize (read_i32 live off_numvars) in
    let vh_off = as_usize (read_i32 live off_varheaderoffset) in
    record {
      ver = read_i32 live 0;
      tick_rate = read_i32 live off_tickrate;
      session_info_update = read_i32 live off_sessioninfoupdate;
      num_vars = num_vars;
      buf_len = as_usize (read_i32 live off_buflen);
      vh_off = vh_off;
      si_off = as_usize (read_i32 live off_sessioninfooffset);
      si_len = as_usize (read_i32 live off_sessioninfolen);
      session_time_row_off = row_off (find_var num_vars 0 live vh_off session_time);
      lap_row_off = row_off (find_var num_vars 0 live vh_off lap_name);
    }

-- `MapLayout::parse`
unfoldable pub parse : List ℕ → Option MapLayout
parse live =
    let l = layout_of live in
    if ltb (length live) disk_header_size
    then none
    else if read_i32 live off_status % 2 == 0
    then none
    else if (l.num_vars == 0) || (l.buf_len == 0) || (l.si_len == 0)
    then none
    else if ltb (length live) (wrap (l.vh_off + l.num_vars * varheader_size))
        || ltb (length live) (wrap (l.si_off + l.si_len))
    then none
    else some l

-- `value.to_le_bytes()` of `value as i32`, written at an offset of the header.
unfoldable pub put_i32 : List ℕ → ℕ → ℕ → List ℕ
put_i32 hdr at v = overwrite hdr at (to_le 4 (v % 2 ^ 32))

-- Where the session string starts in the file.
abbrev pub si_disk_off : MapLayout → ℕ
si_disk_off l = wrap (disk_header_size + disk_subheader_size + l.num_vars * varheader_size)

-- Where the rows start in the file.
abbrev pub buf_off : MapLayout → ℕ
buf_off l = wrap (si_disk_off l + l.si_len)

-- The header of the file.
unfoldable pub disk_header : MapLayout → List ℕ
unfolding put_i32
disk_header l =
    let h0 = replicate disk_header_size 0 in
    let h1 = put_i32 h0 0 (if l.ver == 0 then irsdk_ver else l.ver) in
    let h2 = put_i32 h1 off_status status_connected in
    let h3 = put_i32 h2 off_tickrate (if l.tick_rate == 0 then 60 else l.tick_rate) in
    let h4 = put_i32 h3 off_sessioninfoupdate l.session_info_update in
    let h5 = put_i32 h4 off_sessioninfolen l.si_len in
    let h6 = put_i32 h5 off_sessioninfooffset (si_disk_off l) in
    let h7 = put_i32 h6 off_numvars l.num_vars in
    let h8 = put_i32 h7 off_varheaderoffset (disk_header_size + disk_subheader_size) in
    let h9 = put_i32 h8 off_numbuf 1 in
    let h10 = put_i32 h9 off_buflen l.buf_len in
    let h11 = put_i32 h10 off_varbuf 0 in put_i32 h11 (off_varbuf + 4) (buf_off l)

-- `subheader_bytes`: an i64 and an f64 are kept as their 64 bits.
unfoldable pub subheader_bytes : ℕ → ℕ → ℕ → ℕ → ℕ → List ℕ
subheader_bytes start_date start_t end_t laps records =
    let b0 = replicate disk_subheader_size 0 in
    let b1 = overwrite b0 0 (to_le 8 start_date) in
    let b2 = overwrite b1 8 (to_le 8 start_t) in
    let b3 = overwrite b2 16 (to_le 8 end_t) in
    let b4 = overwrite b3 24 (to_le 4 laps) in overwrite b4 28 (to_le 4 records)

-- `build_prefix`: the placeholder of the subheader has the bits of 0.0 and 0 behind the date.
unfoldable pub build_prefix : List ℕ → MapLayout → ℕ → List ℕ
build_prefix live l start_date =
    disk_header l
    ++ (to_le 8 start_date
        ++ (replicate 24 0
            ++ (slice live l.vh_off (wrap (l.vh_off + l.num_vars * varheader_size))
                ++ slice live l.si_off (wrap (l.si_off + l.si_len)))))
