-- ===== src/Ibt/Prefix.antt =====
-- The static prefix of an .ibt file: its fields, its length, and the regions that it copies.
use iracing_teleport.Base.{
  ℕ, ◌+◌, ◌-◌, ◌*◌, ◌%◌, ◌^◌, ◌≤◌, ◌<◌, ◌≡◌, refl, sym, ap, ◌∙◌, List, ◌++◌, arith, length, take,
  drop, replicate, slice, overwrite, to_le, from_le, from_le-to_le, length-to_le, length-append,
  length-take, length-drop, append_assoc, ◌==◌, if◌then◌else◌, length-replicate,
}
use iracing_teleport.Telemetry.{read_i32, max_telemetry_size}
use iracing_teleport.Ibt.{
  MapLayout, disk_header, build_prefix, si_disk_off, buf_off, wrap, irsdk_ver,
}

-- A write at a position inside a file or at its end.
abbrev pub write_at : List ℕ → ℕ → List ℕ → List ℕ
write_at b at src = take at b ++ (src ++ drop (at + length src) b)

-- The header with a tick in its first buffer.
abbrev pub ticked_header : MapLayout → ℕ → List ℕ
ticked_header l tick = write_at (disk_header l) 48 (to_le 4 tick)

-- The fields of the header, in front of any bytes.
pub record IsDiskHeader (l : MapLayout) (file : List ℕ) : Type 0 where
  pub ver : read_i32 file 0 ≡ (if l.ver == 0 then irsdk_ver else l.ver) % 2 ^ 32
  pub status : read_i32 file 4 ≡ 1
  pub tick_rate : read_i32 file 8 ≡ (if l.tick_rate == 0 then 60 else l.tick_rate) % 2 ^ 32
  pub session_info_update : read_i32 file 12 ≡ l.session_info_update % 2 ^ 32
  pub session_info_len : read_i32 file 16 ≡ l.si_len % 2 ^ 32
  pub session_info_offset : read_i32 file 20 ≡ si_disk_off l % 2 ^ 32
  pub num_vars : read_i32 file 24 ≡ l.num_vars % 2 ^ 32
  pub var_header_offset : read_i32 file 28 ≡ 144
  pub num_buf : read_i32 file 32 ≡ 1
  pub buf_len : read_i32 file 36 ≡ l.buf_len % 2 ^ 32
  pub buf_offset : read_i32 file 52 ≡ buf_off l % 2 ^ 32

word : (v : ℕ) → from_le (to_le 4 (v % 2 ^ 32)) ≡ v % 2 ^ 32
word v = from_le-to_le 4 (v % 2 ^ 32) (omega arith)

pub ticked_header-IsDiskHeader :
    (l : MapLayout) (tick : ℕ) (rest : List ℕ) → IsDiskHeader l (ticked_header l tick ++ rest)
unfolding disk_header overwrite read_i32
ticked_header-IsDiskHeader l tick rest = record {
  ver = word (if l.ver == 0 then irsdk_ver else l.ver);
  status = refl;
  tick_rate = word (if l.tick_rate == 0 then 60 else l.tick_rate);
  session_info_update = word l.session_info_update;
  session_info_len = word l.si_len;
  session_info_offset = word (si_disk_off l);
  num_vars = word l.num_vars;
  var_header_offset = refl;
  num_buf = refl;
  buf_len = word l.buf_len;
  buf_offset = word (buf_off l);
}

pub length-disk_header : (l : MapLayout) → length (disk_header l) ≡ 112
unfolding disk_header overwrite
length-disk_header l = refl

-- A live map whose regions lie inside it, with no number past the range of i32.
pub record IsSane (live : List ℕ) (l : MapLayout) : Type 0 where
  pub map_small : length live ≤ max_telemetry_size
  pub vars_inside : l.vh_off + l.num_vars * 144 ≤ length live
  pub yaml_inside : l.si_off + l.si_len ≤ length live
  pub some_vars : 0 < l.num_vars
  pub some_yaml : 0 < l.si_len
  pub some_row : 0 < l.buf_len
  pub row_small : l.buf_len < 2 ^ 31
  pub ver_i32 : l.ver < 2 ^ 32
  pub tick_rate_i32 : l.tick_rate < 2 ^ 32
  pub update_i32 : l.session_info_update < 2 ^ 32

pub length-slice : (b : List ℕ) (lo n : ℕ) → lo + n ≤ length b → length (slice b lo (lo + n)) ≡ n
length-slice b lo n h = omega (arith, length-take (lo + n - lo) (drop lo b), length-drop lo b)

-- The two regions that are copied.
abbrev pub var_headers : List ℕ → MapLayout → List ℕ
var_headers live l = slice live l.vh_off (wrap (l.vh_off + l.num_vars * 144))

abbrev pub yaml : List ℕ → MapLayout → List ℕ
yaml live l = slice live l.si_off (wrap (l.si_off + l.si_len))

pub length-var_headers :
    (live : List ℕ) (l : MapLayout) → IsSane live l → length (var_headers live l) ≡ l.num_vars * 144
length-var_headers live l s =
    let e : wrap (l.vh_off + l.num_vars * 144) ≡ l.vh_off + l.num_vars * 144 =
      omega (arith, s.vars_inside, s.map_small) in
    ap (λ k. length (slice live l.vh_off k)) e
    ∙ length-slice live l.vh_off (l.num_vars * 144) s.vars_inside

pub length-yaml : (live : List ℕ) (l : MapLayout) → IsSane live l → length (yaml live l) ≡ l.si_len
length-yaml live l s =
    let e : wrap (l.si_off + l.si_len) ≡ l.si_off + l.si_len =
      omega (arith, s.yaml_inside, s.map_small) in
    ap (λ k. length (slice live l.si_off k)) e ∙ length-slice live l.si_off l.si_len s.yaml_inside

-- The head of the file: header and subheader.
abbrev pub head : MapLayout → ℕ → List ℕ
head l start_date = disk_header l ++ (to_le 8 start_date ++ replicate 24 0)

pub length-head : (l : MapLayout) (start_date : ℕ) → length (head l start_date) ≡ 144
length-head l start_date = omega (
  arith,
  length-append {0} (disk_header l) (to_le 8 start_date ++ replicate 24 0),
  length-append {0} (to_le 8 start_date) (replicate 24 0),
  length-disk_header l,
  length-to_le 8 start_date,
  length-replicate {A = ℕ} 24 0,
)

pub build_prefix-head :
    (live : List ℕ) (l : MapLayout) (start_date : ℕ)
    → build_prefix live l start_date ≡ head l start_date ++ (var_headers live l ++ yaml live l)
unfolding build_prefix
build_prefix-head live l start_date =
    ap (λ t. disk_header l ++ t)
      (sym (append_assoc (to_le 8 start_date) (replicate 24 0) (var_headers live l ++ yaml live l)))
    ∙ sym (
        append_assoc (disk_header l) (to_le 8 start_date ++ replicate 24 0)
          (var_headers live l ++ yaml live l))

-- The offsets of the file do not wrap.
pub si_disk_off-eq :
    (live : List ℕ) (l : MapLayout) → IsSane live l → si_disk_off l ≡ 144 + l.num_vars * 144
si_disk_off-eq live l s = omega (arith, s.vars_inside, s.map_small)

pub buf_off-eq :
    (live : List ℕ) (l : MapLayout) → IsSane live l → buf_off l ≡ 144 + l.num_vars * 144 + l.si_len
buf_off-eq live l s = omega (arith, s.vars_inside, s.yaml_inside, s.map_small)

-- The rows start where the header says.
pub length-build_prefix :
    (live : List ℕ) (l : MapLayout) (start_date : ℕ)
    → IsSane live l
    → length (build_prefix live l start_date) ≡ buf_off l
length-build_prefix live l start_date s = omega (
  arith,
  ap length (build_prefix-head live l start_date),
  length-append {0} (head l start_date) (var_headers live l ++ yaml live l),
  length-append {0} (var_headers live l) (yaml live l),
  length-head l start_date,
  length-var_headers live l s,
  length-yaml live l s,
  buf_off-eq live l s,
)
