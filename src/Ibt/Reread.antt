-- ===== src/Ibt/Reread.antt =====
-- An .ibt file, read as a map: the layout of the live map with its regions moved.
use iracing_teleport.Base.{
  ℕ, ◌+◌, ◌-◌, ◌*◌, ◌%◌, ◌^◌, ◌≤◌, ◌<◌, ◌≡◌, refl, sym, ap, ◌∙◌, List, ◌++◌, some, arith, length,
  take, drop, ltb-eq-false, ◌==◌, if◌then◌else◌, take-append, drop-append, drop-drop,
}
use iracing_teleport.Telemetry.{read_i32, as_usize}
use iracing_teleport.Ibt.{
  MapLayout, layout_of, parse, si_disk_off, buf_off, wrap, irsdk_ver, active_varbuf, best_varbuf,
  clamp_buf, is_better, find_var, row_off, session_time, lap_name,
}
use iracing_teleport.Ibt.Prefix.{
  IsDiskHeader, IsSane, var_headers, yaml, length-var_headers, length-yaml, si_disk_off-eq,
  buf_off-eq,
}
use iracing_teleport.Ibt.Names.{IsSameRegion, find_var_moved}

-- The layout that a reader of the file finds.
abbrev pub disk_layout : MapLayout → MapLayout
disk_layout l = record l {
  ver = if l.ver == 0 then irsdk_ver else l.ver;
  tick_rate = if l.tick_rate == 0 then 60 else l.tick_rate;
  vh_off = 144;
  si_off = si_disk_off l;
}

parse_of :
    (file : List ℕ) (l : MapLayout)
    → layout_of file ≡ l
    → 112 ≤ length file
    → read_i32 file 4 ≡ 1
    → 0 < l.num_vars
    → 0 < l.buf_len
    → 0 < l.si_len
    → wrap (l.vh_off + l.num_vars * 144) ≤ length file
    → wrap (l.si_off + l.si_len) ≤ length file
    → parse file ≡ some l
unfolding parse
parse_of file l e h status n b y vars_in yaml_in = rw e (ground arith)

as_usize_small : (v : ℕ) → v < 2 ^ 31 → as_usize v ≡ v
unfolding as_usize
as_usize_small v h = ground arith

one_buffer :
    (file : List ℕ) (off : ℕ)
    → 112 ≤ length file
    → read_i32 file 32 ≡ 1
    → as_usize (read_i32 file 52) ≡ off
    → active_varbuf file ≡ some (read_i32 file 48, off)
unfolding active_varbuf best_varbuf clamp_buf is_better
one_buffer file off h n at =
    rw (ltb-eq-false (length file) 112 h, n) (λ k. some (read_i32 file 48, at k))

-- A number with a default, as 32 bits.
default_word :
    (v d : ℕ)
    → v < 2 ^ 32
    → d < 2 ^ 32
    → (if v == 0 then d else v) % 2 ^ 32 ≡ (if v == 0 then d else v)
default_word v d h h' = ground arith

-- A file with the header of a layout, a subheader, the two regions of the live map, and rows.
pub record IsIbt (live : List ℕ) (l : MapLayout) (file rows : List ℕ) : Type 0 where
  pub sane : IsSane live l
  pub header : IsDiskHeader l file
  pub behind : drop 144 file ≡ var_headers live l ++ (yaml live l ++ rows)
  pub whole : length file ≡ buf_off l + length rows
  pub rows_small : length rows < 2 ^ 62

module _ (live : List ℕ) (l : MapLayout) (file rows : List ℕ) (ibt : IsIbt live l file rows) where
  -- The variable headers stand behind header and subheader.
  same_headers : IsSameRegion live file l.vh_off 144 (l.num_vars * 144)
  same_headers =
      let s = ibt.sane in
      let n = l.num_vars * 144 in
      let n_eq : wrap (l.vh_off + n) - l.vh_off ≡ n = omega (arith, s.vars_inside, s.map_small) in
      let taken : take n (drop 144 file) ≡ var_headers live l =
        ap (λ t. take n t) ibt.behind
        ∙ take-append n (var_headers live l) (yaml live l ++ rows) (length-var_headers live l s) in
      record {
        same = ap (λ k. take k (drop l.vh_off live)) (sym n_eq) ∙ sym taken;
        inside = s.vars_inside;
        inside' = omega (arith, ibt.whole, buf_off-eq live l s);
        small = omega (arith, s.map_small);
        small' = omega (
          arith,
          ibt.whole,
          ibt.rows_small,
          buf_off-eq live l s,
          s.vars_inside,
          s.yaml_inside,
          s.map_small,
        );
      }

  -- What is read of the file as a number of usize.
  usize_of :
      (at v : ℕ) → read_i32 file at ≡ v % 2 ^ 32 → v < 2 ^ 31 → as_usize (read_i32 file at) ≡ v
  usize_of at v e h =
      let e' : read_i32 file at ≡ v = omega (arith, e) in ap as_usize e' ∙ as_usize_small v h

  layout_of-file : layout_of live ≡ l → layout_of file ≡ disk_layout l
  unfolding layout_of
  layout_of-file e =
      let s = ibt.sane in
      let h = ibt.header in
      let num_vars =
        usize_of 24 l.num_vars h.num_vars (omega (arith, s.vars_inside, s.map_small)) in
      let vh_off = usize_of 28 144 h.var_header_offset (omega arith) in
      let ver : read_i32 file 0 ≡ (disk_layout l).ver =
        h.ver ∙ default_word l.ver irsdk_ver s.ver_i32 (omega arith) in
      let tick_rate : read_i32 file 8 ≡ (disk_layout l).tick_rate =
        h.tick_rate ∙ default_word l.tick_rate 60 s.tick_rate_i32 (omega arith) in
      let update : read_i32 file 12 ≡ l.session_info_update =
        omega (arith, h.session_info_update, s.update_i32) in
      let buf_len = usize_of 36 l.buf_len h.buf_len s.row_small in
      let si_len =
        usize_of 16 l.si_len h.session_info_len (omega (arith, s.yaml_inside, s.map_small)) in
      let si_off =
        usize_of 20 (si_disk_off l) h.session_info_offset
          (omega (arith, si_disk_off-eq live l s, s.vars_inside, s.map_small)) in
      let found : (name : List ℕ)
          → row_off
              (find_var (as_usize (read_i32 file 24)) 0 file (as_usize (read_i32 file 28)) name)
            ≡ row_off (find_var l.num_vars 0 live l.vh_off name) =
        λ name.
          (λ k. row_off (find_var (num_vars k) 0 file (vh_off k) name))
          ∙ ap row_off (
              sym (
                find_var_moved live file l.vh_off 144 (l.num_vars * 144) same_headers l.num_vars 0
                  name (omega arith))) in
      let kept : (name : List ℕ)
          → row_off
              (find_var (as_usize (read_i32 file 24)) 0 file (as_usize (read_i32 file 28)) name)
            ≡ row_off (find_var (layout_of live).num_vars 0 live (layout_of live).vh_off name) =
        λ name. found name ∙ ap (λ x. row_off (find_var x.num_vars 0 live x.vh_off name)) (sym e) in
      let session_time_kept = kept session_time ∙ ap (λ x. x.session_time_row_off) e in
      let lap_kept = kept lap_name ∙ ap (λ x. x.lap_row_off) e in
      λ k. record {
        ver = ver k;
        tick_rate = tick_rate k;
        session_info_update = update k;
        num_vars = num_vars k;
        buf_len = buf_len k;
        vh_off = vh_off k;
        si_off = si_off k;
        si_len = si_len k;
        session_time_row_off = session_time_kept k;
        lap_row_off = lap_kept k;
      }

  -- Read as a map, it has the layout of the live map with the regions moved behind the subheader,
  -- and its only buffer is the first row.
  pub parse-IsIbt :
      layout_of live ≡ l
      → (parse file ≡ some (disk_layout l))
        × (active_varbuf file ≡ some (read_i32 file 48, buf_off l))
  parse-IsIbt e =
      let s = ibt.sane in
      let h = ibt.header in
      let whole = ibt.whole in
      let buf_off_eq = buf_off-eq live l s in
      let off =
        usize_of 52 (buf_off l) h.buf_offset
          (omega (arith, buf_off_eq, s.vars_inside, s.yaml_inside, s.map_small)) in
      (
        parse_of file (disk_layout l) (layout_of-file e) (omega (arith, whole, buf_off_eq)) h.status
            s.some_vars s.some_row s.some_yaml
            (omega (arith, whole, buf_off_eq, s.vars_inside, s.map_small))
            (omega (arith, whole, buf_off_eq, s.vars_inside, s.yaml_inside, s.map_small)),
        one_buffer file (buf_off l) (omega (arith, whole, buf_off_eq)) h.num_buf off,
      )

  -- Behind the offset of its buffer stand the rows.
  pub drop-IsIbt : drop (buf_off l) file ≡ rows
  drop-IsIbt =
      let s = ibt.sane in
      let n = l.num_vars * 144 in
      let off : 144 + (n + l.si_len) ≡ buf_off l = omega (arith, buf_off-eq live l s) in
      sym (drop-drop (buf_off l) (n + l.si_len) 144 file off)
      ∙ ap (λ t. drop (n + l.si_len) t) ibt.behind
      ∙ sym (drop-drop (n + l.si_len) l.si_len n (var_headers live l ++ (yaml live l ++ rows)) refl)
      ∙ ap (λ t. drop l.si_len t)
          (drop-append n (var_headers live l) (yaml live l ++ rows) (length-var_headers live l s))
      ∙ drop-append l.si_len (yaml live l) rows (length-yaml live l s)
