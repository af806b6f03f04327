-- ===== src/Ibt/Parsed.antt =====
-- What `MapLayout::parse` checks of a map.
use iracing_teleport.Base.{
  ℕ, ◌+◌, ◌-◌, ◌*◌, ◌^◌, ◌≤◌, ◌<◌, ◌≡◌, refl, sym, ap, ◌∙◌, List, [], ◌∷◌, some, arith, length,
  take, drop, from_le, IsBytes, subst,
}
use iracing_teleport.Telemetry.{read_i32, as_usize, max_telemetry_size}
use iracing_teleport.Ibt.{MapLayout, parse, layout_of, wrap}
use iracing_teleport.Ibt.Prefix.{IsSane}
use iracing_teleport.Protocol.Delta.ZipXor.{drop-IsBytes}

-- What passed the checks.
record IsChecked (live : List ℕ) (l : MapLayout) : Type 0 where
  layout : layout_of live ≡ l
  vars : 0 < l.num_vars
  row : 0 < l.buf_len
  yaml : 0 < l.si_len
  vars_inside : wrap (l.vh_off + l.num_vars * 144) ≤ length live
  yaml_inside : wrap (l.si_off + l.si_len) ≤ length live

parse-IsChecked : (live : List ℕ) (l : MapLayout) → parse live ≡ some l → IsChecked live l
unfolding parse
parse-IsChecked live l e = ground arith

four_bytes : (xs : List ℕ) → IsBytes xs → from_le (take 4 xs) < 2 ^ 32
four_bytes [] p = omega arith
four_bytes (a ∷ []) p = omega (arith, p.0)
four_bytes (a ∷ b ∷ []) p = omega (arith, p.0, p.1.0)
four_bytes (a ∷ b ∷ c ∷ []) p = omega (arith, p.0, p.1.0, p.1.1.0)
four_bytes (a ∷ b ∷ c ∷ d ∷ xs) p = omega (arith, p.0, p.1.0, p.1.1.0, p.1.1.1.0)

read_i32-lt : (live : List ℕ) (at : ℕ) → IsBytes live → read_i32 live at < 2 ^ 32
unfolding read_i32
read_i32-lt live at b =
    let e : at + 4 - at ≡ 4 = omega arith in
    subst (λ k. from_le (take k (drop at live)) < 2 ^ 32) (sym e)
      (four_bytes (drop at live) (drop-IsBytes at live b))

-- A map that fits into the shared memory, with no negative length, count or offset in its header.
pub record IsPlain (live : List ℕ) : Type 0 where
  pub small : length live ≤ max_telemetry_size
  pub bytes : IsBytes live
  pub si_len : read_i32 live 16 < 2 ^ 31
  pub si_off : read_i32 live 20 < 2 ^ 31
  pub num_vars : read_i32 live 24 < 2 ^ 31
  pub vh_off : read_i32 live 28 < 2 ^ 31
  pub buf_len : read_i32 live 36 < 2 ^ 31

as_usize_lt : (v : ℕ) → v < 2 ^ 31 → as_usize v < 2 ^ 31
unfolding as_usize
as_usize_lt v h = ground arith

-- The regions of a map that `parse` accepts lie inside it and are not empty, and its fields fit i32, if
-- the map is of bytes, fits into the shared memory and has no negative length, count or offset.
pub parse-IsSane :
    (live : List ℕ) (l : MapLayout) → IsPlain live → parse live ≡ some l → IsSane live l
unfolding layout_of
parse-IsSane live l p e =
    let c = parse-IsChecked live l e in
    let field : (f : MapLayout → ℕ) (at : ℕ)
        → f (layout_of live) ≡ as_usize (read_i32 live at)
        → read_i32 live at < 2 ^ 31
        → f l < 2 ^ 31 =
      λ f at read h.
        subst (λ v. v < 2 ^ 31) (sym read ∙ ap f c.layout) (as_usize_lt (read_i32 live at) h) in
    let word : (f : MapLayout → ℕ) (at : ℕ) → f (layout_of live) ≡ read_i32 live at → f l < 2 ^ 32 =
      λ f at read.
        subst (λ v. v < 2 ^ 32) (sym read ∙ ap f c.layout) (read_i32-lt live at p.bytes) in
    let si_len = field (λ x. x.si_len) 16 refl p.si_len in
    let si_off = field (λ x. x.si_off) 20 refl p.si_off in
    let num_vars = field (λ x. x.num_vars) 24 refl p.num_vars in
    let vh_off = field (λ x. x.vh_off) 28 refl p.vh_off in
    record {
      map_small = p.small;
      vars_inside = omega (arith, c.vars_inside, num_vars, vh_off);
      yaml_inside = omega (arith, c.yaml_inside, si_len, si_off);
      some_vars = c.vars;
      some_yaml = c.yaml;
      some_row = c.row;
      row_small = field (λ x. x.buf_len) 36 refl p.buf_len;
      ver_i32 = word (λ x. x.ver) 0 refl;
      tick_rate_i32 = word (λ x. x.tick_rate) 8 refl;
      update_i32 = word (λ x. x.session_info_update) 12 refl;
    }

pub parse-layout_of : (live : List ℕ) (l : MapLayout) → parse live ≡ some l → layout_of live ≡ l
parse-layout_of live l e = (parse-IsChecked live l e).layout
