-- ===== src/Ibt/Names.antt =====
-- `find_var` of teleport/src/ibt_writer.rs reads nothing but the variable headers.
use iracing_teleport.Base.{
  ℕ, zero, suc, ◌+◌, ◌-◌, ◌*◌, ◌^◌, ◌≤◌, ◌<◌, ◌≡◌, refl, sym, ap, ◌∙◌, List, [], ◌∷◌, Bool, Option,
  none, some, Bool, arith, length, take, drop, slice, from_le, drop-drop, ltb, ltb-eq-false,
  if◌then◌else◌,
}
use iracing_teleport.Telemetry.{read_i32, as_usize}
use iracing_teleport.Ibt.{find_var, wrap, until_zero, same_bytes}

take-take_le : (len n : ℕ) (l : List ℕ) → len ≤ n → take len (take n l) ≡ take len l
take-take_le zero n l h = refl
take-take_le (suc len) zero l h = absurd (omega arith)
take-take_le (suc len) (suc n) [] h = refl
take-take_le (suc len) (suc n) (x ∷ l) h = ap (λ t. x ∷ t) (take-take_le len n l (omega arith))

take-drop_inside :
    (x len n : ℕ) (l : List ℕ) → x + len ≤ n → take len (drop x (take n l)) ≡ take len (drop x l)
take-drop_inside zero len n l h = take-take_le len n l (omega arith)
take-drop_inside (suc x) len zero l h = absurd (omega arith)
take-drop_inside (suc x) len (suc n) [] h = refl
take-drop_inside (suc x) len (suc n) (y ∷ l) h = take-drop_inside x len n l (omega arith)

-- A slice inside a region, by its place in the region.
slice_inside :
    (b : List ℕ) (a n p q x len : ℕ)
    → p ≡ a + x
    → q ≡ p + len
    → x + len ≤ n
    → slice b p q ≡ take len (drop x (take n (drop a b)))
slice_inside b a n p q x len e e' h =
    let len_eq : q - p ≡ len = omega arith in
    ap (λ k. take k (drop p b)) len_eq
    ∙ ap (λ l. take len l) (sym (drop-drop p x a b (sym e)))
    ∙ sym (take-drop_inside x len n (drop a b) h)

-- Two memories that hold the same region of `n` bytes, at `a` and at `a'`.
pub record IsSameRegion (b b' : List ℕ) (a a' n : ℕ) : Type 0 where
  pub same : take n (drop a b) ≡ take n (drop a' b')
  pub inside : a + n ≤ length b
  pub inside' : a' + n ≤ length b'
  pub small : length b < 2 ^ 63
  pub small' : length b' < 2 ^ 63

module _ (b b' : List ℕ) (a a' n : ℕ) (s : IsSameRegion b b' a a' n) where
  same_slice :
      (p q p' q' x len : ℕ)
      → p ≡ a + x
      → q ≡ p + len
      → p' ≡ a' + x
      → q' ≡ p' + len
      → x + len ≤ n
      → slice b p q ≡ slice b' p' q'
  same_slice p q p' q' x len e1 e2 e3 e4 h =
      slice_inside b a n p q x len e1 e2 h
      ∙ ap (λ l. take len (drop x l)) s.same
      ∙ sym (slice_inside b' a' n p' q' x len e3 e4 h)

  pub find_var_moved :
      (left i : ℕ) (name : List ℕ)
      → (i + left) * 144 ≤ n
      → find_var left i b a name ≡ find_var left i b' a' name
  unfolding find_var read_i32
  find_var_moved zero i name h = refl
  find_var_moved (suc left) i name h =
      let at = wrap (a + i * 144) in
      let at' = wrap (a' + i * 144) in
      let e : at ≡ a + i * 144 = omega (arith, s.inside, s.small, h) in
      let e' : at' ≡ a' + i * 144 = omega (arith, s.inside', s.small', h) in
      let pick : Bool → List ℕ → List ℕ → List ℕ → Option (ℕ × ℕ) → Option (ℕ × ℕ) =
        λ past found off kind later.
          if past
          then none
          else if same_bytes (until_zero found) name
          then some (as_usize (from_le off), from_le kind)
          else later in
      let past : ltb (length b) (wrap (at + 144)) ≡ ltb (length b') (wrap (at' + 144)) =
        ltb-eq-false (length b) (wrap (at + 144)) (omega (arith, e, s.inside, s.small, h))
        ∙ sym (
            ltb-eq-false (length b') (wrap (at' + 144))
              (omega (arith, e', s.inside', s.small', h))) in
      let found =
        same_slice (at + 16) (at + 48) (at' + 16) (at' + 48) (i * 144 + 16) 32 (omega (arith, e))
          (omega arith) (omega (arith, e')) (omega arith) (omega (arith, h)) in
      let off =
        same_slice (at + 4) (at + 4 + 4) (at' + 4) (at' + 4 + 4) (i * 144 + 4) 4 (omega (arith, e))
          (omega arith) (omega (arith, e')) (omega arith) (omega (arith, h)) in
      let kind =
        same_slice at (at + 4) at' (at' + 4) (i * 144) 4 (omega (arith, e)) (omega arith)
          (omega (arith, e')) (omega arith) (omega (arith, h)) in
      let later = find_var_moved left (i + 1) name (omega (arith, h)) in
      λ k. pick (past k) (found k) (off k) (kind k) (later k)
