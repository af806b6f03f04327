-- ===== src/Protocol/Delta/Bytewise.antt =====
-- `xor_delta` against its description byte by byte.
use Prim.Native.Nat.{bit_xor}
use mathlib.Core.List.{append_assoc, append-nil}
use native.Mathlib.Numerals.{add-one}
use iracing_teleport.Base.{
  ℕ, zero, suc, ◌+◌, ◌*◌, ◌/◌, ◌≤◌, ◌≡◌, sym, ap, ap₂, ◌∙◌, List, [], ◌∷◌, ◌++◌, arith, length,
  get_or, set, slice, take, drop, overwrite, to_le, from_le, IsBytes, length-take, length-drop,
  length-overwrite, length-set, length-to_le, drop-drop, take_all, drop_all,
}
use iracing_teleport.Protocol.Delta.{xor_chunks, xor_tail, xor_delta}
use iracing_teleport.Protocol.Delta.ZipXor.{
  drop-IsBytes, drop-cons, length-zip_xor, take-IsBytes, take-overwrite, take-set, to_le-bit_xor,
  zip_xor, zip_xor-IsBytes, zip_xor_cancel, zip_xor_split,
}

-- Where no round is left, the output stands as it is.
done-eq :
    (k : ℕ) (current previous output : List ℕ)
    → length current ≤ k
    → length output ≤ k
    → output ≡ take k output ++ zip_xor (drop k current) (drop k previous)
unfolding zip_xor
done-eq k current previous output c o =
    rw (drop_all k current c, take_all k output o) (sym (append-nil output))

xor_tail-eq :
    (left i : ℕ) (current previous output : List ℕ)
    → length current ≡ i + left
    → length previous ≡ i + left
    → length output ≡ i + left
    → xor_tail left i current previous output
      ≡ take i output ++ zip_xor (drop i current) (drop i previous)
unfolding xor_tail zip_xor
xor_tail-eq zero i current previous output c p o =
    done-eq i current previous output (omega arith) (omega arith)
xor_tail-eq (suc left) i current previous output c p o =
    let v = bit_xor (get_or current i 0) (get_or previous i 0) in
    xor_tail-eq left (i + 1) current previous (set output i v) (omega arith) (omega arith)
      (omega (arith, length-set output i v))
    ∙ rw
        (
          add-one,
          take-set i output v (omega arith),
          drop-cons i current (omega arith),
          drop-cons i previous (omega arith),
        )
        (append_assoc (take i output) (v ∷ [])
          (zip_xor (drop (suc i) current) (drop (suc i) previous)))

-- The eight bytes of a word.
slice-eq-take : (at : ℕ) (b : List ℕ) → slice b at (at + 8) ≡ take 8 (drop at b)
slice-eq-take at b = ap (λ (k : ℕ). take k (drop at b)) {y = 8} (omega arith)

word-eq :
    (at : ℕ) (current previous : List ℕ)
    → at + 8 ≤ length current
    → at + 8 ≤ length previous
    → IsBytes current
    → IsBytes previous
    → to_le 8 (bit_xor (from_le (slice current at (at + 8))) (from_le (slice previous at (at + 8))))
      ≡ zip_xor (take 8 (drop at current)) (take 8 (drop at previous))
word-eq at current previous c p bc bp =
    rw (slice-eq-take at current, slice-eq-take at previous)
      (to_le-bit_xor 8 (take 8 (drop at current)) (take 8 (drop at previous))
        (omega (arith, length-take 8 (drop at current), length-drop at current))
        (omega (arith, length-take 8 (drop at previous), length-drop at previous))
        (take-IsBytes 8 (drop at current) (drop-IsBytes at current bc))
        (take-IsBytes 8 (drop at previous) (drop-IsBytes at previous bp)))

xor_chunks-eq :
    (left i : ℕ) (current previous output : List ℕ)
    → length current ≡ (i + left) * 8
    → length previous ≡ (i + left) * 8
    → length output ≡ (i + left) * 8
    → IsBytes current
    → IsBytes previous
    → xor_chunks left i current previous output
      ≡ take (i * 8) output ++ zip_xor (drop (i * 8) current) (drop (i * 8) previous)
unfolding xor_chunks
xor_chunks-eq zero i current previous output c p o bc bp =
    done-eq (i * 8) current previous output (omega arith) (omega arith)
xor_chunks-eq (suc left) i current previous output c p o bc bp =
    let at = i * 8 in
    let cs = drop at current in
    let ps = drop at previous in
    let word =
      bit_xor (from_le (slice current at (at + 8))) (from_le (slice previous at (at + 8))) in
    let w = to_le 8 word in
    let rest = zip_xor (drop 8 cs) (drop 8 ps) in
    xor_chunks-eq left (i + 1) current previous (overwrite output at w) (omega arith) (omega arith)
      (omega (arith, length-overwrite output at w)) bc bp
    ∙ rw
        (
          take-overwrite ((i + 1) * 8) at output w (omega (arith, length-to_le 8 word))
              (omega arith),
          ← drop-drop ((i + 1) * 8) 8 at current (omega arith),
          ← drop-drop ((i + 1) * 8) 8 at previous (omega arith),
          append_assoc (take at output) w rest,
        )
        (ap (λ l. take at output ++ (l ++ rest))
            (word-eq at current previous (omega arith) (omega arith) bc bp)
          ∙ ap (λ l. take at output ++ l)
              (zip_xor_split 8 cs ps
                (omega (arith, length-drop at current, length-drop at previous))))

-- The loops over words and over the tail compute the exclusive or byte by byte, whatever was in
-- the output, if the three slices have one length and the two inputs consist of bytes.
pub xor_delta-eq-zip_xor :
    (current previous output : List ℕ)
    → length previous ≡ length current
    → length output ≡ length current
    → IsBytes current
    → IsBytes previous
    → xor_delta current previous output ≡ zip_xor current previous
unfolding xor_delta
xor_delta-eq-zip_xor current previous output p o bc bp =
    let cut = length current / 8 * 8 in
    ap₂ ◌++◌
      (xor_chunks-eq (length current / 8) 0 (take cut current) (take cut previous) (take cut output)
        (omega (arith, length-take cut current)) (omega (arith, length-take cut previous))
        (omega (arith, length-take cut output)) (take-IsBytes cut current bc)
        (take-IsBytes cut previous bp))
      (xor_tail-eq (length (drop cut current)) 0 (drop cut current) (drop cut previous)
        (drop cut output) (omega arith)
        (omega (arith, length-drop cut current, length-drop cut previous))
        (omega (arith, length-drop cut current, length-drop cut output)))
    ∙ zip_xor_split cut current previous (sym p)

-- What one side encodes against the previous frame, the other side decodes against the same
-- previous frame, whatever the two output buffers held, if all slices have one length and the two
-- frames consist of bytes.
pub xor_delta_round_trip :
    (current previous output output' : List ℕ)
    → length previous ≡ length current
    → length output ≡ length current
    → length output' ≡ length current
    → IsBytes current
    → IsBytes previous
    → xor_delta (xor_delta current previous output) previous output' ≡ current
xor_delta_round_trip current previous output output' p o o' bc bp =
    let same = length-zip_xor current previous (sym p) in
    rw (xor_delta-eq-zip_xor current previous output p o bc bp) (
      xor_delta-eq-zip_xor (zip_xor current previous) previous output' (omega arith) (omega arith)
        (zip_xor-IsBytes current previous bc bp) bp
      ∙ zip_xor_cancel current previous (sym p))
