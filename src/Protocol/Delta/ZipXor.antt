-- ===== src/Protocol/Delta/ZipXor.antt =====
-- The exclusive or byte by byte, against which the loops of `xor_delta` of teleport/src/protocol.rs are
-- proved, on parts of buffers.
use Prim.Native.Nat.{bit_xor}
use mathlib.Core.List.{append_assoc}
use iracing_teleport.Base.{
  ℕ, zero, suc, ◌+◌, ◌≤◌, ◌<◌, ◌≡◌, refl, sym, ap, ap₂, ◌∙◌, List, [], ◌∷◌, ◌++◌, arith, length,
  get_or, set, take, drop, overwrite, to_le, from_le, IsBytes, length-take, length-drop,
  length-append, take-append-drop, overwrite-append, overwrite_zero, take-append,
}
use iracing_teleport.Protocol.Delta.Bits.{bit_xor_cancel, bit_xor-lt, bit_xor_fields}

-- `delta[i] = current[i] ^ previous[i]`
unfoldable pub zip_xor : List ℕ → List ℕ → List ℕ
zip_xor [] ys = []
zip_xor (x ∷ xs) [] = []
zip_xor (x ∷ xs) (y ∷ ys) = bit_xor x y ∷ zip_xor xs ys

pub length-zip_xor : (xs ys : List ℕ) → length xs ≡ length ys → length (zip_xor xs ys) ≡ length xs
unfolding zip_xor
length-zip_xor [] ys e = refl
length-zip_xor (x ∷ xs) [] e = absurd (omega arith)
length-zip_xor (x ∷ xs) (y ∷ ys) e = ap suc (length-zip_xor xs ys (omega arith))

pub zip_xor_cancel : (xs ys : List ℕ) → length xs ≡ length ys → zip_xor (zip_xor xs ys) ys ≡ xs
unfolding zip_xor
zip_xor_cancel [] ys e = refl
zip_xor_cancel (x ∷ xs) [] e = absurd (omega arith)
zip_xor_cancel (x ∷ xs) (y ∷ ys) e =
    ap₂ ◌∷◌ (bit_xor_cancel x y) (zip_xor_cancel xs ys (omega arith))

pub zip_xor-IsBytes : (xs ys : List ℕ) → IsBytes xs → IsBytes ys → IsBytes (zip_xor xs ys)
unfolding zip_xor
zip_xor-IsBytes [] ys p q = tt
zip_xor-IsBytes (x ∷ xs) [] p q = tt
zip_xor-IsBytes (x ∷ xs) (y ∷ ys) p q = (bit_xor-lt 8 x y p.0 q.0, zip_xor-IsBytes xs ys p.1 q.1)

pub take-IsBytes : (n : ℕ) (xs : List ℕ) → IsBytes xs → IsBytes (take n xs)
take-IsBytes zero xs p = tt
take-IsBytes (suc n) [] p = tt
take-IsBytes (suc n) (x ∷ xs) p = (p.0, take-IsBytes n xs p.1)

pub drop-IsBytes : (n : ℕ) (xs : List ℕ) → IsBytes xs → IsBytes (drop n xs)
drop-IsBytes zero xs p = p
drop-IsBytes (suc n) [] p = tt
drop-IsBytes (suc n) (x ∷ xs) p = drop-IsBytes n xs p.1

-- A word is made of the exclusive ors of its bytes.
pub to_le-bit_xor :
    (n : ℕ) (xs ys : List ℕ)
    → length xs ≡ n
    → length ys ≡ n
    → IsBytes xs
    → IsBytes ys
    → to_le n (bit_xor (from_le xs) (from_le ys)) ≡ zip_xor xs ys
unfolding zip_xor
to_le-bit_xor zero [] ys e e' p q = refl
to_le-bit_xor zero (x ∷ xs) ys e e' p q = absurd (omega arith)
to_le-bit_xor (suc n) [] ys e e' p q = absurd (omega arith)
to_le-bit_xor (suc n) (x ∷ xs) [] e e' p q = absurd (omega arith)
to_le-bit_xor (suc n) (x ∷ xs) (y ∷ ys) e e' p q =
    let byte = bit_xor_fields 8 x y (from_le xs) (from_le ys) p.0 q.0 in
    let small = bit_xor-lt 8 x y p.0 q.0 in
    let rest = to_le-bit_xor n xs ys (omega arith) (omega arith) p.1 q.1 in
    ap₂ ◌∷◌ (omega (arith, byte, small))
      (ap (to_le n) {y = bit_xor (from_le xs) (from_le ys)} (omega (arith, byte, small)) ∙ rest)

-- Both lists cut at the same place.
pub zip_xor_split :
    (n : ℕ) (xs ys : List ℕ)
    → length xs ≡ length ys
    → zip_xor (take n xs) (take n ys) ++ zip_xor (drop n xs) (drop n ys) ≡ zip_xor xs ys
unfolding zip_xor
zip_xor_split zero xs ys e = refl
zip_xor_split (suc n) [] ys e = refl
zip_xor_split (suc n) (x ∷ xs) [] e = absurd (omega arith)
zip_xor_split (suc n) (x ∷ xs) (y ∷ ys) e =
    ap (λ l. bit_xor x y ∷ l) (zip_xor_split n xs ys (omega arith))

pub drop-cons : (i : ℕ) (xs : List ℕ) → i < length xs → drop i xs ≡ get_or xs i 0 ∷ drop (suc i) xs
drop-cons i [] h = absurd (omega arith)
drop-cons zero (x ∷ xs) h = refl
drop-cons (suc i) (x ∷ xs) h = drop-cons i xs (omega arith)

pub take-set :
    (i : ℕ) (xs : List ℕ) (v : ℕ)
    → i < length xs
    → take (suc i) (set xs i v) ≡ take i xs ++ (v ∷ [])
take-set i [] v h = absurd (omega arith)
take-set zero (x ∷ xs) v h = refl
take-set (suc i) (x ∷ xs) v h = ap (λ l. x ∷ l) (take-set i xs v (omega arith))

pub take-overwrite :
    (k at : ℕ) (b src : List ℕ)
    → at + length src ≡ k
    → k ≤ length b
    → take k (overwrite b at src) ≡ take at b ++ src
take-overwrite k at b src e h =
    let head : length (take at b) ≡ at = omega (arith, length-take at b) in
    let split = sym (take-append-drop at b) in
    ap (λ (l : List ℕ). take k (overwrite l at src)) split
    ∙ (ap (take k) (
          overwrite-append at (take at b) (drop at b) src head
          ∙ (ap (λ l. take at b ++ l)
                (overwrite_zero (drop at b) src (omega (arith, length-drop at b)))
              ∙ sym (append_assoc (take at b) src (drop (length src) (drop at b)))))
        ∙ take-append k (take at b ++ src) (drop (length src) (drop at b))
            (omega (arith, length-append (take at b) src)))
