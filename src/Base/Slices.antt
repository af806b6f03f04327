-- ===== src/Base/Slices.antt =====
-- Slices of byte buffers: `b[lo..hi]`, and `b[at..at + n].copy_from_slice(src)`.
use Prim.Native.Nat.{ℕ, zero, suc, ◌+◌, ◌-◌, ◌≤◌, ◌<◌}
use mathlib.Core.Path.{◌≡◌, refl, ap}
use mathlib.Core.Logic.{◌⊎◌}
use mathlib.Core.List.{List, [], ◌∷◌, ◌++◌}
use native.Mathlib.Omega.{arith}
use iracing_teleport.Base.Lists.{length, get_or, take, drop}

-- `b[lo..hi]`, for a range inside `b`.
abbrev pub slice : List ℕ → ℕ → ℕ → List ℕ
slice b lo hi = take (hi - lo) (drop lo b)

-- The buffer with `src` copied over it from index `at` on. What would run past the end is cut
-- off: the program checks the range before it copies.
unfoldable pub overwrite : List ℕ → ℕ → List ℕ → List ℕ
overwrite [] at src = []
overwrite (b ∷ bs) zero [] = b ∷ bs
overwrite (b ∷ bs) zero (x ∷ src) = x ∷ overwrite bs zero src
overwrite (b ∷ bs) (suc at) src = b ∷ overwrite bs at src

pub length-overwrite : (b : List ℕ) (at : ℕ) (src : List ℕ) → length (overwrite b at src) ≡ length b
unfolding overwrite
length-overwrite [] at src = refl
length-overwrite (b ∷ bs) zero [] = refl
length-overwrite (b ∷ bs) zero (x ∷ src) = ap suc (length-overwrite bs zero src)
length-overwrite (b ∷ bs) (suc at) src = ap suc (length-overwrite bs at src)

pub get_or-overwrite_outside :
    (b : List ℕ) (at : ℕ) (src : List ℕ) (i : ℕ)
    → (i < at) ⊎ (at + length src ≤ i)
    → get_or (overwrite b at src) i 0 ≡ get_or b i 0
unfolding overwrite
get_or-overwrite_outside [] at src i h = refl
get_or-overwrite_outside (b ∷ bs) zero [] i h = refl
get_or-overwrite_outside (b ∷ bs) zero (x ∷ src) zero h = absurd (omega arith)
get_or-overwrite_outside (b ∷ bs) zero (x ∷ src) (suc i) h =
    get_or-overwrite_outside bs zero src i (omega arith)
get_or-overwrite_outside (b ∷ bs) (suc at) src zero h = refl
get_or-overwrite_outside (b ∷ bs) (suc at) src (suc i) h =
    get_or-overwrite_outside bs at src i (omega arith)

pub get_or-overwrite_inside :
    (b : List ℕ) (at : ℕ) (src : List ℕ) (i j : ℕ)
    → i ≡ at + j
    → j < length src
    → i < length b
    → get_or (overwrite b at src) i 0 ≡ get_or src j 0
unfolding overwrite
get_or-overwrite_inside [] at src i j e hj hi = absurd (omega arith)
get_or-overwrite_inside (b ∷ bs) zero [] i j e hj hi = absurd (omega arith)
get_or-overwrite_inside (b ∷ bs) zero (x ∷ src) zero zero e hj hi = refl
get_or-overwrite_inside (b ∷ bs) zero (x ∷ src) zero (suc j) e hj hi = absurd (omega arith)
get_or-overwrite_inside (b ∷ bs) zero (x ∷ src) (suc i) zero e hj hi = absurd (omega arith)
get_or-overwrite_inside (b ∷ bs) zero (x ∷ src) (suc i) (suc j) e hj hi =
    get_or-overwrite_inside bs zero src i j (omega arith) (omega arith) (omega arith)
get_or-overwrite_inside (b ∷ bs) (suc at) src zero j e hj hi = absurd (omega arith)
get_or-overwrite_inside (b ∷ bs) (suc at) src (suc i) j e hj hi =
    get_or-overwrite_inside bs at src i j (omega arith) (omega arith) (omega arith)

-- The part of a buffer that was just written.
pub overwrite_zero :
    (b src : List ℕ) → length src ≤ length b → overwrite b 0 src ≡ src ++ drop (length src) b
unfolding overwrite
overwrite_zero [] [] h = refl
overwrite_zero [] (x ∷ src) h = absurd (omega arith)
overwrite_zero (b ∷ bs) [] h = refl
overwrite_zero (b ∷ bs) (x ∷ src) h = ap (λ l. x ∷ l) (overwrite_zero bs src (omega arith))

pub overwrite-append :
    (n : ℕ) (xs ys src : List ℕ)
    → length xs ≡ n
    → overwrite (xs ++ ys) n src ≡ xs ++ overwrite ys 0 src
unfolding overwrite
overwrite-append zero [] ys src e = refl
overwrite-append zero (x ∷ xs) ys src e = absurd (omega arith)
overwrite-append (suc n) [] ys src e = absurd (omega arith)
overwrite-append (suc n) (x ∷ xs) ys src e =
    ap (λ l. x ∷ l) (overwrite-append n xs ys src (omega arith))
