-- ===== src/Stats/Ranks.antt =====
-- `percentiles` of stats.rs: the ranks of what it selects.
use iracing_teleport.Base.{
  ℕ, zero, suc, ◌+◌, ◌-◌, ◌*◌, ◌/◌, ◌≤◌, ◌<◌, ◌≡◌, refl, List, [], ◌∷◌, arith, length, get_or, ltb,
  leb, min, if◌then◌else◌, inl, inr, Bool-cases,
}
use iracing_teleport.Stats.{insert, sort, select_nth, percentiles}

-- How many samples are at most, and are less than, a value.
abbrev pub count_le : ℕ → List ℕ → ℕ
count_le v [] = 0
count_le v (x ∷ xs) = (if leb x v then 1 else 0) + count_le v xs

abbrev pub count_lt : ℕ → List ℕ → ℕ
count_lt v [] = 0
count_lt v (x ∷ xs) = (if ltb x v then 1 else 0) + count_lt v xs

count_le-insert : (v x : ℕ) (xs : List ℕ) → count_le v (insert x xs) ≡ count_le v (x ∷ xs)
unfolding insert
count_le-insert v x [] = refl
count_le-insert v x (y ∷ ys) = let ih = count_le-insert v x ys in ground arith

count_lt-insert : (v x : ℕ) (xs : List ℕ) → count_lt v (insert x xs) ≡ count_lt v (x ∷ xs)
unfolding insert
count_lt-insert v x [] = refl
count_lt-insert v x (y ∷ ys) = let ih = count_lt-insert v x ys in ground arith

length-insert : (x : ℕ) (xs : List ℕ) → length (insert x xs) ≡ suc (length xs)
unfolding insert
length-insert x [] = refl
length-insert x (y ∷ ys) = let ih = length-insert x ys in ground arith

count_le-sort : (v : ℕ) (xs : List ℕ) → count_le v (sort xs) ≡ count_le v xs
unfolding sort
count_le-sort v [] = refl
count_le-sort v (x ∷ xs) = omega (arith, count_le-insert v x (sort xs), count_le-sort v xs)

count_lt-sort : (v : ℕ) (xs : List ℕ) → count_lt v (sort xs) ≡ count_lt v xs
unfolding sort
count_lt-sort v [] = refl
count_lt-sort v (x ∷ xs) = omega (arith, count_lt-insert v x (sort xs), count_lt-sort v xs)

length-sort : (xs : List ℕ) → length (sort xs) ≡ length xs
unfolding sort
length-sort [] = refl
length-sort (x ∷ xs) = omega (arith, length-insert x (sort xs), length-sort xs)

abbrev AllAtLeast : ℕ → List ℕ → Type 0
AllAtLeast v [] = Unit
AllAtLeast v (x ∷ xs) = (v ≤ x) × AllAtLeast v xs

abbrev IsSorted : List ℕ → Type 0
IsSorted [] = Unit
IsSorted (x ∷ xs) = AllAtLeast x xs × IsSorted xs

AllAtLeast-trans : (v w : ℕ) (xs : List ℕ) → v ≤ w → AllAtLeast w xs → AllAtLeast v xs
AllAtLeast-trans v w [] h a = tt
AllAtLeast-trans v w (x ∷ xs) h (b, a) = (omega (arith, h, b), AllAtLeast-trans v w xs h a)

AllAtLeast-insert : (v x : ℕ) (xs : List ℕ) → v ≤ x → AllAtLeast v xs → AllAtLeast v (insert x xs)
unfolding insert
AllAtLeast-insert v x [] h a = (h, tt)
AllAtLeast-insert v x (y ∷ ys) h a =
    let ih = AllAtLeast-insert v x ys h a.1 in let b = a.0 in ground arith

insert-IsSorted : (x : ℕ) (xs : List ℕ) → IsSorted xs → IsSorted (insert x xs)
unfolding insert
insert-IsSorted x [] s = (tt, tt)
insert-IsSorted x (y ∷ ys) (a, s) = elim (Bool-cases (leb x y)) [
  | inl le ↦ let h : x ≤ y = ground arith in rw le ((h, AllAtLeast-trans x y ys h a), (a, s))
  | inr gt ↦
      let h : y ≤ x = ground arith in rw gt (AllAtLeast-insert y x ys h a, insert-IsSorted x ys s)
]

sort-IsSorted : (xs : List ℕ) → IsSorted (sort xs)
unfolding sort
sort-IsSorted [] = tt
sort-IsSorted (x ∷ xs) = insert-IsSorted x (sort xs) (sort-IsSorted xs)

get_or-AllAtLeast :
    (v : ℕ) (xs : List ℕ) (k : ℕ) → AllAtLeast v xs → k < length xs → v ≤ get_or xs k 0
get_or-AllAtLeast v [] k a h = absurd (omega arith)
get_or-AllAtLeast v (x ∷ xs) zero a h = a.0
get_or-AllAtLeast v (x ∷ xs) (suc k) a h = get_or-AllAtLeast v xs k a.1 (omega arith)

count_lt-AllAtLeast : (v : ℕ) (xs : List ℕ) → AllAtLeast v xs → count_lt v xs ≡ 0
count_lt-AllAtLeast v [] a = refl
count_lt-AllAtLeast v (x ∷ xs) (h, a) = let ih = count_lt-AllAtLeast v xs a in ground arith

-- Of the samples in order, more than `k` are at most the one at `k`, and at most `k` are less.
count_le-sorted :
    (xs : List ℕ) (k : ℕ) → IsSorted xs → k < length xs → k < count_le (get_or xs k 0) xs
count_le-sorted [] k s h = absurd (omega arith)
count_le-sorted (x ∷ xs) zero s h = ground arith
count_le-sorted (x ∷ xs) (suc k) (a, s) h =
    let b = get_or-AllAtLeast x xs k a (omega arith) in
    let ih = count_le-sorted xs k s (omega arith) in ground arith

count_lt-sorted :
    (xs : List ℕ) (k : ℕ) → IsSorted xs → k < length xs → count_lt (get_or xs k 0) xs ≤ k
count_lt-sorted [] k s h = absurd (omega arith)
count_lt-sorted (x ∷ xs) zero (a, s) h = let e = count_lt-AllAtLeast x xs a in ground arith
count_lt-sorted (x ∷ xs) (suc k) (a, s) h =
    let ih = count_lt-sorted xs k s (omega arith) in ground arith

-- A value that has the rank `k` among the samples.
pub record HasRank (samples : List ℕ) (k v : ℕ) : Type 0 where
  pub more : k < count_le v samples
  pub less : count_lt v samples ≤ k

pub select_nth-HasRank :
    (samples : List ℕ) (k : ℕ) → k < length samples → HasRank samples k (select_nth samples k)
unfolding select_nth
select_nth-HasRank samples k h =
    let s = sort-IsSorted samples in
    let h' : k < length (sort samples) = omega (arith, length-sort samples) in
    let v = get_or (sort samples) k 0 in
    record {
      more = omega (arith, count_le-sorted (sort samples) k s h', count_le-sort v samples);
      less = omega (arith, count_lt-sorted (sort samples) k s h', count_lt-sort v samples);
    }

-- Of at least one sample, the three numbers have the ranks of the median, of the 99th of a hundred
-- parts, and of the greatest: of `n` samples more than `n / 2` are at most the first number and at most
-- `n / 2` are less, and likewise with `min (n * 99 / 100) (n - 1)` and `n - 1`.
pub percentiles-HasRank :
    (samples : List ℕ)
    → 0 < length samples
    → let n = length samples in
      let (p50, p99, most) = percentiles samples in
      HasRank samples (n / 2) p50
      × HasRank samples (min (n * 99 / 100) (n - 1)) p99
      × HasRank samples (n - 1) most
unfolding percentiles
percentiles-HasRank [] h = absurd (omega arith)
percentiles-HasRank (x ∷ xs) h =
    let n = length (x ∷ xs) in
    (
      select_nth-HasRank (x ∷ xs) (n / 2) (omega arith),
      select_nth-HasRank (x ∷ xs) (min (n * 99 / 100) (n - 1)) (omega arith),
      select_nth-HasRank (x ∷ xs) (n - 1) (omega arith),
    )
