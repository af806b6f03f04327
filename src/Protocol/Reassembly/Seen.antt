-- ===== src/Protocol/Reassembly/Seen.antt =====
-- Which of the fragments 0 to n - 1 have arrived, and how many of them.
use iracing_teleport.Base.{
  ℕ, zero, suc, ◌+◌, ◌≤◌, ◌<◌, ◌≡◌, refl, List, [], ◌∷◌, Bool, true, false, ◌||◌, arith, ◌==◌,
  if◌then◌else◌,
}

abbrev pub has : List ℕ → ℕ → Bool
has [] j = false
has (i ∷ seen) j = (i == j) || has seen j

-- How many numbers below `n` the list has.
abbrev pub count_seen : ℕ → List ℕ → ℕ
count_seen zero seen = 0
count_seen (suc n) seen = (if has seen n then 1 else 0) + count_seen n seen

pub count_seen-nil : (n : ℕ) → count_seen n [] ≡ 0
count_seen-nil zero = refl
count_seen-nil (suc n) = omega (arith, count_seen-nil n)

pub count_seen-le : (n : ℕ) (seen : List ℕ) → count_seen n seen ≤ n
count_seen-le zero seen = omega arith
count_seen-le (suc n) seen = ground (arith, count_seen-le n seen)

count_seen-cons_above :
    (n i : ℕ) (seen : List ℕ) → n ≤ i → count_seen n (i ∷ seen) ≡ count_seen n seen
count_seen-cons_above zero i seen h = refl
count_seen-cons_above (suc n) i seen h = ground (arith, count_seen-cons_above n i seen)

pub count_seen-cons :
    (n i : ℕ) (seen : List ℕ)
    → i < n
    → has seen i ≡ false
    → count_seen n (i ∷ seen) ≡ count_seen n seen + 1
count_seen-cons zero i seen h e = absurd (omega arith)
count_seen-cons (suc n) i seen h e =
    ground (arith, count_seen-cons n i seen, count_seen-cons_above n i seen)

pub count_seen-lt : (n j : ℕ) (seen : List ℕ) → j < n → has seen j ≡ false → count_seen n seen < n
count_seen-lt zero j seen h e = absurd (omega arith)
count_seen-lt (suc n) j seen h e = ground (arith, count_seen-lt n j seen, count_seen-le n seen)

pub count_seen_all :
    (n : ℕ) (seen : List ℕ) → ((j : ℕ) → j < n → has seen j ≡ true) → count_seen n seen ≡ n
count_seen_all zero seen all = refl
count_seen_all (suc n) seen all =
    ground (arith, all n (omega arith), count_seen_all n seen (λ j h. all j (omega arith)))
