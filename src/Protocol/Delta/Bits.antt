-- ===== src/Protocol/Delta/Bits.antt =====
-- Laws of exclusive or, from its digits: it cancels itself, and it works on each byte of a word
-- by itself.
use Prim.Native.Nat.{bit_xor, bit_xor-bitwise, digits, differ}
use native.Mathlib.Nat.{pow-suc}
use iracing_teleport.Base.{
  ℕ, zero, suc, ◌+◌, ◌*◌, ◌/◌, ◌%◌, ◌^◌, ◌≤◌, ◌<◌, ◌≡◌, refl, ap, ap₂, ◌∙◌, arith,
}

abbrev xor_digits : ℕ → ℕ → ℕ → ℕ
xor_digits n a b = digits (λ y. y) differ n a b

xor_digits_fuel : (n m a b : ℕ) → a ≤ n → a ≤ m → xor_digits n a b ≡ xor_digits m a b
xor_digits_fuel zero zero a b p q = refl
xor_digits_fuel zero (suc m) zero b p q = refl
xor_digits_fuel zero (suc m) (suc a) b p q = absurd (omega arith)
xor_digits_fuel (suc n) zero zero b p q = refl
xor_digits_fuel (suc n) zero (suc a) b p q = absurd (omega arith)
xor_digits_fuel (suc n) (suc m) zero b p q = refl
xor_digits_fuel (suc n) (suc m) (suc a) b p q =
    omega (arith, xor_digits_fuel n m (suc a / 2) (b / 2) (omega arith) (omega arith))

pub zero-bit_xor : (b : ℕ) → bit_xor 0 b ≡ b
zero-bit_xor b = bit_xor-bitwise 0 b

-- The lowest digit, and the others.
pub bit_xor_step : (a b : ℕ) → bit_xor a b ≡ bit_xor (a / 2) (b / 2) * 2 + differ (a % 2) (b % 2)
bit_xor_step zero b = omega (arith, zero-bit_xor b, zero-bit_xor (b / 2))
bit_xor_step (suc a) b = omega (
  arith,
  bit_xor-bitwise (suc a) b,
  bit_xor-bitwise (suc a / 2) (b / 2),
  xor_digits_fuel a (suc a / 2) (suc a / 2) (b / 2) (omega arith) (omega arith),
)

differ-lt : (x y : ℕ) → x < 2 → y < 2 → differ x y < 2
differ-lt zero y p q = q
differ-lt (suc zero) zero p q = omega arith
differ-lt (suc zero) (suc zero) p q = omega arith
differ-lt (suc zero) (suc (suc y)) p q = absurd (omega arith)
differ-lt (suc (suc x)) y p q = absurd (omega arith)

differ_cancel : (x y : ℕ) → x < 2 → y < 2 → differ (differ x y) y ≡ x
differ_cancel zero zero p q = refl
differ_cancel zero (suc zero) p q = refl
differ_cancel zero (suc (suc y)) p q = absurd (omega arith)
differ_cancel (suc zero) zero p q = refl
differ_cancel (suc zero) (suc zero) p q = refl
differ_cancel (suc zero) (suc (suc y)) p q = absurd (omega arith)
differ_cancel (suc (suc x)) y p q = absurd (omega arith)

-- Halves and remainders of a number given by its digits.
bit_xor-parts :
    (a b : ℕ)
    → (bit_xor a b / 2 ≡ bit_xor (a / 2) (b / 2)) × (bit_xor a b % 2 ≡ differ (a % 2) (b % 2))
bit_xor-parts a b =
    omega (arith, bit_xor_step a b, differ-lt (a % 2) (b % 2) (omega arith) (omega arith))

cancel_fuel : (n a b : ℕ) → a ≤ n → b ≤ n → bit_xor (bit_xor a b) b ≡ a
cancel_fuel zero zero b p q = let e : b ≡ 0 = omega arith in rw e
cancel_fuel zero (suc a) b p q = absurd (omega arith)
cancel_fuel (suc n) a b p q =
    let (half, low) = bit_xor-parts a b in
    rw (bit_xor_step (bit_xor a b) b, half, low)
      (omega (
        arith,
        cancel_fuel n (a / 2) (b / 2) (omega arith) (omega arith),
        differ_cancel (a % 2) (b % 2) (omega arith) (omega arith),
      ))

pub bit_xor_cancel : (a b : ℕ) → bit_xor (bit_xor a b) b ≡ a
bit_xor_cancel a b = cancel_fuel (a + b) a b (omega arith) (omega arith)

pub bit_xor-lt : (k a b : ℕ) → a < 2 ^ k → b < 2 ^ k → bit_xor a b < 2 ^ k
bit_xor-lt zero a b p q =
    let e : a ≡ 0 = omega arith in let e' : b ≡ 0 = omega arith in rw (e, e') (omega arith)
bit_xor-lt (suc k) a b p q = omega (
  arith,
  pow-suc 2 k,
  bit_xor_step a b,
  differ-lt (a % 2) (b % 2) (omega arith) (omega arith),
  bit_xor-lt k (a / 2) (b / 2) (omega (arith, pow-suc 2 k)) (omega (arith, pow-suc 2 k)),
)

double : (k c : ℕ) → 2 ^ suc k * c ≡ 2 * (2 ^ k * c)
double k c = omega (arith, ap (λ (t : ℕ). t * c) (pow-suc 2 k))

-- The low `k` digits and the rest are apart.
pub bit_xor_fields :
    (k x y a b : ℕ)
    → x < 2 ^ k
    → y < 2 ^ k
    → bit_xor (x + 2 ^ k * a) (y + 2 ^ k * b) ≡ bit_xor x y + 2 ^ k * bit_xor a b
bit_xor_fields zero x y a b p q =
    let e : x ≡ 0 = omega arith in
    let e' : y ≡ 0 = omega arith in
    rw (e, e') (ap₂ bit_xor {y = a} {v = b} (omega arith) (omega arith) ∙ omega arith)
bit_xor_fields (suc k) x y a b p q =
    let half =
      bit_xor_fields k (x / 2) (y / 2) a b (omega (arith, pow-suc 2 k))
        (omega (arith, pow-suc 2 k)) in
    let x-half : (x + 2 ^ suc k * a) / 2 ≡ x / 2 + 2 ^ k * a = omega (arith, double k a) in
    let y-half : (y + 2 ^ suc k * b) / 2 ≡ y / 2 + 2 ^ k * b = omega (arith, double k b) in
    let x-low : (x + 2 ^ suc k * a) % 2 ≡ x % 2 = omega (arith, double k a) in
    let y-low : (y + 2 ^ suc k * b) % 2 ≡ y % 2 = omega (arith, double k b) in
    rw (bit_xor_step (x + 2 ^ suc k * a) (y + 2 ^ suc k * b), x-half, y-half, x-low, y-low, half)
      (omega (arith, bit_xor_step x y, double k (bit_xor a b)))
