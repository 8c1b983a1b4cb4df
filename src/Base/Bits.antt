-- ===== src/Base/Bits.antt =====
-- `|` of disjoint bit fields as a sum at every width, and tables over one byte.
use Prim.Native.Nat.{
  ℕ, zero, suc, ◌+◌, ◌*◌, ◌/◌, ◌%◌, ◌^◌, ◌≤◌, ◌<◌, max, bit_or, digits, bit_or-bitwise,
}
use mathlib.Core.Path.{◌≡◌, refl, ap}
use mathlib.Core.Bool.{Bool, true, ◌&&◌}
use native.Mathlib.Nat.{pow-suc}
use native.Mathlib.Omega.{arith}

-- The recursion on digits that `bit_or` stands for, with `rounds` as its fuel.
abbrev or_digits : ℕ → ℕ → ℕ → ℕ
or_digits rounds a b = digits (λ y. y) max rounds a b

-- Any fuel from `a` on gives the same digits.
or_digits_rounds : (a n b : ℕ) (m : ℕ) → a ≤ n → a ≤ m → or_digits n a b ≡ or_digits m a b
or_digits_rounds zero zero b zero p q = refl
or_digits_rounds zero zero b (suc m) p q = refl
or_digits_rounds zero (suc n) b zero p q = refl
or_digits_rounds zero (suc n) b (suc m) p q = refl
or_digits_rounds (suc a) zero b m p q = absurd (omega arith)
or_digits_rounds (suc a) (suc n) b zero p q = absurd (omega arith)
or_digits_rounds (suc a) (suc n) b (suc m) p q =
    ap (λ t. t * 2 + max (suc a % 2) (b % 2))
      (or_digits_rounds (suc a / 2) n (b / 2) m (omega arith) (omega arith))

zero-bit_or : (b : ℕ) → bit_or 0 b ≡ b
zero-bit_or b = bit_or-bitwise 0 b

-- One binary digit at a time.
bit_or_digit : (a b : ℕ) → bit_or a b ≡ bit_or (a / 2) (b / 2) * 2 + max (a % 2) (b % 2)
bit_or_digit zero b = omega (arith, zero-bit_or b, zero-bit_or (b / 2))
bit_or_digit (suc a) b = omega (
  arith,
  bit_or-bitwise (suc a) b,
  bit_or-bitwise (suc a / 2) (b / 2),
  or_digits_rounds (suc a / 2) a (b / 2) (suc a / 2) (omega arith) (omega arith),
)

bit_or-zero_upto : (n a : ℕ) → a ≤ n → bit_or a 0 ≡ a
bit_or-zero_upto n zero h = refl
bit_or-zero_upto zero (suc a) h = absurd (omega arith)
bit_or-zero_upto (suc n) (suc a) h =
    omega (arith, bit_or_digit (suc a) 0, bit_or-zero_upto n (suc a / 2) (omega arith))

shifted-suc : (x k : ℕ) → x * 2 ^ suc k ≡ 2 * (x * 2 ^ k)
shifted-suc x k = omega (arith, ap (λ (t : ℕ). x * t) (pow-suc 2 k))

-- `low | (high << k)` for a `low` of `k` bits.
pub bit_or-low_high :
    (k low high : ℕ) → low < 2 ^ k → bit_or low (high * 2 ^ k) ≡ low + high * 2 ^ k
bit_or-low_high zero zero high h = omega (arith, zero-bit_or (high * 2 ^ 0))
bit_or-low_high zero (suc low) high h = absurd (omega arith)
bit_or-low_high (suc k) low high h = omega (
  arith,
  bit_or_digit low (high * 2 ^ suc k),
  shifted-suc high k,
  pow-suc 2 k,
  ap (bit_or (low / 2)) halved,
  bit_or-low_high k (low / 2) high (omega (arith, pow-suc 2 k)),
)
  where
    halved : high * 2 ^ suc k / 2 ≡ high * 2 ^ k
    halved = omega (arith, shifted-suc high k)

-- `(high << k) | low` for a `low` of `k` bits.
pub bit_or-high_low :
    (k high low : ℕ) → low < 2 ^ k → bit_or (high * 2 ^ k) low ≡ high * 2 ^ k + low
bit_or-high_low zero high low h = omega (
  arith,
  bit_or-zero_upto (high * 2 ^ 0) (high * 2 ^ 0) (omega arith),
  ap (bit_or (high * 2 ^ 0)) none_left,
)
  where
    none_left : low ≡ 0
    none_left = omega arith
bit_or-high_low (suc k) high low h = omega (
  arith,
  bit_or_digit (high * 2 ^ suc k) low,
  shifted-suc high k,
  pow-suc 2 k,
  ap (λ t. bit_or t (low / 2)) halved,
  bit_or-high_low k high (low / 2) (omega (arith, pow-suc 2 k)),
)
  where
    halved : high * 2 ^ suc k / 2 ≡ high * 2 ^ k
    halved = omega (arith, shifted-suc high k)

-- Over a small range, a test holds everywhere if it is true at every value.
unfoldable pub all_below : ℕ → (ℕ → Bool) → Bool
all_below zero p = true
all_below (suc n) p = p n && all_below n p

pub all_below_at : (n : ℕ) (p : ℕ → Bool) (x : ℕ) → all_below n p ≡ true → x < n → p x ≡ true
unfolding all_below
all_below_at zero p x h lt = elim lt [ ]
all_below_at (suc n) p x h lt = ground (arith, all_below_at n p x)
