-- ===== src/Common/Bits.antt =====
-- Masks and fields as arithmetic. `&` with a mask of low ones is a remainder, `&` with a shifted
-- mask is `&` of the shifted number, and `|` of fields that do not overlap is a sum.
use Prim.Native.Nat.{
  ℕ, zero, suc, ◌+◌, ◌-◌, ◌*◌, ◌/◌, ◌%◌, ◌^◌, ◌≤◌, ◌<◌, min, max, digits, bitwise, bit_and, bit_or,
  bit_xor, differ, bit_and-bitwise, bit_or-bitwise, bit_xor-bitwise,
}
use mathlib.Core.Path.{◌≡◌, refl, ap, ap₂, sym}
use native.Mathlib.Nat.{pow-suc, one-le-pow}
use native.Mathlib.Omega.{arith}

-- One digit at a time.
module _ (z : ℕ → ℕ) (f : ℕ → ℕ → ℕ) where
  more_fuel : (k l a b : ℕ) → a ≤ k → k ≤ l → digits z f k a b ≡ digits z f l a b
  more_fuel zero zero a b p q = refl
  more_fuel zero (suc l) zero b p q = refl
  more_fuel zero (suc l) (suc a) b p q = absurd (omega arith)
  more_fuel (suc k) zero a b p q = absurd (omega arith)
  more_fuel (suc k) (suc l) zero b p q = refl
  more_fuel (suc k) (suc l) (suc a) b p q =
      ap (λ t. t * 2 + f (suc a % 2) (b % 2))
        (more_fuel k l (suc a / 2) (b / 2) (omega arith) (omega arith))

  first_digit :
      (a b : ℕ)
      → bitwise z f (suc a) b ≡ bitwise z f (suc a / 2) (b / 2) * 2 + f (suc a % 2) (b % 2)
  first_digit a b =
      ap (λ t. t * 2 + f (suc a % 2) (b % 2))
        (sym (more_fuel (suc a / 2) a (suc a / 2) (b / 2) (omega arith) (omega arith)))

pub bit_and_digit : (a b : ℕ) → bit_and a b ≡ bit_and (a / 2) (b / 2) * 2 + min (a % 2) (b % 2)
bit_and_digit zero b = omega (arith, bit_and-bitwise 0 b, bit_and-bitwise 0 (b / 2))
bit_and_digit (suc a) b = omega (
  arith,
  bit_and-bitwise (suc a) b,
  bit_and-bitwise (suc a / 2) (b / 2),
  first_digit (λ y. 0) min a b,
)

pub bit_or_digit : (a b : ℕ) → bit_or a b ≡ bit_or (a / 2) (b / 2) * 2 + max (a % 2) (b % 2)
bit_or_digit zero b = omega (arith, bit_or-bitwise 0 b, bit_or-bitwise 0 (b / 2))
bit_or_digit (suc a) b = omega (
  arith,
  bit_or-bitwise (suc a) b,
  bit_or-bitwise (suc a / 2) (b / 2),
  first_digit (λ y. y) max a b,
)

differ_parity : (x y : ℕ) → x < 2 → y < 2 → differ x y ≡ (x + y) % 2
differ_parity zero zero p q = refl
differ_parity zero (suc zero) p q = refl
differ_parity (suc zero) zero p q = refl
differ_parity (suc zero) (suc zero) p q = refl
differ_parity (suc (suc x)) y p q = absurd (omega arith)
differ_parity x (suc (suc y)) p q = absurd (omega arith)

pub bit_xor_digit : (a b : ℕ) → bit_xor a b ≡ bit_xor (a / 2) (b / 2) * 2 + (a % 2 + b % 2) % 2
bit_xor_digit zero b = omega (arith, bit_xor-bitwise 0 b, bit_xor-bitwise 0 (b / 2))
bit_xor_digit (suc a) b = omega (
  arith,
  bit_xor-bitwise (suc a) b,
  bit_xor-bitwise (suc a / 2) (b / 2),
  first_digit (λ y. y) differ a b,
  differ_parity (suc a % 2) (b % 2) (omega arith) (omega arith),
)

-- Both operations act on the digits above and below `k` apart.
shift_half : (k q r : ℕ) → (q * 2 ^ suc k + r) / 2 ≡ q * 2 ^ k + r / 2
shift_half k q r = omega (arith, ap (λ (t : ℕ). q * t) (pow-suc 2 k))

shift_parity : (k q r : ℕ) → (q * 2 ^ suc k + r) % 2 ≡ r % 2
shift_parity k q r = omega (arith, ap (λ (t : ℕ). q * t) (pow-suc 2 k))

times_one : (q : ℕ) → q * 2 ^ 0 + 0 ≡ q
times_one q = omega arith

pub bit_and_split :
    (k q r m s : ℕ)
    → r < 2 ^ k
    → s < 2 ^ k
    → bit_and (q * 2 ^ k + r) (m * 2 ^ k + s) ≡ bit_and q m * 2 ^ k + bit_and r s
bit_and_split zero q zero m zero p t =
    ground (arith, ap₂ bit_and (times_one q) (times_one m), bit_and-bitwise 0 0)
bit_and_split zero q (suc r) m s p t = absurd (omega arith)
bit_and_split zero q zero m (suc s) p t = absurd (omega arith)
bit_and_split (suc k) q r m s p t =
    rw
      (
        bit_and_digit (q * 2 ^ suc k + r) (m * 2 ^ suc k + s),
        shift_half,
        shift_half,
        shift_parity,
        shift_parity,
        bit_and_split k q (r / 2) m (s / 2) (omega (arith, pow-suc 2 k))
            (omega (arith, pow-suc 2 k)),
      )
      (omega (arith, bit_and_digit r s, ap (λ (t : ℕ). bit_and q m * t) (pow-suc 2 k)))

pub bit_or_split :
    (k q r m s : ℕ)
    → r < 2 ^ k
    → s < 2 ^ k
    → bit_or (q * 2 ^ k + r) (m * 2 ^ k + s) ≡ bit_or q m * 2 ^ k + bit_or r s
bit_or_split zero q zero m zero p t =
    ground (arith, ap₂ bit_or (times_one q) (times_one m), bit_or-bitwise 0 0)
bit_or_split zero q (suc r) m s p t = absurd (omega arith)
bit_or_split zero q zero m (suc s) p t = absurd (omega arith)
bit_or_split (suc k) q r m s p t =
    rw
      (
        bit_or_digit (q * 2 ^ suc k + r) (m * 2 ^ suc k + s),
        shift_half,
        shift_half,
        shift_parity,
        shift_parity,
        bit_or_split k q (r / 2) m (s / 2) (omega (arith, pow-suc 2 k))
            (omega (arith, pow-suc 2 k)),
      )
      (omega (arith, bit_or_digit r s, ap (λ (t : ℕ). bit_or q m * t) (pow-suc 2 k)))

bit_and-zero_below : (n a : ℕ) → a ≤ n → bit_and a 0 ≡ 0
bit_and-zero_below zero zero h = bit_and-bitwise 0 0
bit_and-zero_below zero (suc a) h = absurd (omega arith)
bit_and-zero_below (suc n) a h =
    omega (arith, bit_and_digit a 0, bit_and-zero_below n (a / 2) (omega arith))

pub bit_and-zero : (a : ℕ) → bit_and a 0 ≡ 0
bit_and-zero a = bit_and-zero_below a a (omega arith)

bit_or-zero_below : (n a : ℕ) → a ≤ n → bit_or a 0 ≡ a
bit_or-zero_below zero zero h = bit_or-bitwise 0 0
bit_or-zero_below zero (suc a) h = absurd (omega arith)
bit_or-zero_below (suc n) a h =
    omega (arith, bit_or_digit a 0, bit_or-zero_below n (a / 2) (omega arith))

pub bit_or-zero : (a : ℕ) → bit_or a 0 ≡ a
bit_or-zero a = bit_or-zero_below a a (omega arith)

pub zero-bit_or : (a : ℕ) → bit_or 0 a ≡ a
zero-bit_or a = bit_or-bitwise 0 a

pub zero-bit_and : (a : ℕ) → bit_and 0 a ≡ 0
zero-bit_and a = bit_and-bitwise 0 a

bit_and_ones : (k r : ℕ) → r < 2 ^ k → bit_and r (2 ^ k - 1) ≡ r
bit_and_ones zero r h = rw bit_and-zero (omega arith)
bit_and_ones (suc k) r h = omega (
  arith,
  bit_and_digit r (2 ^ suc k - 1),
  pow-suc 2 k,
  one-le-pow k 2,
  ap (bit_and (r / 2)) {x = (2 ^ suc k - 1) / 2} {y = 2 ^ k - 1} (omega (arith, pow-suc 2 k)),
  bit_and_ones k (r / 2) (omega (arith, pow-suc 2 k)),
)

div_mod_pow : (k a : ℕ) → a / 2 ^ k * 2 ^ k + a % 2 ^ k ≡ a
div_mod_pow k a = grind (arith, one-le-pow k 2)

mod_pow-lt : (k a : ℕ) → a % 2 ^ k < 2 ^ k
mod_pow-lt k a = grind (arith, one-le-pow k 2)

-- A mask of `k` low ones is the remainder by `2 ^ k`.
pub bit_and_low : (k a : ℕ) → bit_and a (2 ^ k - 1) ≡ a % 2 ^ k
bit_and_low k a = ground (
  arith,
  ap (λ t. bit_and t (0 * 2 ^ k + (2 ^ k - 1))) (div_mod_pow k a),
  bit_and_split k (a / 2 ^ k) (a % 2 ^ k) 0 (2 ^ k - 1) (mod_pow-lt k a)
      (omega (arith, one-le-pow k 2)),
  bit_and-zero (a / 2 ^ k),
  bit_and_ones k (a % 2 ^ k) (mod_pow-lt k a),
)

-- A shifted mask reads the shifted number.
pub bit_and_high : (k a m : ℕ) → bit_and a (m * 2 ^ k) ≡ bit_and (a / 2 ^ k) m * 2 ^ k
bit_and_high k a m = ground (
  arith,
  ap (λ t. bit_and t (m * 2 ^ k + 0)) (div_mod_pow k a),
  bit_and_split k (a / 2 ^ k) (a % 2 ^ k) m 0 (mod_pow-lt k a) (omega (arith, one-le-pow k 2)),
  bit_and-zero (a % 2 ^ k),
)

-- `|` of a shifted number and of one that fits below it is their sum.
pub bit_or_sum : (k q r : ℕ) → r < 2 ^ k → bit_or (q * 2 ^ k) r ≡ q * 2 ^ k + r
bit_or_sum k q r h =
    ground (
      arith,
      bit_or_split k q 0 0 r (omega (arith, one-le-pow k 2)) h,
      bit_or-zero q,
      zero-bit_or r,
    )

pub sum_bit_or : (k q r : ℕ) → r < 2 ^ k → bit_or r (q * 2 ^ k) ≡ q * 2 ^ k + r
sum_bit_or k q r h =
    ground (
      arith,
      bit_or_split k 0 r q 0 h (omega (arith, one-le-pow k 2)),
      bit_or-zero r,
      zero-bit_or q,
    )
