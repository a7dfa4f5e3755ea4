-- ===== src/Common/Xor.antt =====
-- Laws of exclusive or, for the checksums.
use Prim.Native.Nat.{ℕ, zero, suc, ◌+◌, ◌-◌, ◌/◌, ◌%◌, ◌^◌, ◌≤◌, ◌<◌, bit_xor, bit_xor-bitwise}
use mathlib.Core.Path.{◌≡◌, refl, ◌∙◌, sym, ap}
use mathlib.Core.List.{List, [], ◌∷◌, ◌++◌}
use native.Mathlib.Nat.{pow-suc, one-le-pow}
use native.Mathlib.Omega.{arith}
use train_utils.Common.Bits.{bit_xor_digit}

comm_below : (n a b : ℕ) → a ≤ n → b ≤ n → bit_xor a b ≡ bit_xor b a
comm_below zero zero zero p q = refl
comm_below zero (suc a) b p q = absurd (omega arith)
comm_below zero zero (suc b) p q = absurd (omega arith)
comm_below (suc n) a b p q = omega (
  arith,
  bit_xor_digit a b,
  bit_xor_digit b a,
  comm_below n (a / 2) (b / 2) (omega arith) (omega arith),
)

pub bit_xor_comm : (a b : ℕ) → bit_xor a b ≡ bit_xor b a
bit_xor_comm a b = comm_below (a + b) a b (omega arith) (omega arith)

pub zero-bit_xor : (a : ℕ) → bit_xor 0 a ≡ a
zero-bit_xor a = bit_xor-bitwise 0 a

pub bit_xor-zero : (a : ℕ) → bit_xor a 0 ≡ a
bit_xor-zero a = bit_xor_comm a 0 ∙ zero-bit_xor a

bit_xor_half : (a b : ℕ) → bit_xor a b / 2 ≡ bit_xor (a / 2) (b / 2)
bit_xor_half a b = omega (arith, bit_xor_digit a b)

bit_xor_parity : (a b : ℕ) → bit_xor a b % 2 ≡ (a % 2 + b % 2) % 2
bit_xor_parity a b = omega (arith, bit_xor_digit a b)

assoc_below :
    (n a b c : ℕ) → a ≤ n → b ≤ n → c ≤ n → bit_xor (bit_xor a b) c ≡ bit_xor a (bit_xor b c)
assoc_below zero zero b c p q r = rw (zero-bit_xor, zero-bit_xor)
assoc_below zero (suc a) b c p q r = absurd (omega arith)
assoc_below (suc n) a b c p q r =
    rw
      (
        bit_xor_digit (bit_xor a b) c,
        bit_xor_digit a (bit_xor b c),
        bit_xor_half,
        bit_xor_half,
        bit_xor_parity,
        bit_xor_parity,
        assoc_below n (a / 2) (b / 2) (c / 2) (omega arith) (omega arith) (omega arith),
      )
      (omega arith)

pub bit_xor_assoc : (a b c : ℕ) → bit_xor (bit_xor a b) c ≡ bit_xor a (bit_xor b c)
bit_xor_assoc a b c = assoc_below (a + b + c) a b c (omega arith) (omega arith) (omega arith)

self_below : (n a : ℕ) → a ≤ n → bit_xor a a ≡ 0
self_below zero zero h = refl
self_below zero (suc a) h = absurd (omega arith)
self_below (suc n) a h = omega (arith, bit_xor_digit a a, self_below n (a / 2) (omega arith))

pub bit_xor_self : (a : ℕ) → bit_xor a a ≡ 0
bit_xor_self a = self_below a a (omega arith)

-- Equal is having no digit in which they differ.
pub eq_of_bit_xor : (a b : ℕ) → bit_xor a b ≡ 0 → a ≡ b
eq_of_bit_xor a b h =
    sym (bit_xor-zero a)
    ∙ ap (bit_xor a) (sym (bit_xor_self b))
    ∙ sym (bit_xor_assoc a b b)
    ∙ ap (λ t. bit_xor t b) h
    ∙ zero-bit_xor b

pub bit_xor-lt : (k a b : ℕ) → a < 2 ^ k → b < 2 ^ k → bit_xor a b < 2 ^ k
bit_xor-lt zero zero zero p q = omega (arith, zero-bit_xor 0)
bit_xor-lt zero (suc a) b p q = absurd (omega arith)
bit_xor-lt zero zero (suc b) p q = absurd (omega arith)
bit_xor-lt (suc k) a b p q = omega (
  arith,
  bit_xor_digit a b,
  pow-suc 2 k,
  bit_xor-lt k (a / 2) (b / 2) (omega (arith, pow-suc 2 k)) (omega (arith, pow-suc 2 k)),
)

-- A common part cancels.
pub bit_xor_cancel : (a b c : ℕ) → bit_xor (bit_xor c a) (bit_xor c b) ≡ bit_xor a b
bit_xor_cancel a b c =
    ap (λ t. bit_xor t (bit_xor c b)) (bit_xor_comm c a)
    ∙ bit_xor_assoc a c (bit_xor c b)
    ∙ ap (bit_xor a)
        (sym (bit_xor_assoc c c b) ∙ ap (λ t. bit_xor t b) (bit_xor_self c) ∙ zero-bit_xor b)

-- A running exclusive or.
unfoldable pub xor_bytes : ℕ → List ℕ → ℕ
xor_bytes acc [] = acc
xor_bytes acc (b ∷ bs) = xor_bytes (bit_xor acc b) bs

pub xor_bytes-acc : (acc : ℕ) (bs : List ℕ) → xor_bytes acc bs ≡ bit_xor acc (xor_bytes 0 bs)
unfolding xor_bytes
xor_bytes-acc acc [] = sym (bit_xor-zero acc)
xor_bytes-acc acc (b ∷ bs) =
    xor_bytes-acc (bit_xor acc b) bs
    ∙ bit_xor_assoc acc b (xor_bytes 0 bs)
    ∙ ap (bit_xor acc) (
        sym
          (xor_bytes-acc (bit_xor 0 b) bs ∙ ap (λ t. bit_xor t (xor_bytes 0 bs)) (zero-bit_xor b)))

pub xor_bytes-cons : (b : ℕ) (bs : List ℕ) → xor_bytes 0 (b ∷ bs) ≡ bit_xor b (xor_bytes 0 bs)
unfolding xor_bytes
xor_bytes-cons b bs =
    xor_bytes-acc (bit_xor 0 b) bs ∙ ap (λ t. bit_xor t (xor_bytes 0 bs)) (zero-bit_xor b)

pub xor_bytes-append_last :
    (acc : ℕ) (bs : List ℕ) (c : ℕ) → xor_bytes acc (bs ++ (c ∷ [])) ≡ bit_xor (xor_bytes acc bs) c
unfolding xor_bytes
xor_bytes-append_last acc [] c = refl
xor_bytes-append_last acc (b ∷ bs) c = xor_bytes-append_last (bit_xor acc b) bs c

-- Exclusive or with all ones is the complement.
pub bit_xor-ones : (k n : ℕ) → n < 2 ^ k → bit_xor (2 ^ k - 1) n ≡ 2 ^ k - 1 - n
bit_xor-ones zero zero h = refl
bit_xor-ones zero (suc n) h = absurd (omega arith)
bit_xor-ones (suc k) n h = ground (
  arith,
  bit_xor_digit (2 ^ suc k - 1) n,
  pow-suc 2 k,
  one-le-pow k 2,
  ap (λ t. bit_xor t (n / 2)) {x = (2 ^ suc k - 1) / 2} {y = 2 ^ k - 1}
      (omega (arith, pow-suc 2 k)),
  bit_xor-ones k (n / 2) (omega (arith, pow-suc 2 k)),
)
