-- ===== src/CabBus/Flags.antt =====
-- The macros of CabBusCommunications/Bitset.h on the byte of flags and dirty screens.
use train_utils.Common.{
  ℕ, ◌+◌, ◌<◌, ◌≤◌, ◌≡◌, ◌∙◌, refl, Bool, true, false, not, ◌&&◌, ◌||◌, arith, if◌then◌else◌, ltb,
  ◌==◌, ltb→lt, has_bits, bit_or,
}
use train_utils.Common.Table.{all_below, all_below-lt}
use train_utils.CabBus.Cab.{set_bit, clear_bit, check_bit}

abbrev same : Bool → Bool → Bool
same true b = b
same false b = not b

same→eq : (a b : Bool) → same a b ≡ true → a ≡ b
same→eq a b h = ground arith

-- A test of three numbers that holds on all of them holds on each.
all_three :
    (f : ℕ → ℕ → ℕ → Bool)
    → all_below 8 (λ a. all_below 8 (λ b. all_below 256 (λ d. f a b d))) ≡ true
    → (a b d : ℕ) → a < 8
    → b < 8
    → d < 256
    → f a b d ≡ true
all_three f h a b d ha hb hd =
    all_below-lt 256 (f a b)
      (all_below-lt 8 (λ y. all_below 256 (f a y))
        (all_below-lt 8 (λ x. all_below 8 (λ y. all_below 256 (f x y))) h a ha) b hb)
      d hd

abbrev set_test : ℕ → ℕ → ℕ → Bool
set_test a b d =
    same (check_bit (set_bit d a) b) ((a == b) || check_bit d b) && ltb (set_bit d a) 256

abbrev clear_test : ℕ → ℕ → ℕ → Bool
clear_test a b d =
    same (check_bit (clear_bit d a) b) (not (a == b) && check_bit d b) && ltb (clear_bit d a) 256

set_table : all_below 8 (λ a. all_below 8 (λ b. all_below 256 (λ d. set_test a b d))) ≡ true
unfolding all_below
set_table = refl

clear_table : all_below 8 (λ a. all_below 8 (λ b. all_below 256 (λ d. clear_test a b d))) ≡ true
unfolding all_below
clear_table = refl

both : (x y : Bool) → (x && y) ≡ true → (x ≡ true) × (y ≡ true)
both x y h = ground arith

module _ (d a b : ℕ) (hd : d < 256) (ha : a < 8) (hb : b < 8) where
  pub check_bit-set_bit : check_bit (set_bit d a) b ≡ ((a == b) || check_bit d b)
  check_bit-set_bit = same→eq _ _ ((both _ _ (all_three set_test set_table a b d ha hb hd)).0)

  pub check_bit-clear_bit : check_bit (clear_bit d a) b ≡ (not (a == b) && check_bit d b)
  check_bit-clear_bit = same→eq _ _ ((both _ _ (all_three clear_test clear_table a b d ha hb hd)).0)

pub set_bit-lt : (d a : ℕ) → d < 256 → a < 8 → set_bit d a < 256
set_bit-lt d a hd ha =
    ltb→lt _ _ ((both _ _ (all_three set_test set_table a 0 d ha (omega arith) hd)).1)

pub clear_bit-lt : (d a : ℕ) → d < 256 → a < 8 → clear_bit d a < 256
clear_bit-lt d a hd ha =
    ltb→lt _ _ ((both _ _ (all_three clear_test clear_table a 0 d ha (omega arith) hd)).1)

abbrev low_test : ℕ → Bool
low_test d =
    same (has_bits d 0x0F) (check_bit d 3 || (check_bit d 2 || (check_bit d 1 || check_bit d 0)))

low_table : all_below 256 low_test ≡ true
unfolding all_below
low_table = refl

-- Some screen is dirty when one of the four is.
pub has_low_bits :
    (d : ℕ)
    → d < 256
    → has_bits d 0x0F ≡ (check_bit d 3 || (check_bit d 2 || (check_bit d 1 || check_bit d 0)))
has_low_bits d h = same→eq _ _ (all_below-lt 256 low_test low_table d h)

-- How many quarters are dirty.
abbrev pub dirt : ℕ → ℕ
dirt d =
    (if check_bit d 3 then 1 else 0)
    + (if check_bit d 2 then 1 else 0)
    + (if check_bit d 1 then 1 else 0)
    + (if check_bit d 0 then 1 else 0)

abbrev dirt_test : ℕ → ℕ → Bool
dirt_test a d = not (check_bit d a) || ltb (dirt (clear_bit d a)) (dirt d)

dirt_table : all_below 4 (λ a. all_below 256 (dirt_test a)) ≡ true
unfolding all_below
dirt_table = refl

pub dirt-clear_bit :
    (d a : ℕ) → d < 256 → a < 4 → check_bit d a ≡ true → dirt (clear_bit d a) < dirt d
dirt-clear_bit d a hd ha e =
    let t =
      all_below-lt 256 (dirt_test a)
        (all_below-lt 4 (λ x. all_below 256 (dirt_test x)) dirt_table a ha) d hd in
    ltb→lt _ _ (implied _ _ e t)
  where
    implied : (x y : Bool) → x ≡ true → (not x || y) ≡ true → y ≡ true
    implied x y e t = ground arith

-- Three screens are marked: the flags above them stay.
module _ (d a b c : ℕ) (hd : d < 256) (ha : a < 4) (hb : b < 4) (hc : c < 4) where
  once : set_bit d a < 256
  once = set_bit-lt d a hd (omega arith)

  twice : set_bit (set_bit d a) b < 256
  twice = set_bit-lt (set_bit d a) b once (omega arith)

  pub three_set-lt : set_bit (set_bit (set_bit d a) b) c < 256
  three_set-lt = set_bit-lt (set_bit (set_bit d a) b) c twice (omega arith)

  pub check_bit-three_set :
      (f : ℕ) → 4 ≤ f → f < 8 → check_bit (set_bit (set_bit (set_bit d a) b) c) f ≡ check_bit d f
  check_bit-three_set f low high =
      check_bit-set_bit (set_bit (set_bit d a) b) c f twice (omega arith) high
      ∙ rw
          (
            check_bit-set_bit (set_bit d a) b f once (omega arith) high,
            check_bit-set_bit d a f hd (omega arith) high,
          )
          (ground arith)

all_dirty_table : all_below 256 (λ d. ltb (bit_or d 0x0F) 256) ≡ true
unfolding all_below
all_dirty_table = refl

pub all_dirty-lt : (d : ℕ) → d < 256 → bit_or d 0x0F < 256
all_dirty-lt d h = ltb→lt _ _ (all_below-lt 256 (λ x. ltb (bit_or x 0x0F) 256) all_dirty_table d h)
