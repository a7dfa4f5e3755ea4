-- ===== src/Lcc/Frame/Bytes.antt =====
-- Node and event identifiers are read back as they were written.
use train_utils.Common.{
  ℕ, zero, suc, ◌+◌, ◌*◌, ◌/◌, ◌%◌, ◌^◌, ◌≤◌, ◌<◌, ◌≡◌, refl, ap, ap₂, sym, ◌∙◌, arith, List,
  length, take, write_from, take-write_from, bit_or, shl,
}
use native.Mathlib.Nat.{
  mul-le-mul_right, pow-suc, mul-div_left, one-le-pow, mod-lt, div-add-mod, mul-add-mod_self_left,
  mod-eq_of_lt,
}
use train_utils.Common.Bits.{bit_and_low, bit_and_high, bit_or_sum}
use train_utils.Lcc.Frame.{
  CanFrame, byte_at, to_bytes, or_bytes, set_nodeid_in_data, get_node_id_from_data,
  set_eventid_in_data, get_eventid_from_data, uint32_from_data, uint32_to_data,
}

pub length-to_bytes : (n x : ℕ) → length (to_bytes n x) ≡ n
unfolding to_bytes
length-to_bytes zero x = refl
length-to_bytes (suc n) x = ap suc (length-to_bytes n x)

power : (n : ℕ) → 2 ^ (8 * suc n) ≡ 256 * 2 ^ (8 * n)
power n =
    ap (λ k. 2 ^ k) {x = 8 * suc n} {y = suc (suc (suc (suc (suc (suc (suc (suc (8 * n))))))))}
      (omega arith)
    ∙ eight (8 * n)
  where
    eight : (k : ℕ) → 2 ^ (suc (suc (suc (suc (suc (suc (suc (suc k)))))))) ≡ 256 * 2 ^ k
    eight k = omega (
      arith,
      pow-suc 2 k,
      pow-suc 2 (suc k),
      pow-suc 2 (suc (suc k)),
      pow-suc 2 (suc (suc (suc k))),
      pow-suc 2 (suc (suc (suc (suc k)))),
      pow-suc 2 (suc (suc (suc (suc (suc k))))),
      pow-suc 2 (suc (suc (suc (suc (suc (suc k)))))),
      pow-suc 2 (suc (suc (suc (suc (suc (suc (suc k))))))),
    )

byte_at_lem : (x k : ℕ) → byte_at x k ≡ x / 2 ^ k % 256
unfolding byte_at
byte_at_lem x k =
    ap (λ t. t / 2 ^ k) (bit_and_high k x 0xFF ∙ ap (λ t. t * 2 ^ k) (bit_and_low 8 (x / 2 ^ k)))
    ∙ mul-div_left (x / 2 ^ k % 256) (one-le-pow k 2 (omega arith))

-- The remainder by 256 p is a digit above the remainder by p.
mod_join : (p x : ℕ) → 0 < p → x / p % 256 * p + x % p ≡ x % (256 * p)
mod_join p x h =
    let y = x / p / 256 in
    let b = x / p % 256 in
    let fits : b * p + x % p < 256 * p =
      omega (arith, mod-lt x h, mul-le-mul_right {m = b} {n = 255} p (omega arith)) in
    sym (
      ap (λ t. t % (256 * p))
        (omega (arith, div-add-mod x p, ap (λ (t : ℕ). p * t) (div-add-mod (x / p) 256)))
      ∙ mul-add-mod_self_left (256 * p) y (b * p + x % p)
      ∙ mod-eq_of_lt fits)

-- Bytes written and read again behind a number that was read before them.
pub or_bytes-to_bytes :
    (n q x : ℕ) → or_bytes (q * 2 ^ (8 * n)) (to_bytes n x) ≡ q * 2 ^ (8 * n) + x % 2 ^ (8 * n)
unfolding or_bytes to_bytes
or_bytes-to_bytes zero q x = omega arith
or_bytes-to_bytes (suc n) q x =
    let p : ℕ = 2 ^ (8 * n) in
    let b = x / p % 256 in
    let h : 0 < p = one-le-pow (8 * n) 2 (omega arith) in
    let fits : b * p < 256 * p =
      omega (arith, mul-le-mul_right {m = b} {n = 255} p (omega arith)) in
    ap₂ (λ k z. or_bytes (bit_or (q * 2 ^ (8 * suc n)) (shl z (8 * k))) (to_bytes n x))
      (length-to_bytes n x) (byte_at_lem x (8 * n))
    ∙ ap (λ t. or_bytes t (to_bytes n x))
        (bit_or_sum (8 * suc n) q (b * p) (omega (arith, power n, fits))
          ∙ omega (arith, ap (λ (t : ℕ). q * t) (power n)))
    ∙ or_bytes-to_bytes n (q * 256 + b) x
    ∙ omega
        (arith, mod_join p x h, power n, ap (λ (t : ℕ). q * t) (power n), ap (λ t. x % t) (power n))

-- What is written over the front of an array of enough bytes is read back from it.
or_bytes-written :
    (n x : ℕ) (array : List ℕ)
    → n ≤ length array
    → or_bytes 0 (take n (write_from array 0 (to_bytes n x))) ≡ x % 2 ^ (8 * n)
or_bytes-written n x array h =
    ap (or_bytes 0) (
      ap (λ k. take k (write_from array 0 (to_bytes n x))) {x = n} {y = 0 + length (to_bytes n x)}
        (omega (arith, length-to_bytes n x))
      ∙ take-write_from array 0 (to_bytes n x) (omega (arith, length-to_bytes n x)))
    ∙ ap (λ t. or_bytes t (to_bytes n x)) {x = 0} {y = 0 * 2 ^ (8 * n)} (omega arith)
    ∙ or_bytes-to_bytes n 0 x
    ∙ omega arith

-- A frame with 8 bytes of data gives back the node identifier that was set in it, as 48 bits, and
-- the event identifier, as 64 bits; an array of 4 bytes or more gives back the 32-bit number written
-- to it.
pub identifiers_lem :
    (f : CanFrame) (array : List ℕ) (x : ℕ)
    → length f.bytes ≡ 8
    → 4 ≤ length array
    → (get_node_id_from_data (set_nodeid_in_data f x) ≡ x % 2 ^ 48)
      × (get_eventid_from_data (set_eventid_in_data f x) ≡ x % 2 ^ 64)
      × (uint32_from_data (uint32_to_data array x) ≡ x % 2 ^ 32)
unfolding get_node_id_from_data set_nodeid_in_data get_eventid_from_data set_eventid_in_data
    uint32_from_data uint32_to_data
identifiers_lem f array x h k = (
  or_bytes-written 6 x f.bytes (omega (arith, h)),
  or_bytes-written 8 x f.bytes (omega (arith, h)),
  or_bytes-written 4 x array k,
)
