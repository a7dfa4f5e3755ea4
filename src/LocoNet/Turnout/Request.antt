-- ===== src/LocoNet/Turnout/Request.antt =====
-- The switch requests that are written to throw or close a turnout, as a receiver reads them.
use train_utils.Common.{
  ℕ, ◌⊎◌, ◌∙◌, ◌+◌, ◌-◌, ◌*◌, ◌/◌, ◌%◌, ◌≤◌, ◌<◌, ◌≡◌, refl, ap, arith, Bool, true, false, ◌&&◌,
  Option, none, some, List, [], ◌∷◌, if◌then◌else◌, ltb, ◌==◌, ◌||◌, has_bits, map, inl, inr,
  Bool-cases, ap₂,
}
use train_utils.Common.Table.{all_below, all_below-lt}
use train_utils.LocoNet.Context.{Message, byte}
use train_utils.LocoNet.Turnout.{switch_num, switch_request, set_turnout}

-- What a receiver reads of a request: the number, from 1, closed, output on.
abbrev pub reading : Message → ℕ × Bool × Bool
reading m = (switch_num m + 1, has_bits (byte m 1) 0x20, has_bits (byte m 1) 0x10)

-- The number that a receiver reads in place of `num`: the bit of weight 128 of num - 1 is left out.
abbrev pub named : ℕ → ℕ
named num = (num - 1) / 256 * 128 + (num - 1) % 128 + 1

abbrev same : Bool → Bool → Bool
same true true = true
same false false = true
same _ _ = false

same_eq : (a b : Bool) → same a b ≡ true → a ≡ b
same_eq a b h = ground arith

agrees : Bool → Bool → ℕ → Bool
unfolding switch_num switch_request
agrees close on n =
    let m = switch_request (n + 1) close on in
    (switch_num m == n / 256 * 128 + n % 128)
    && same (has_bits (byte m 1) 0x20) close
    && same (has_bits (byte m 1) 0x10) on

table : (close on : Bool) → all_below 2048 (agrees close on) ≡ true
unfolding all_below agrees switch_num switch_request
table true true = refl
table true false = refl
table false true = refl
table false false = refl

request_reading :
    (close on : Bool) (n : ℕ)
    → n < 2048
    → reading (switch_request (n + 1) close on) ≡ (n / 256 * 128 + n % 128 + 1, close, on)
unfolding agrees
request_reading close on n h =
    let m = switch_request (n + 1) close on in
    let t = all_below-lt 2048 (agrees close on) (table close on) n h in
    let num : switch_num m ≡ n / 256 * 128 + n % 128 = ground (arith, t) in
    let direction = same_eq (has_bits (byte m 1) 0x20) close (ground (arith, t)) in
    let output = same_eq (has_bits (byte m 1) 0x10) on (ground (arith, t)) in
    λ i. (num i + 1, direction i, output i)

off_too :
    (b : Bool) (m : Message) (r : ℕ × Bool × Bool)
    → reading m ≡ r
    → map reading (if b then m ∷ [] else []) ≡ (if b then r ∷ [] else [])
off_too true m r h = ap (λ x. x ∷ []) h
off_too false m r h = refl

-- The requests of a call with a number from 1 to 2048, as a receiver reads them; or the error.
abbrev pub Requests : ℕ → Bool → Bool → Option (List Message) → Type 0
Requests num close output_on_only none = (num < 1) ⊎ (2048 < num)
Requests num close output_on_only (some ms) =
    (1 ≤ num)
    × (num ≤ 2048)
    × (map reading ms
        ≡ (named num, close, true)
          ∷ (if output_on_only then (named num, close, false) ∷ [] else []))
    × (num ≤ 128 → named num ≡ num)
    × (128 < num → num ≤ 256 → named num ≡ num - 128)

-- Of a number from 1 to 2048, throwing or closing writes a request with the output on. With the flag
-- LOCONET_TURNOUT_FLAG_OUTPUT_ON_ONLY it writes a second one with the output off, and without the
-- flag it does not: the reverse of what the flag's name says. A receiver reads the direction asked
-- for, and as the number `named num`, in which the bit of weight 128 of num - 1 is missing: the number
-- itself up to 128, and 128 less for 129 to 256. Any other number is an error, and nothing is written.
pub set_turnout_lem :
    (num : ℕ) (close output_on_only : Bool)
    → Requests num close output_on_only (set_turnout num close output_on_only)
unfolding set_turnout
set_turnout_lem num close output_on_only = elim (Bool-cases (ltb 2048 num || ltb num 1)) [
  | inl e ↦ rw e (ground (arith, e))
  | inr e ↦
      let h : 1 ≤ num = ground (arith, e) in
      let k : num ≤ 2048 = ground (arith, e) in
      let request : (on : Bool) → reading (switch_request num close on) ≡ (named num, close, on) =
        λ on.
          ap (λ z. reading (switch_request z close on)) {x = num} {y = num - 1 + 1} (omega arith)
          ∙ request_reading close on (num - 1) (omega arith) in
      rw e (
        h,
        k,
        ap₂ (λ x xs. x ∷ xs) (request true) (off_too output_on_only _ _ (request false)),
        λ p. omega arith,
        λ p q. omega arith,
      )
]
