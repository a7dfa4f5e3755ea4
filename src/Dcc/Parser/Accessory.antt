-- ===== src/Dcc/Parser/Accessory.antt =====
-- Accessory packets: the address of an output through the three fields that carry it.
use train_utils.Common.{
  ℕ, ◌+◌, ◌-◌, ◌*◌, ◌/◌, ◌%◌, ◌≤◌, ◌<◌, ◌^◌, ◌≡◌, ap, ◌∙◌, arith, bit_and, bit_or, Bool, List, [],
  ◌∷◌, if◌then◌else◌, has_bits, shl, u16, u32, sub32,
}
use train_utils.Common.Bits.{bit_and_low, bit_and_high, bit_or_sum, sum_bit_or}
use train_utils.Dcc.Parser.{
  ok, AccessoryDirection, normal, Event, incoming_accessory, PacketParser, output_addr, parse,
}

-- The packet of an accessory's output as the standard lays it out: the output's number less one is
-- `n`; the board's six low bits stand in the first byte, its three high bits, complemented, and the
-- index of the pair in the second.
abbrev pub board : ℕ → ℕ
board n = n / 4 + 1

abbrev pub first_byte : ℕ → ℕ
first_byte n = 128 + board n % 64

abbrev pub second_byte : ℕ → Bool → Bool → ℕ
second_byte n active closed =
    128
    + (7 - board n / 64) * 16
    + (if active then 8 else 0)
    + n % 4 * 2
    + (if closed then 1 else 0)

mask_3F : (a : ℕ) → bit_and a 0x3F ≡ a % 64
mask_3F a = bit_and_low 6 a

mask_3 : (a : ℕ) → bit_and a 0x3 ≡ a % 4
mask_3 a = bit_and_low 2 a

mask_6 : (a : ℕ) → bit_and a 0x6 ≡ a / 2 % 4 * 2
mask_6 a = bit_and_high 1 a 3 ∙ ap (λ t. t * 2) (bit_and_low 2 (a / 2))

mask_70 : (a : ℕ) → bit_and a 0x70 ≡ a / 16 % 8 * 16
mask_70 a = bit_and_high 4 a 7 ∙ ap (λ t. t * 16) (bit_and_low 3 (a / 16))

mask_1 : (a : ℕ) → bit_and a 0x1 ≡ a % 2
mask_1 a = bit_and_low 1 a

board_bits : (b0 msb : ℕ) → bit_or (bit_and b0 0x3F) (shl msb 6) ≡ b0 % 64 + msb * 64
board_bits b0 msb =
    ap (λ t. bit_or t (msb * 64)) (mask_3F b0)
    ∙ sum_bit_or 6 msb (b0 % 64) (omega arith)
    ∙ omega arith

pair_bits : (y p : ℕ) → p < 4 → bit_or (u32 (shl y 2)) p ≡ y % 2 ^ 30 * 4 + p
pair_bits y p h =
    ap (λ t. bit_or t p) {x = u32 (shl y 2)} {y = y % 2 ^ 30 * 4} (omega arith)
    ∙ bit_or_sum 2 (y % 2 ^ 30) p h

output_addr_sum :
    (b0 b1 : ℕ)
    → output_addr b0 b1
      ≡ u16 (sub32 (b0 % 64 + (0xFFFF - b1 / 16 % 8) % 4 * 64) 1 % 2 ^ 30 * 4 + b1 / 2 % 4 + 1)
unfolding output_addr
output_addr_sum b0 b1 =
    rw (mask_6, mask_70, mask_3, board_bits, pair_bits _ (b1 / 2 % 4 * 2 / 2 ^ 1) (omega arith))
      (omega arith)

output_addr_cases :
    (n : ℕ) (active closed : Bool)
    → (n < 1020 → output_addr (first_byte n) (second_byte n active closed) ≡ n + 1)
      × (1024 ≤ n
          → n < 2044
          → output_addr (first_byte n) (second_byte n active closed) ≡ n + 1 - 1024)
output_addr_cases n active closed =
    (λ h. output_addr_sum _ _ ∙ ground arith, λ h k. output_addr_sum _ _ ∙ ground arith)

abbrev pub reported : PacketParser → ℕ → Bool → List Event
reported p output closed =
    if p.accy_set
    then incoming_accessory output (if closed then normal else AccessoryDirection.reverse) ∷ []
    else []

closed_bit :
    (n : ℕ) (active closed : Bool) → n < 2044 → has_bits (second_byte n active closed) 0x1 ≡ closed
closed_bit n active closed h = ground (arith, mask_1 (second_byte n active closed))

-- The packet that names output `n + 1` of an accessory, whatever its activation bit and its checksum
-- byte, has the accessory callback, if it is set, called with that output and the direction of the
-- packet's last bit, as long as `n` is below 1020. The outputs from 1025 to 2044 are reported as the
-- ones 1024 below them.
pub parse_accessory :
    (p : PacketParser) (n c : ℕ) (active closed : Bool)
    → let bytes = first_byte n ∷ second_byte n active closed ∷ c ∷ [] in
      (n < 1020 → parse p bytes 3 ≡ (ok, reported p (n + 1) closed))
      × (1024 ≤ n → n < 2044 → parse p bytes 3 ≡ (ok, reported p (n + 1 - 1024) closed))
unfolding parse
parse_accessory p n c active closed =
    let split = output_addr_cases n active closed in
    (
      λ h. ground (arith, split.0 h, closed_bit n active closed (omega arith)),
      λ h k. ground (arith, split.1 h k, closed_bit n active closed k),
    )
