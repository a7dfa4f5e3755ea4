-- ===== src/Dcc/Parser/Speed.antt =====
-- Speed packets: what becomes of the five bits of a speed.
use train_utils.Common.{
  ℕ, ◌+◌, ◌*◌, ◌/◌, ◌%◌, ◌≤◌, ◌<◌, ◌^◌, ◌≡◌, ap, ◌∙◌, arith, bit_and, bit_or, [], ◌∷◌, ◌==◌,
  if◌then◌else◌, ◌++◌, ◌&&◌, ◌||◌, ◌⊎◌, ◌!=◌,
}
use train_utils.Common.Bits.{bit_and_low, bit_and_high, bit_or_sum}
use train_utils.Dcc.Parser.{
  ok, Direction, forward, incoming_speed_dir, incoming_estop, PacketParser, raw_speed,
  speed_direction, reverse, parse,
}

mask_1 : (a : ℕ) → bit_and a 0x1 ≡ a % 2
mask_1 a = bit_and_low 1 a

raw_speed_sum : (b : ℕ) → raw_speed b ≡ b % 16 * 2 + b / 16 % 2
unfolding raw_speed
raw_speed_sum b = ground (
  arith,
  bit_and_low 4 b,
  bit_and_high 4 b 1,
  mask_1 (b / 16),
  bit_or_sum 1 (b % 16) 1 (omega arith),
  ap (λ t. bit_or (t * 2) 1) (bit_and_low 4 b),
)

-- The second byte of a speed packet: the direction in bit 5, the speed's lowest bit in bit 4.
abbrev pub speed_byte : Direction → ℕ → ℕ
speed_byte forward v = 96 + v % 2 * 16 + v / 2
speed_byte reverse v = 64 + v % 2 * 16 + v / 2

-- The packets that `p` takes for its own: broadcasts, and those to its short address.
abbrev pub IsFor : PacketParser → ℕ → Type 0
IsFor p a = (a ≡ 0) ⊎ ((1 ≤ a) × (a ≤ 127) × (a ≡ p.short_addr))

speed_mask : (dir : Direction) (v : ℕ) → v < 32 → bit_and (speed_byte dir v) 0xC0 ≡ 0x40
speed_mask forward v h =
    bit_and_high 6 (speed_byte forward v) 3
    ∙ ap (λ t. bit_and t 3 * 64) {x = speed_byte forward v / 2 ^ 6} {y = 1} (omega arith)
speed_mask reverse v h =
    bit_and_high 6 (speed_byte reverse v) 3
    ∙ ap (λ t. bit_and t 3 * 64) {x = speed_byte reverse v / 2 ^ 6} {y = 1} (omega arith)

raw_speed_byte : (dir : Direction) (v : ℕ) → v < 32 → raw_speed (speed_byte dir v) ≡ v
raw_speed_byte forward v h = raw_speed_sum (speed_byte forward v) ∙ omega arith
raw_speed_byte reverse v h = raw_speed_sum (speed_byte reverse v) ∙ omega arith

direction_byte : (dir : Direction) (v : ℕ) → v < 32 → speed_direction (speed_byte dir v) ≡ dir
unfolding speed_direction
direction_byte forward v h =
    ground (arith, bit_and_high 5 (speed_byte forward v) 1, mask_1 (speed_byte forward v / 2 ^ 5))
direction_byte reverse v h =
    ground (arith, bit_and_high 5 (speed_byte reverse v) 1, mask_1 (speed_byte reverse v / 2 ^ 5))

-- A speed packet for `p`, with `v` in its speed bits, has the speed callback called with `v - 3` as
-- a byte, so 253 for the stop `v = 0`, 255 for 2 and 0 for 3, and with its direction; only at
-- `v = 1` it is not called. The emergency stop is called, if it can be, at 1, and at 4 too if the
-- speed callback is set.
pub parse_speed :
    (p : PacketParser) (a : ℕ) (dir : Direction) (v c : ℕ)
    → IsFor p a
    → v < 32
    → parse p (a ∷ speed_byte dir v ∷ c ∷ []) 3 ≡ (
      ok,
      (if p.speed_dir_set && v != 1 then incoming_speed_dir dir ((v + 253) % 256) ∷ [] else [])
          ++ (if p.estop_set && (v == 1 || (p.speed_dir_set && v == 4))
              then incoming_estop ∷ []
              else []),
    )
unfolding parse
parse_speed p a dir v c f h =
    ground (arith, speed_mask dir v h, raw_speed_byte dir v h, direction_byte dir v h)
