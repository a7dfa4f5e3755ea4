-- ===== src/Lcc/Gridconnect/Hex.antt =====
-- Numbers and bytes in hexadecimal, printed and read.
use train_utils.Common.{
  ℕ, zero, suc, ◌+◌, ◌*◌, ◌/◌, ◌%◌, ◌^◌, ◌≤◌, ◌<◌, ◌≡◌, ◌⊎◌, inl, inr, refl, ap, ap₂, ◌∙◌, arith,
  false, some, List, [], ◌∷◌, ◌++◌, length, take, All, IsBytes, Bool-cases, ◌==◌, ltb, u8, u32,
}
use native.Mathlib.Nat.{pow-suc}
use train_utils.Lcc.Gridconnect.{
  hex_digit, hex_bytes, hex_number, hex_value, read_hex, skip_spaces, skip_prefix, signed_hex,
  strtol16, read_data,
}

-- The characters that are printed for digits.
abbrev pub IsHexDigit : ℕ → Type 0
IsHexDigit c = ((48 ≤ c) × (c ≤ 57)) ⊎ ((65 ≤ c) × (c ≤ 70))

hex_digit-IsHexDigit : (d : ℕ) → d < 16 → IsHexDigit (hex_digit d)
unfolding hex_digit
hex_digit-IsHexDigit d h = elim (Bool-cases (ltb d 10)) [
  | inl e ↦ inl (ground (arith, e), ground (arith, e))
  | inr e ↦ inr (ground (arith, e), ground (arith, e))
]

hex_value-hex_digit : (d : ℕ) → d < 16 → hex_value (hex_digit d) ≡ some d
unfolding hex_digit hex_value
hex_value-hex_digit d h = ground (arith, h)

power : (k : ℕ) → 16 ^ suc k ≡ 16 * 16 ^ k
power k = omega (arith, pow-suc 16 k)

read_hex_nil : (n : ℕ) → read_hex n [] ≡ n
unfolding read_hex
read_hex_nil n = refl

read_hex-hex_digit :
    (acc d : ℕ) (text : List ℕ)
    → d < 16
    → read_hex acc (hex_digit d ∷ text) ≡ read_hex (acc * 16 + d) text
unfolding read_hex
read_hex-hex_digit acc d text h = rw (hex_value-hex_digit d h, read_hex) refl

read_hex-hex_number :
    (k n : ℕ) (text : List ℕ) → n < 16 ^ k → read_hex 0 (hex_number k n text) ≡ read_hex n text
unfolding hex_number
read_hex-hex_number zero n text h = ap (λ m. read_hex m text) (omega arith)
read_hex-hex_number (suc k) n text h = elim (Bool-cases (n / 16 == 0)) [
  | inl e ↦ rw e (
      read_hex-hex_digit 0 (n % 16) text (omega arith)
      ∙ ap (λ m. read_hex m text) {x = 0 * 16 + n % 16} {y = n} (ground (arith, e)))
  | inr e ↦ rw e (
      read_hex-hex_number k (n / 16) (hex_digit (n % 16) ∷ text) (ground (arith, h, power k))
      ∙ read_hex-hex_digit (n / 16) (n % 16) text (omega arith)
      ∙ ap (λ m. read_hex m text) {x = n / 16 * 16 + n % 16} {y = n} (omega arith))
]

hex_number-All :
    (k n : ℕ) (text : List ℕ) → All IsHexDigit text → All IsHexDigit (hex_number k n text)
unfolding hex_number
hex_number-All zero n text h = h
hex_number-All (suc k) n text h =
    let digit = hex_digit-IsHexDigit (n % 16) (omega arith) in
    elim (Bool-cases (n / 16 == 0)) [
      | inl e ↦ rw e (digit, h)
      | inr e ↦ rw e (hex_number-All k (n / 16) (hex_digit (n % 16) ∷ text) (digit, h))
    ]

length-hex_number :
    (k n : ℕ) (text : List ℕ)
    → (length text ≤ length (hex_number k n text))
      × (length (hex_number k n text) ≤ k + length text)
      × (1 ≤ k → 1 ≤ length (hex_number k n text))
unfolding hex_number
length-hex_number zero n text = (omega arith, omega arith, λ h. absurd (omega arith))
length-hex_number (suc k) n text = elim (Bool-cases (n / 16 == 0)) [
  | inl e ↦ rw e (omega arith, omega arith, λ h. omega arith)
  | inr e ↦
      let more = length-hex_number k (n / 16) (hex_digit (n % 16) ∷ text) in
      rw e (omega (arith, more.0), omega (arith, more.1), λ h. omega (arith, more.0))
]

-- What `strtol` passes over is not in printed digits.
plain_number :
    (c : ℕ) (cs : List ℕ)
    → IsHexDigit c
    → All IsHexDigit cs
    → signed_hex (skip_spaces (c ∷ cs)) ≡ u32 (read_hex 0 (c ∷ cs))
unfolding signed_hex skip_spaces skip_prefix
plain_number c [] h k = ground (arith, h)
plain_number c (d ∷ cs) h k = ground (arith, h, k.0)

strtol16-digits :
    (cs : List ℕ) → All IsHexDigit cs → 1 ≤ length cs → strtol16 cs ≡ u32 (read_hex 0 cs)
unfolding strtol16
strtol16-digits [] h k = absurd (omega arith)
strtol16-digits (c ∷ cs) h k = plain_number c cs h.0 h.1

pub number_lem :
    (n : ℕ)
    → n < 2 ^ 32
    → (strtol16 (hex_number 8 n []) ≡ n)
      × (length (hex_number 8 n []) ≤ 8)
      × All IsHexDigit (hex_number 8 n [])
number_lem n h =
    let digits = hex_number-All 8 n [] tt in
    let size = length-hex_number 8 n [] in
    (
      strtol16-digits (hex_number 8 n []) digits (size.2 (omega arith))
          ∙ ap u32 (read_hex-hex_number 8 n [] (omega arith))
          ∙ ap (λ m. u32 m) {x = read_hex n []} {y = n} (read_hex_nil n)
          ∙ omega arith,
      omega (arith, size.1),
      digits,
    )

byte_lem : (b : ℕ) → b < 256 → u8 (strtol16 (hex_digit (b / 16) ∷ hex_digit (b % 16) ∷ [])) ≡ b
byte_lem b h =
    let high = hex_digit-IsHexDigit (b / 16) (omega arith) in
    let low = hex_digit-IsHexDigit (b % 16) (omega arith) in
    ap u8 (
      strtol16-digits (hex_digit (b / 16) ∷ hex_digit (b % 16) ∷ []) (high, (low, tt))
        (omega arith))
    ∙ ap (λ m. u8 (u32 m))
        (read_hex-hex_digit 0 (b / 16) (hex_digit (b % 16) ∷ []) (omega arith)
          ∙ read_hex-hex_digit (0 * 16 + b / 16) (b % 16) [] (omega arith)
          ∙ read_hex_nil ((0 * 16 + b / 16) * 16 + b % 16))
    ∙ omega arith

pub read_data-hex_bytes :
    (k : ℕ) (bs junk : List ℕ)
    → IsBytes bs
    → length bs ≤ k
    → read_data k (hex_bytes bs ++ (59 ∷ junk)) ≡ bs
unfolding read_data hex_bytes
read_data-hex_bytes zero [] junk h k = refl
read_data-hex_bytes zero (b ∷ bs) junk h k = absurd (omega arith)
read_data-hex_bytes (suc n) [] [] h k = refl
read_data-hex_bytes (suc n) [] (j ∷ junk) h k = refl
read_data-hex_bytes (suc n) (b ∷ bs) junk h k =
    let high = hex_digit-IsHexDigit (b / 16) (omega (arith, h.0)) in
    let rest = read_data-hex_bytes n bs junk h.1 (omega arith) in
    let not_end : (hex_digit (b / 16) == 59) ≡ false = ground (arith, high) in
    rw not_end (ap₂ (λ x xs. x ∷ xs) (byte_lem b h.0) rest)

pub take-hex_bytes : (n : ℕ) (bs : List ℕ) → take (2 * n) (hex_bytes bs) ≡ hex_bytes (take n bs)
unfolding hex_bytes
take-hex_bytes zero bs = ap (λ m. take m (hex_bytes bs)) {x = 2 * 0} {y = 0} (omega arith)
take-hex_bytes (suc n) [] =
    ap (λ m. take {A = ℕ} m []) {x = 2 * suc n} {y = suc (suc (2 * n))} (omega arith)
take-hex_bytes (suc n) (b ∷ bs) =
    ap (λ m. take m (hex_bytes (b ∷ bs))) {x = 2 * suc n} {y = suc (suc (2 * n))} (omega arith)
    ∙ ap (λ l. hex_digit (b / 16) ∷ hex_digit (b % 16) ∷ l) (take-hex_bytes n bs)

pub hex_bytes-All : (bs : List ℕ) → IsBytes bs → All IsHexDigit (hex_bytes bs)
unfolding hex_bytes
hex_bytes-All [] h = tt
hex_bytes-All (b ∷ bs) h = (
  hex_digit-IsHexDigit (b / 16) (omega (arith, h.0)),
  (hex_digit-IsHexDigit (b % 16) (omega arith), hex_bytes-All bs h.1),
)

pub length-hex_bytes : (bs : List ℕ) → length (hex_bytes bs) ≡ 2 * length bs
unfolding hex_bytes
length-hex_bytes [] = refl
length-hex_bytes (b ∷ bs) = omega (arith, length-hex_bytes bs)
