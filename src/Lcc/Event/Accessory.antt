-- ===== src/Lcc/Event/Accessory.antt =====
-- Accessory addresses as events, and back.
use train_utils.Common.{
  ℕ, ◌+◌, ◌-◌, ◌*◌, ◌/◌, ◌%◌, ◌^◌, ◌≤◌, ◌<◌, ◌≡◌, refl, ap, ◌∙◌, arith, Bool, true, false, ◌||◌,
  Option, none, some, Bool-cases, inl, inr, if◌then◌else◌, ltb, ◌==◌, bit_and, bit_or, shr, u8,
}
use train_utils.Common.Bits.{bit_and-zero, bit_and_low, bit_and_high, bit_and_split, bit_or_sum}
use train_utils.Lcc.Event.{
  AccessoryAddress, accessory_mask, is_accessory_address, to_accessory_decoder_2040,
  to_event_id_2040,
}

-- An event is made of an accessory's event by its low 16 bits.
event_parts :
    (w : ℕ)
    → w < 2 ^ 16
    → let id = bit_or accessory_mask w in
      (is_accessory_address id ≡ true)
      × (bit_and id 0xFFF ≡ w % 2 ^ 12)
      × (u8 (shr (bit_and id 0xFF0000) 16) ≡ 0xFF)
      × (bit_and id 1 ≡ w % 2)
unfolding is_accessory_address
event_parts w h =
    let sum : bit_or accessory_mask w ≡ accessory_mask + w = bit_or_sum 16 0x0101020000FF w h in
    let masked : bit_and (accessory_mask + w) accessory_mask ≡ accessory_mask =
      bit_and_split 16 0x0101020000FF w 0x0101020000FF 0 h (omega arith)
      ∙ omega (arith, bit_and-zero w) in
    let id = accessory_mask + w in
    rw sum (
      ground (arith, masked),
      bit_and_low 12 id ∙ omega arith,
      omega (arith, bit_and_high 16 id 0xFF, bit_and_low 8 (id / 2 ^ 16)),
      bit_and_low 1 id ∙ omega arith,
    )

abbrev pub decode : Option ℕ → Option AccessoryAddress
decode none = none
decode (some id) = to_accessory_decoder_2040 id

decoded :
    (w n : ℕ) (b : Bool)
    → w < 2 ^ 16
    → (w % 2 ^ 12 + 2 ^ 16 - 8) % 2 ^ 16 / 2 + 1 ≡ n
    → w % 2 ≡ (if b then 1 else 0)
    → to_accessory_decoder_2040 (bit_or accessory_mask w)
      ≡ some (record { dcc_accessory_address = n; active = b })
unfolding to_accessory_decoder_2040
decoded w n b h e k = ground (arith, event_parts w h)

-- The 16 bits that are put into the event.
abbrev low_bits : ℕ → ℕ
low_bits n = if ltb n 2044 then n * 2 + 6 else (n - 1 + 2 ^ 32 - 2044) * 2 % 2 ^ 16

encoded :
    (n : ℕ) (b : Bool)
    → 1 ≤ n
    → n ≤ 2048
    → to_event_id_2040 (record { dcc_accessory_address = n; active = b })
      ≡ some (bit_or accessory_mask (low_bits n + (if b then 1 else 0)))
unfolding to_event_id_2040
encoded n true h k = ground arith
encoded n false h k =
    ground
      (arith, ap (λ w. bit_or accessory_mask w) {x = low_bits n} {y = low_bits n + 0} (omega arith))

-- The address that is read from the event of address `n`.
abbrev pub read_back : ℕ → ℕ
read_back n = if ltb 2044 n then n + 30720 else n

no_event :
    (n : ℕ) (b : Bool)
    → (ltb 2048 n || (n == 0)) ≡ true
    → to_event_id_2040 (record { dcc_accessory_address = n; active = b }) ≡ none
unfolding to_event_id_2040
no_event n b e = rw e refl

read_bits :
    (n : ℕ) (b : Bool)
    → 1 ≤ n
    → n ≤ 2048
    → ((low_bits n + (if b then 1 else 0)) % 2 ^ 12 + 2 ^ 16 - 8) % 2 ^ 16 / 2 + 1 ≡ read_back n
read_bits n b h k = ground arith

-- The address of an accessory from 1 to 2044, with its direction, is read back from the event that is
-- made of it. From 2045 to 2048 an event is made too, but the address read from it is 30720 too high.
-- There is no event for 0 and for the addresses above 2048.
pub to_accessory_decoder_2040-to_event_id_2040 :
    (n : ℕ) (b : Bool)
    → decode (to_event_id_2040 (record { dcc_accessory_address = n; active = b })) ≡ (
        if ltb 2048 n || (n == 0)
        then none
        else some (record { dcc_accessory_address = read_back n; active = b }))
to_accessory_decoder_2040-to_event_id_2040 n b = elim (Bool-cases (ltb 2048 n || (n == 0))) [
  | inl e ↦ rw e (ap decode (no_event n b e))
  | inr e ↦
      let from : 1 ≤ n = ground (arith, e) in
      let to : n ≤ 2048 = ground (arith, e) in
      rw e (
        ap decode (encoded n b from to)
        ∙ decoded (low_bits n + (if b then 1 else 0)) (read_back n) b (ground arith)
            (read_bits n b from to) (ground arith))
]
