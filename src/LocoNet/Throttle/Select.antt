-- ===== src/LocoNet/Throttle/Select.antt =====
-- How a throttle comes to control a locomotive, and the speed that it sends.
use train_utils.Common.{
  ℕ, ◌+◌, ◌/◌, ◌%◌, ◌≤◌, ◌<◌, ◌≡◌, ◌≢◌, refl, ◌∙◌, arith, Bool, true, false, [], ◌∷◌, if◌then◌else◌,
  ◌==◌, bit_and, bit_or, has_bits, shl, shr,
}
use train_utils.Common.Bits.{bit_and_low, sum_bit_or}
use train_utils.LocoNet.Context.{Message}
use train_utils.LocoNet.Throttle.{
  Throttle, state_none, null_move, write, ok, message, select_locomotive, incoming_message,
  slot_read, slot_answer, confirm_steal, set_speed,
}

-- On a speed up to 128, with a locomotive selected, a throttle writes one speed message. Its speed
-- byte is never 1, the emergency stop. Any throttle that takes the message in, whichever slot it
-- controls, holds the speed that the sender holds: the speed asked for, but 0 for 128.
pub set_speed_lem :
    (t r : Throttle) (speed : ℕ)
    → speed ≤ 128
    → t.slot_number ≢ 0xFF
    → (b : ℕ) × (b ≢ 1)
      × (set_speed t speed
          ≡ (ok, record t { speed = speed % 128 }, write (message 0xA0 t.slot_number b) ∷ []))
      × (incoming_message r (message 0xA0 t.slot_number b) ≡ (record r { speed = speed % 128 }, []))
unfolding set_speed incoming_message
set_speed_lem t r speed h s = (
  if speed % 128 == 0 then 0 else speed % 128 + 1,
  ground arith,
  ground (arith, bit_and_low 7 speed),
  ground arith,
)

addr : (n : ℕ) → bit_or (n % 128) (shl (n / 128) 7) ≡ n
addr n = sum_bit_or 7 (n / 128) (n % 128) (omega arith) ∙ omega arith

-- The slot data of a locomotive number: the status bits and the two halves of the number.
abbrev pub slot_data_of : ℕ → ℕ → ℕ → Message
slot_data_of n slot stat = record {
  opcode = 0xE7;
  bytes = 14 ∷ slot ∷ stat ∷ n % 128 ∷ 0 ∷ 0 ∷ 0 ∷ 0 ∷ n / 128 ∷ [];
}

abbrev pub in_use : ℕ → Bool
in_use stat = shr (bit_and stat 0x30) 4 == 3

-- The answer to a null move.
acknowledged :
    (t : Throttle) (a b : ℕ)
    → t.request_state ≡ null_move
    → incoming_message t (message 0xB4 a b) ≡ (record t { request_state = state_none }, [])
unfolding incoming_message
acknowledged t a b h = rw h refl

-- What `select-incoming` says up to the answer of the slot.
select-answered :
    (t : Throttle) (n flags slot stat : ℕ)
    → t.slot_number ≡ 0xFF
    → n ≤ 10239
    → let (st, t1, es) = select_locomotive t n flags in
      let (t2, fs) = incoming_message t1 (slot_data_of n slot stat) in
      (st ≡ ok)
      × (es ≡ write (message 0xBF (n / 128) (n % 128)) ∷ [])
      × (n / 128 < 128)
      × (in_use stat ≡ false
          → (t2.slot_number ≡ slot)
            × (t2.locomotive_number ≡ n)
            × (t2.request_state ≡ null_move)
            × (fs ≡ write (message 0xBA slot slot) ∷ []))
      × (in_use stat ≡ true
          → has_bits flags 2 ≡ true
          → (t2.slot_number ≡ slot)
            × (t2.locomotive_number ≡ t.locomotive_number)
            × (t2.request_state ≡ state_none)
            × (fs ≡ write (message 0xBB slot 0) ∷ []))
unfolding select_locomotive incoming_message slot_read slot_answer confirm_steal
select-answered t n flags slot stat h k =
    let low = bit_and_low 7 n in
    rw (h, low, addr n)
      (ground arith, ground arith, omega arith, λ u. ground (arith, u), λ u f. ground (arith, u, f))

-- A throttle without a slot asks for a locomotive up to 10239 with two data bytes below 128 that
-- make up its number. When the slot of that locomotive is read and is not in use, the throttle
-- takes the slot and writes a null move, and controls the number. When it is in use and the
-- throttle steals, it takes the slot and asks for its data, but its locomotive number stays what
-- it was. In none of these calls, nor when the null move is then acknowledged, is the function
-- `locomotive_controlled` called, also where the client has set it.
pub select-incoming :
    (t : Throttle) (n flags slot stat a b : ℕ)
    → t.slot_number ≡ 0xFF
    → n ≤ 10239
    → let (st, t1, es) = select_locomotive t n flags in
      let (t2, fs) = incoming_message t1 (slot_data_of n slot stat) in
      (st ≡ ok)
      × (es ≡ write (message 0xBF (n / 128) (n % 128)) ∷ [])
      × (n / 128 < 128)
      × (in_use stat ≡ false
          → (t2.slot_number ≡ slot)
            × (t2.locomotive_number ≡ n)
            × (t2.request_state ≡ null_move)
            × (fs ≡ write (message 0xBA slot slot) ∷ [])
            × (incoming_message t2 (message 0xB4 a b)
                ≡ (record t2 { request_state = state_none }, [])))
      × (in_use stat ≡ true
          → has_bits flags 2 ≡ true
          → (t2.slot_number ≡ slot)
            × (t2.locomotive_number ≡ t.locomotive_number)
            × (t2.request_state ≡ state_none)
            × (fs ≡ write (message 0xBB slot 0) ∷ []))
select-incoming t n flags slot stat a b h k =
    let s = select-answered t n flags slot stat h k in
    (s.0, s.1, s.2, λ free. (let r = s.3 free in (r.0, r.1, r.2, r.3, acknowledged _ a b r.2)), s.4)
