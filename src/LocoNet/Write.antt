-- ===== src/LocoNet/Write.antt =====
-- `loconet_context_write_message` of LocoNetCommunications/loconet_buffer.c.
-- Two loops of the code wait for an interrupt. What the interrupts make of the context until such a
-- loop ends is a parameter, `none` where it never does: `wait_idle` for the state, `wait_byte` for
-- the byte just written to come back.
pub mod Wire
use train_utils.Common.{
  ℕ, Bool, Option, none, some, List, [], ◌∷◌, ◌++◌, if◌then◌else◌, ltb, not, ◌==◌, take, bit_and,
  bit_xor,
}
use train_utils.LocoNet.Context.{
  Message, byte, State, idle, tx, cd_backoff, Event, timer_start, write_byte, write_interlock,
  Context, message_length,
}

-- The function returns 1, or waits for ever, or calls a write function that is NULL, or writes past
-- its array of 16 bytes.
pub data Written : Type 0 where
  returned : Context → List Event → Written
  waits : List Event → Written
  null_call overflows : Written

abbrev pub is_idle : State → Bool
is_idle idle = Bool.true
is_idle _ = Bool.false

abbrev pub prepend : List Event → Written → Written
prepend es (returned c fs) = returned c (es ++ fs)
prepend es (waits fs) = waits (es ++ fs)
prepend es null_call = null_call
prepend es overflows = overflows

-- The end of the function: the timer of the network access starts, if there is one.
unfoldable pub back_off : Context → List Event → Written
back_off c es =
    if c.timer_start_set
    then returned (record c { current_state = cd_backoff }) (es ++ (timer_start 1200 ∷ []))
    else returned c es

abbrev pub sending : Context → ℕ → Context
sending c b = record c { got_byte = 0; ln_last_transmit = b }

module _ (wait_idle wait_byte : Context → Option Context) where
  write_two : Context → Message → Written
  unfolding back_off
  write_two c m =
      let sum = bit_xor 0xFF m.opcode in
      if c.write_interlock_set
      then back_off (record c { current_state = idle }) (write_interlock (m.opcode ∷ sum ∷ []) ∷ [])
      else if not c.write_set
      then null_call
      else elim (wait_byte (sending c m.opcode)) [
        | none ↦ waits (write_byte m.opcode ∷ [])
        | some c1 ↦ elim (wait_byte (sending c1 sum)) [
          | none ↦ waits (write_byte m.opcode ∷ write_byte sum ∷ [])
          | some c2 ↦ back_off c2 (write_byte m.opcode ∷ write_byte sum ∷ [])
        ]
      ]

  write_four : Context → Message → Written
  unfolding back_off
  write_four c m =
      let sum = bit_xor (bit_xor (bit_xor 0xFF m.opcode) (byte m 0)) (byte m 1) in
      if c.write_interlock_set
      then back_off (record c { current_state = idle })
          (write_interlock (m.opcode ∷ byte m 0 ∷ byte m 1 ∷ sum ∷ []) ∷ [])
      else if not c.write_set
      then null_call
      else back_off (record c { ln_last_transmit = sum })
          (write_byte m.opcode
            ∷ write_byte (byte m 0)
            ∷ write_byte (byte m 1)
            ∷ write_byte sum
            ∷ [])

  -- The sum of a longer message is taken, and not sent.
  write_variable : Context → Message → ℕ → Written
  unfolding back_off
  write_variable c m len =
      if ltb 15 len
      then overflows
      else if c.write_interlock_set
      then back_off (record c { current_state = idle })
          (write_interlock (take len (m.opcode ∷ take len m.bytes)) ∷ [])
      else back_off c []

  write_now : Context → Message → Written
  unfolding write_two write_four write_variable back_off
  write_now c m =
      let type = bit_and m.opcode 0xE0 in
      if type == 0x80
      then write_two c m
      else if type == 0xA0
      then write_four c m
      else if type == 0xE0
      then elim (message_length m) [ none ↦ back_off c [] | some len ↦ write_variable c m len ]
      else back_off c []

  unfoldable pub write_message : Context → Message → Written
  unfolding write_now
  write_message c m =
      if c.ignore_state == 0
      then elim (if is_idle c.current_state then some c else wait_idle c) [
        | none ↦ waits []
        | some c1 ↦ write_now (record c1 { current_state = tx }) m
      ]
      else write_now (record c { current_state = tx }) m
