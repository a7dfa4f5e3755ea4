-- ===== src/LocoNet/Process.antt =====
-- `loconet_context_process` of LocoNetCommunications/loconet_buffer.c, one round of its loop at a
-- time. `checksum` and `message` are variables of the whole call: a round finds in them what the
-- round before it left, and `message` starts as whatever was on the stack.
pub mod Termination
pub mod Total
pub mod Messages
use train_utils.Common.{
  ℕ, zero, suc, ◌+◌, ◌-◌, Bool, true, false, Option, none, some, List, [], ◌∷◌, ◌++◌, if◌then◌else◌,
  ltb, ◌==◌, ◌!=◌, ◌||◌, get_or, set, take, drop, write_from, bit_and, bit_xor,
}
use train_utils.Common.Xor.{xor_bytes}
use train_utils.LocoNet.Context.{
  Message, byte, Status, ok, error_invalid_arg, Event, incoming_message, Context, remove_bytes,
  update_current_time,
}

pub record Loop : Type 0 where
  pub ctx : Context
  pub message : Message
  pub checksum : ℕ

-- How a round ends: the function returns, the loop goes on, or bytes are written or read past the
-- end of `message`.
pub data Round : Type 0 where
  returns : Loop → Round
  continues : Loop → List Event → Round
  overflows : Round

abbrev pub at : Context → ℕ → ℕ
at c i = get_or c.ln_buffer i 0

abbrev pub slice : Context → ℕ → ℕ → List ℕ
slice c i n = take n (drop i c.ln_buffer)

abbrev pub deliver : Context → Message → List Event
deliver c m = if c.message_callback_set then incoming_message m ∷ [] else []

-- The message is good: it leaves the buffer and is handed on. Or its first byte is given up.
abbrev pub accept : Loop → ℕ → Round
accept l n = continues (record l { ctx = remove_bytes l.ctx n }) (deliver l.ctx l.message)

abbrev pub resync : Loop → Round
resync l = continues (record l { ctx = remove_bytes l.ctx 1 }) []

unfoldable pub two_bytes : Loop → Round
two_bytes l =
    let m : Message = record { opcode = at l.ctx 0; bytes = set l.message.bytes 0 (at l.ctx 1) } in
    let l' = record l { message = m; checksum = bit_xor l.checksum m.opcode } in
    if ltb l.ctx.ln_buffer_location 2
    then returns l
    else if l'.checksum != byte m 0
    then resync l'
    else accept l' 2

-- `memcpy( &message, ctx->lnBuffer, n )`
abbrev pub copied : Loop → ℕ → Message
copied l n = record {
  opcode = at l.ctx 0;
  bytes = write_from l.message.bytes 0 (slice l.ctx 1 (n - 1));
}

unfoldable pub four_bytes : Loop → Round
four_bytes l =
    let m = copied l 4 in
    let sum = xor_bytes (bit_xor l.checksum m.opcode) (take 2 m.bytes) in
    let l' = record l { message = m; checksum = sum } in
    if ltb l.ctx.ln_buffer_location 4
    then returns l
    else if l'.checksum != byte m 2
    then resync l'
    else accept l' 4

-- The code sums six data bytes and compares the seventh, though five come with the message.
unfoldable pub six_bytes : Loop → Round
six_bytes l =
    let m = copied l 6 in
    let sum = xor_bytes (bit_xor l.checksum m.opcode) (take 6 m.bytes) in
    let l' = record l { message = m; checksum = sum } in
    if ltb l.ctx.ln_buffer_location 6
    then returns l
    else if l'.checksum != byte m 6
    then resync l'
    else accept l' 6

-- Opcodes 0xEF and 0xE7: 14 bytes, with a checksum of their own.
unfoldable pub slot_data : Loop → Round
slot_data l =
    let m : Message = record {
      opcode = l.message.opcode;
      bytes = write_from l.message.bytes 1 (slice l.ctx 2 12);
    } in
    let l' = record l { message = m } in
    let sum = xor_bytes (bit_xor 0xFF m.opcode) (take 12 m.bytes) in
    let removed = remove_bytes l.ctx 14 in
    let timed =
      if m.opcode == 0xE7
      then (if byte m 1 == 123 then update_current_time removed m else removed)
      else removed in
    if ltb l.ctx.ln_buffer_location 12
    then returns l
    else if sum != byte m 12
    then resync l'
    else continues (record l' { ctx = timed }) (deliver l.ctx m)

-- Any other message of variable length: `numBytes` is its second byte.
unfoldable pub counted : Loop → Round
counted l =
    let n = at l.ctx 1 in
    let m : Message = record {
      opcode = l.message.opcode;
      bytes = write_from l.message.bytes 1 (slice l.ctx 2 n);
    } in
    let l' = record l { message = m } in
    let sum = xor_bytes (bit_xor 0xFF m.opcode) (take n m.bytes) in
    if ltb l.ctx.ln_buffer_location n
    then returns l
    else if ltb 15 n
    then overflows
    else if sum != byte m n
    then resync l'
    else accept l' n

unfoldable pub variable_bytes : Loop → Round
variable_bytes l =
    let m : Message = record { opcode = at l.ctx 0; bytes = set l.message.bytes 0 (at l.ctx 1) } in
    let l' = record l { message = m } in
    if ltb l.ctx.ln_buffer_location 2
    then returns l
    else if m.opcode == 0xEF
    then slot_data l'
    else if m.opcode == 0xE7
    then slot_data l'
    else counted l'

abbrev pub is_opcode : ℕ → Bool
is_opcode b =
    bit_and b 0xE0 == 0xE0
    || bit_and b 0xE0 == 0xC0
    || bit_and b 0xE0 == 0xA0
    || bit_and b 0xE0 == 0x80

-- The inner loop: bytes go until the first is an opcode or the buffer is empty. It runs at most
-- once for each byte.
unfoldable pub discard : ℕ → Context → Context
discard zero c = c
discard (suc n) c =
    let c' = remove_bytes c 1 in
    let rest = discard n c' in
    if is_opcode (at c 0) then c else if c'.ln_buffer_location == 0 then c' else rest

unfoldable pub round : Loop → Round
round l =
    let type = bit_and (at l.ctx 0) 0xE0 in
    if type == 0x80
    then two_bytes l
    else if type == 0xA0
    then four_bytes l
    else if type == 0xC0
    then six_bytes l
    else if type == 0xE0
    then variable_bytes l
    else continues (record l { ctx = discard l.ctx.ln_buffer_location l.ctx }) []

-- What a call of the function comes to. `running` is a loop that has used its fuel up.
pub data Outcome : Type 0 where
  returned : Context → List Event → Outcome
  overflowed : List Event → Outcome
  running : List Event → Outcome
  invalid_arg : Outcome

unfoldable pub emit : List Event → Outcome → Outcome
emit es (returned c fs) = returned c (es ++ fs)
emit es (overflowed fs) = overflowed (es ++ fs)
emit es (running fs) = running (es ++ fs)
emit es invalid_arg = invalid_arg

unfoldable pub after_round : (Loop → Outcome) → Round → Outcome
unfolding emit
after_round rest (returns l) = returned l.ctx []
after_round rest (continues l es) = emit es (rest l)
after_round rest overflows = overflowed []

unfoldable pub process_loop : ℕ → Loop → Outcome
process_loop zero l = running []
process_loop (suc fuel) l =
    let next = after_round (process_loop fuel) (round l) in
    if ltb 2 l.ctx.ln_buffer_location then next else returned l.ctx []

unfoldable pub process : ℕ → Message → Option Context → Outcome
process fuel stack none = invalid_arg
process fuel stack (some c) =
    let next = process_loop fuel (record { ctx = c; message = stack; checksum = 0xFF }) in
    if ltb c.ln_buffer_location 2 then returned c [] else next
