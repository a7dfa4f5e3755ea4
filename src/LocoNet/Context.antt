-- ===== src/LocoNet/Context.antt =====
-- LocoNetCommunications/loconet_buffer.c: the context, its timer and its incoming bytes.
-- A function pointer is a flag that it is not NULL; calling it is an `Event`, and what a client's
-- function does to the context in return is not part of the call. The timer function is taken to be
-- there where the code does not test it: a collision and the end of the back-off. `int`s are 32-bit
-- words.
use train_utils.Common.{
  ℕ, ◌+◌, ◌-◌, ◌%◌, Bool, false, Option, none, some, List, [], ◌∷◌, ◌++◌, if◌then◌else◌, ltb, leb,
  ◌==◌, ◌!=◌, get_or, set, take, drop, replicate, u8, sub32, bit_and,
}

-- `struct loconet_message`: the opcode, and the 16 bytes of the union behind it.
pub record Message : Type 0 where
  pub opcode : ℕ
  pub bytes : List ℕ

abbrev pub byte : Message → ℕ → ℕ
byte m i = get_or m.bytes i 0

pub data State : Type 0 where
  idle rx tx collision cd_backoff cd_backoff_additional wait_master : State

pub data Status : Type 0 where
  ok error_invalid_arg error_invalid_switch_num : Status

pub data Event : Type 0 where
  timer_start write_byte : ℕ → Event
  write_interlock : List ℕ → Event
  incoming_message : Message → Event

pub record Context : Type 0 where
  pub timer_start_set : Bool
  pub write_set : Bool
  pub write_interlock_set : Bool
  pub message_callback_set : Bool
  pub additional_delay : ℕ
  pub current_state : State
  pub ln_buffer_location : ℕ
  pub ln_buffer : List ℕ
  pub ignore_state : ℕ
  pub hours : ℕ
  pub minutes : ℕ
  pub ln_last_transmit : ℕ
  pub got_byte : ℕ
  pub user_data : ℕ

abbrev pub buffer_len : ℕ
buffer_len = 128

zeroed : Context
zeroed = record {
  timer_start_set = false;
  write_set = false;
  write_interlock_set = false;
  message_callback_set = false;
  additional_delay = 0;
  current_state = idle;
  ln_buffer_location = 0;
  ln_buffer = replicate buffer_len 0;
  ignore_state = 0;
  hours = 0;
  minutes = 0;
  ln_last_transmit = 0;
  got_byte = 0;
  user_data = 0;
}

-- The arguments are whether the client's functions are not NULL.
unfoldable pub new_context : Bool → Bool → Context
unfolding zeroed
new_context timer write = record zeroed { timer_start_set = timer; write_set = write }

unfoldable pub new_interlocked : Bool → Context
unfolding zeroed
new_interlocked write = record zeroed { write_interlock_set = write; ignore_state = 1 }

-- `ln_update_current_time`: the hour is lowered after the reduction by 24.
unfoldable pub update_current_time : Context → Message → Context
update_current_time c m =
    let hours = (24 - bit_and (0xFF - byte m 7) 0x7F % 24) % 24 in
    let minutes = (60 - bit_and (0xFF - byte m 5) 0x7F % 60) % 60 in
    if byte m 1 != 123 then c else record c { hours = sub32 hours 1; minutes = minutes }

-- `ln_remove_bytes`
unfoldable pub remove_bytes : Context → ℕ → Context
remove_bytes c n =
    let left = c.ln_buffer_location - n in
    if ltb c.ln_buffer_location n then record c { ln_buffer_location = 0 } else record c {
      ln_buffer = take left (drop n c.ln_buffer) ++ drop left c.ln_buffer;
      ln_buffer_location = left;
    }

-- The timer runs out.
timer_fired_in : State → Context → Context × List Event
timer_fired_in cd_backoff c =
    (record c { current_state = cd_backoff_additional }, timer_start c.additional_delay ∷ [])
timer_fired_in cd_backoff_additional c = (record c { current_state = idle }, [])
timer_fired_in collision c = (record c { current_state = idle }, [])
timer_fired_in rx c = (record c { current_state = idle }, [])
timer_fired_in _ c = (c, [])

unfoldable pub timer_fired : Context → Context × List Event
unfolding timer_fired_in
timer_fired c = timer_fired_in c.current_state c

-- The byte goes to the end of the buffer, which starts again when it is full.
store_byte : Context → ℕ → Context × List Event
store_byte c b =
    let location = u8 (c.ln_buffer_location + 1) in
    (
      record c {
        ln_buffer = set c.ln_buffer c.ln_buffer_location b;
        ln_buffer_location = if leb buffer_len location then 0 else location;
      },
      if c.timer_start_set then timer_start 360 ∷ [] else [],
    )

-- A byte that comes in while a message goes out must be the last one sent.
incoming_byte_in : State → Context → ℕ → Context × List Event
unfolding store_byte
incoming_byte_in idle c b = store_byte (record c { current_state = rx }) b
incoming_byte_in tx c b =
    let e = record c { got_byte = 1 } in
    if b != c.ln_last_transmit
    then (record e { current_state = collision }, timer_start 1000 ∷ [])
    else store_byte e b
incoming_byte_in _ c b = store_byte c b

unfoldable pub incoming_byte : Context → ℕ → Context × List Event
unfolding incoming_byte_in
incoming_byte c b = incoming_byte_in c.current_state c b

unfoldable pub incoming_each : Context → List ℕ → Context × List Event
incoming_each c [] = (c, [])
incoming_each c (b ∷ bs) =
    let (c', e) = incoming_byte c b in let (c'', es) = incoming_each c' bs in (c'', e ++ es)

unfoldable pub incoming_bytes :
    Option Context → Option (List ℕ) → Status × Option Context × List Event
incoming_bytes (some c) (some bytes) = let (c', es) = incoming_each c bytes in (ok, some c', es)
incoming_bytes (some c) none = (error_invalid_arg, some c, [])
incoming_bytes none bytes = (error_invalid_arg, none, [])

-- Setters ignore a context that is NULL.
unfoldable pub set_additional_delay : Option Context → ℕ → Option Context
set_additional_delay none d = none
set_additional_delay (some c) d = some (record c { additional_delay = d })

unfoldable pub set_ignore_state : Option Context → ℕ → Option Context
set_ignore_state none i = none
set_ignore_state (some c) i = some (record c { ignore_state = i })

unfoldable pub set_user_data : Option Context → ℕ → Option Context
set_user_data none u = none
set_user_data (some c) u = some (record c { user_data = u })

unfoldable pub set_message_callback : Option Context → Bool → Option Context
set_message_callback none f = none
set_message_callback (some c) f = some (record c { message_callback_set = f })

-- `loconet_message_length`; `none` is its -1, for a first byte that is no opcode.
unfoldable pub message_length : Message → Option ℕ
message_length m =
    let type = bit_and m.opcode 0xE0 in
    if type == 0x80
    then some 2
    else if type == 0xA0
    then some 4
    else if type == 0xC0
    then some 6
    else if type == 0xE0
    then some (if m.opcode == 0xEF then 14 else if m.opcode == 0xE7 then 14 else byte m 0)
    else none
