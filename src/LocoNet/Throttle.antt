-- ===== src/LocoNet/Throttle.antt =====
-- LocoNetCommunications/loconet_throttle.c: the control of one locomotive through its slot.
-- A message is handed to `loconet_context_write_message`; here it is an event. The two data bytes
-- that the functions fill in are all that it has: the rest of the variable is not sent.
pub mod Select
use train_utils.Common.{
  ℕ, ◌+◌, ◌-◌, ◌^◌, Bool, true, false, not, ◌&&◌, ◌||◌, Option, none, some, List, [], ◌∷◌,
  if◌then◌else◌, ltb, ◌==◌, bit_and, bit_or, has_bits, shl, shr, u8, u16, u32,
}
use train_utils.LocoNet.Context.{Message, byte}

pub data RequestState : Type 0 where
  state_none request steal null_move ack set_common : RequestState

-- The calls of the client's functions. No operation has `locomotive_controlled`: the code has a setter
-- for that function, and never calls it.
pub data Event : Type 0 where
  write : Message → Event
  prompt_steal locomotive_controlled : Event

pub data Status : Type 0 where
  ok error_invalid_arg error_no_loco_selected error_loco_already_selected error_invalid_loco_number
        undefined :
      Status

pub record Throttle : Type 0 where
  pub prompt_steal_set : Bool
  pub locomotive_controlled_set : Bool
  pub user_data : ℕ
  pub locomotive_number : ℕ
  pub request_state : RequestState
  pub request_loco_number : ℕ
  pub request_slot_number : ℕ
  pub speed : ℕ
  pub slot_number : ℕ
  pub direction : ℕ
  pub functions : ℕ
  pub select_flags : ℕ

unfoldable pub new_throttle : Throttle
new_throttle = record {
  prompt_steal_set = false;
  locomotive_controlled_set = false;
  user_data = 0;
  locomotive_number = 0;
  request_state = state_none;
  request_loco_number = 0;
  request_slot_number = 0;
  speed = 0;
  slot_number = 0xFF;
  direction = 0;
  functions = 0;
  select_flags = 0;
}

abbrev pub is_state : RequestState → RequestState → Bool
is_state state_none state_none = true
is_state request request = true
is_state steal steal = true
is_state null_move null_move = true
is_state ack ack = true
is_state set_common set_common = true
is_state _ _ = false

abbrev pub message : ℕ → ℕ → ℕ → Message
message op a b = record { opcode = op; bytes = a ∷ b ∷ [] }

abbrev pub bit_if : Bool → ℕ → ℕ → ℕ
bit_if test b x = if test then bit_or x b else x

unfoldable pub dir_funcs : Throttle → ℕ
dir_funcs t = bit_if (has_bits t.functions 16) 8 (
    bit_if (has_bits t.functions 8) 4 (
      bit_if (has_bits t.functions 4) 2 (
        bit_if (has_bits t.functions 2) 1
          (bit_if (has_bits t.functions 1) 16 (if t.direction == 0 then 0 else 32)))))

unfoldable pub update_dirf : Throttle → List Event
update_dirf t = write (message 0xA1 t.slot_number (dir_funcs t)) ∷ []

unfoldable pub confirm_steal : Throttle → Throttle × List Event
confirm_steal t =
    if is_state t.request_state steal
    then (
      record t { slot_number = t.request_slot_number; request_state = state_none },
      write (message 0xBB t.request_slot_number 0) ∷ [],
    )
    else (record t { request_state = state_none }, [])

unfoldable pub abort_selection : Throttle → Throttle
abort_selection t = record t { request_state = state_none }

abbrev pub auto_steal : Throttle → Bool
auto_steal t = has_bits t.select_flags 2

-- A slot in use is stolen or the client asked; any other slot is claimed with a null move.
unfoldable pub slot_answer : Throttle → Message → Throttle × List Event
slot_answer t m =
    let asked = record t { request_state = steal; request_slot_number = byte m 1 } in
    if shr (bit_and (byte m 2) 0x30) 4 == 3
    then if not (auto_steal t) && t.prompt_steal_set
      then (asked, prompt_steal ∷ [])
      else if auto_steal t
      then confirm_steal asked
      else (asked, [])
    else (
      record t { request_state = null_move; slot_number = byte m 1 },
      write (message 0xBA (byte m 1) (byte m 1)) ∷ [],
    )

unfoldable pub slot_read : Throttle → Message → Throttle × List Event
slot_read t m =
    let addr = bit_or (byte m 3) (shl (byte m 8) 7) in
    let (t1, es) =
      if is_state t.request_state request && (t.request_loco_number == addr)
      then slot_answer t m
      else (t, []) in
    (
      if is_state t1.request_state null_move && (t1.request_loco_number == addr)
          then record t1 { locomotive_number = t1.request_loco_number }
          else t1,
      es,
    )

unfoldable pub incoming_message : Throttle → Message → Throttle × List Event
incoming_message t m =
    if m.opcode == 0xE7
    then slot_read t m
    else if m.opcode == 0xB4
    then (
      if is_state t.request_state null_move then record t { request_state = state_none } else t,
      [],
    )
    else if m.opcode == 0xA0
    then (record t { speed = u8 (byte m 1 - 1) }, [])
    else if m.opcode == 0xB5
    then if (t.slot_number == byte m 0) && is_state t.request_state set_common
      then (
        record t { slot_number = 255; request_state = state_none },
        write (message 0xBA t.slot_number 0) ∷ [],
      )
      else (t, [])
    else (t, [])

abbrev pub selected : Throttle → Bool
selected t = not (t.slot_number == 0xFF)

-- A speed below 0 is an argument that `ℕ` does not have.
unfoldable pub set_speed : Throttle → ℕ → Status × Throttle × List Event
set_speed t speed =
    let low = bit_and speed 0x7F in
    let sent : ℕ = if u8 (low + 1) == 1 then 0 else u8 (low + 1) in
    if ltb 128 speed
    then (error_invalid_arg, t, [])
    else if not (selected t)
    then (error_no_loco_selected, t, [])
    else (ok, record t { speed = low }, write (message 0xA0 t.slot_number sent) ∷ [])

unfoldable pub estop : Throttle → Status × Throttle × List Event
estop t =
    if not (selected t)
    then (error_no_loco_selected, t, [])
    else (ok, record t { speed = 1 }, write (message 0xA0 t.slot_number 1) ∷ [])

-- Function 32 passes the test of the arguments, and shifts a 32-bit word by 32.
unfoldable pub set_function : Throttle → ℕ → Bool → Status × Throttle × List Event
set_function t f on =
    let b = u32 (shl 1 f) in
    let t' = record t {
      functions = if on then bit_or t.functions b else bit_and t.functions (2 ^ 32 - 1 - b);
    } in
    if ltb 32 f
    then (error_invalid_arg, t, [])
    else if f == 32
    then (undefined, t, [])
    else (ok, t', if ltb 4 f then [] else update_dirf t')

-- `none` for the arguments that are errors, and for function 32.
unfoldable pub get_function_state : Throttle → ℕ → Option Bool
get_function_state t f = if ltb 31 f then none else some (has_bits t.functions (u32 (shl 1 f)))

unfoldable pub select_locomotive : Throttle → ℕ → ℕ → Status × Throttle × List Event
select_locomotive t n flags =
    if selected t
    then (error_loco_already_selected, t, [])
    else if ltb 10239 n
    then (error_invalid_loco_number, t, [])
    else (
      ok,
      record t { request_state = request; request_loco_number = u16 n; select_flags = flags },
      write (message 0xBF (u8 (shr (n - bit_and n 0x7F) 7)) (bit_and n 0x7F)) ∷ [],
    )

unfoldable pub slot_update : Throttle → Status × List Event
slot_update t =
    if not (selected t)
    then (error_no_loco_selected, [])
    else (ok, write (message 0xA0 t.slot_number t.speed) ∷ [])

unfoldable pub dispatch : Throttle → Status × Throttle × List Event
dispatch t = if not (selected t) then (error_no_loco_selected, t, []) else (
  ok,
  record t { request_state = set_common },
  write (message 0xB5 t.slot_number (bit_or (shl 1 4) 7)) ∷ [],
)

unfoldable pub set_direction : Throttle → ℕ → Status × Throttle × List Event
set_direction t d =
    let t' = record t { direction = d } in
    if (d == 1) || (d == 0) then (ok, t', update_dirf t') else (error_invalid_arg, t, [])

-- The setters of a throttle that is not NULL.
unfoldable pub set_prompt_steal : Throttle → Bool → Throttle
set_prompt_steal t f = record t { prompt_steal_set = f }

unfoldable pub set_locomotive_controlled : Throttle → Bool → Throttle
set_locomotive_controlled t f = record t { locomotive_controlled_set = f }

unfoldable pub set_userdata : Throttle → ℕ → Throttle
set_userdata t u = record t { user_data = u }
