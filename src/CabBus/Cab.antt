-- ===== src/CabBus/Cab.antt =====
-- CabBusCommunications/cabbus_cab.c: a cab, and what changes its display. A cab that is NULL and
-- negative arguments are left out; function numbers are below 32, where the shift is defined.
use train_utils.Common.{
  ℕ, zero, suc, ◌+◌, ◌-◌, ◌^◌, Bool, List, [], ◌∷◌, ◌++◌, if◌then◌else◌, ltb, ◌==◌, bit_and, bit_or,
  has_bits, u16, u8, length, replicate, take, set, write_from,
}
use train_utils.Common.Decimal.{decimal}
use train_utils.CabBus.Text.{pad_left, pad_right, blank, loc_text, fwd, rev, am_text, pm_text}

-- `enum CabCommands`.
pub data CabCommand : Type 0 where
  cmd_none cmd_sel_loco cmd_switch cmd_macro cmd_response cmd_speed cmd_direction cmd_estop
        cmd_function cmd_unselect_loco :
      CabCommand

-- What was written last to the union behind its first byte.
pub data Rest : Type 0 where
  unset : Rest
  address onoff : ℕ → Rest
  switch_rest : ℕ → ℕ → Rest

-- `struct cab_command`. The members of the union start at its first byte, which is `flags`, `speed`,
-- `response`, `direction`, `function_number` or the low byte of `switch_number`; the high byte of
-- `switch_number` and `normal_rev` are the arguments of `switch_rest`.
pub record Command : Type 0 where
  pub command : CabCommand
  pub first : ℕ
  pub rest : Rest

-- `new_cursor_position`: -1, -2 and -3, or a location.
pub data Cursor : Type 0 where
  no_cursor enable disable : Cursor
  location : ℕ → Cursor

-- `struct cabbus_cab`.
pub record Cab : Type 0 where
  pub number : ℕ
  pub speed : ℕ
  pub loco_number : ℕ
  pub functions : ℕ
  pub dirty_screens : ℕ
  pub top_row : List ℕ
  pub bottom_row : List ℕ
  pub command : Command
  pub last_ping : ℕ
  pub new_cursor_position : Cursor
  pub current_selecting_number : ℕ
  pub user_data : ℕ

-- The macros of Bitset.h on `dirty_screens`, a byte.
abbrev pub set_bit : ℕ → ℕ → ℕ
set_bit d b = bit_or d (2 ^ b)

abbrev pub clear_bit : ℕ → ℕ → ℕ
clear_bit d b = bit_and d (0xFF - 2 ^ b)

abbrev pub check_bit : ℕ → ℕ → Bool
check_bit d b = has_bits d (2 ^ b)

unfoldable pub loco_chars : ℕ → List ℕ
loco_chars number = take 8 (loc_text ++ pad_left 4 blank (decimal number))

unfoldable pub set_loco_number : Cab → ℕ → Cab
set_loco_number cab given =
    let number = if ltb 9999 given then 9999 else given in
    if cab.loco_number == number then cab else record cab {
      loco_number = number;
      top_row = write_from cab.top_row 0 (loco_chars number);
      dirty_screens = set_bit cab.dirty_screens 3;
    }

-- "FWD:" or "REV:" and the speed, with its direction in the top bit.
unfoldable pub speed_chars : ℕ → List ℕ
speed_chars speed =
    let direction : List ℕ = if has_bits speed 0x80 then fwd else rev in
    take 8 (direction ++ 58 ∷ pad_right 4 blank (decimal (bit_and speed 0x7F)))

abbrev pub write_speed : List ℕ → ℕ → List ℕ
write_speed row speed = set (write_from row 0 (speed_chars speed)) 8 blank

unfoldable pub set_loco_speed : Cab → ℕ → Cab
set_loco_speed cab given =
    let speed = bit_or (bit_and cab.speed 0x80) (bit_and given 0x7F) in
    record cab {
      speed = speed;
      bottom_row = write_speed cab.bottom_row speed;
      dirty_screens = set_bit cab.dirty_screens 2;
    }

unfoldable pub time_chars : ℕ → ℕ → Bool → List ℕ
time_chars hour minute am =
    let half : List ℕ = if am then am_text else pm_text in
    take 8 (blank ∷ pad_left 2 blank (decimal hour) ++ 58 ∷ pad_left 2 48 (decimal minute) ++ half)

-- The arguments are of type `char`, also where `cabbus_set_all_cab_times` hands over its `int`s: they
-- are cut to 8 bits. A `char` is unsigned here, as it is on ARM; where it is signed, hours and minutes
-- from 128 on would be printed as negative numbers.
unfoldable pub set_time : Cab → ℕ → ℕ → Bool → Cab
set_time cab hour minute am = record cab {
  top_row = write_from cab.top_row 8 (time_chars (u8 hour) (u8 minute) am);
  dirty_screens = set_bit cab.dirty_screens 1;
}

-- One character of the display of functions: `L` or a digit when the function is on.
abbrev pub function_char : ℕ → ℕ → ℕ
function_char functions x =
    if has_bits functions (2 ^ x) then (if x == 0 then 76 else 48 + x) else 45

unfoldable pub write_functions : List ℕ → ℕ → ℕ → ℕ → List ℕ
write_functions row functions x zero = row
write_functions row functions x (suc n) =
    write_functions (set row (x + 9) (function_char functions x)) functions (x + 1) n

unfoldable pub set_functions : Cab → ℕ → Bool → Cab
set_functions cab function_num on =
    let functions = u16 (
      if on
      then bit_or cab.functions (2 ^ function_num)
      else bit_and cab.functions (2 ^ 32 - 1 - 2 ^ function_num)) in
    record cab {
      functions = functions;
      bottom_row = write_functions cab.bottom_row functions 0 7;
      dirty_screens = set_bit cab.dirty_screens 0;
    }

-- `enum cabbus_direction`.
pub data Direction : Type 0 where
  forward reverse : Direction

unfoldable pub set_direction : Cab → Direction → Cab
set_direction cab forward =
    let speed = bit_or cab.speed 0x80 in set_loco_speed (record cab { speed = speed }) speed
set_direction cab reverse =
    let speed = bit_and cab.speed 0x7F in set_loco_speed (record cab { speed = speed }) speed

-- The text ends with a zero, which the last character of the quarter overwrites.
unfoldable pub reset_loco_chars : ℕ → List ℕ
reset_loco_chars number = take 8 (loc_text ++ pad_left 3 blank (decimal number) ++ 0 ∷ [])

unfoldable pub reset : Cab → Cab
reset cab = record cab {
  bottom_row = write_functions (write_speed cab.bottom_row cab.speed) cab.functions 0 7;
  top_row = set (write_from cab.top_row 0 (reset_loco_chars cab.loco_number)) 7 blank;
  dirty_screens = set_bit (set_bit (set_bit cab.dirty_screens 2) 0) 3;
}

-- The text ends with a zero; what follows it is blank.
unfoldable pub message_chars : List ℕ → List ℕ
message_chars message = take 16 (message ++ 0 ∷ replicate (15 - length message) blank)

unfoldable pub user_message : Cab → List ℕ → Cab
user_message cab message = if ltb 16 (length message) then cab else record cab {
  bottom_row = write_from cab.bottom_row 0 (message_chars message);
  dirty_screens = set_bit (set_bit cab.dirty_screens 2) 0;
}

unfoldable pub ask_question : Cab → List ℕ → Cab
ask_question cab message = if ltb 16 (length message) then cab else record cab {
  bottom_row = write_from cab.bottom_row 0 (message_chars message);
  dirty_screens = set_bit (set_bit (set_bit cab.dirty_screens 5) 2) 0;
}

unfoldable pub set_user_data : Cab → ℕ → Cab
set_user_data cab data_pointer = record cab { user_data = data_pointer }

unfoldable pub get_user_data : Cab → ℕ
get_user_data cab = cab.user_data

unfoldable pub get_loco_number : Cab → ℕ
get_loco_number cab = cab.loco_number

unfoldable pub get_command : Cab → Command
get_command cab = cab.command

unfoldable pub get_cab_number : Cab → ℕ
get_cab_number cab = cab.number

unfoldable pub get_function : Cab → ℕ → ℕ
get_function cab function = if has_bits cab.functions (2 ^ function) then 1 else 0

unfoldable pub get_speed : Cab → ℕ
get_speed cab = cab.speed
