-- ===== src/CabBus/Keys.antt =====
-- CabBusCommunications/cabbus_cab.c: a key that a cab sends.
use train_utils.Common.{
  ℕ, ◌+◌, ◌-◌, ◌*◌, ◌/◌, ◌^◌, Bool, true, false, not, ◌&&◌, Option, none, some, List, [], ◌∷◌, ◌++◌,
  if◌then◌else◌, ltb, leb, ◌==◌, ◌!=◌, bit_and, has_bits, u8, u16, take, write_from,
}
use train_utils.Common.Decimal.{decimal}
use train_utils.CabBus.Text.{
  pad_left, enter_loco_text, control_text, acc_text, acc_number_text, on_off_text,
}
use train_utils.CabBus.Cab.{
  Cab, Command, cmd_sel_loco, cmd_switch, cmd_response, cmd_speed, cmd_direction, cmd_estop,
  cmd_function, cmd_unselect_loco, address, onoff, switch_rest, Cursor, no_cursor, enable, disable,
  location, set_bit, clear_bit, check_bit, reset, get_function,
}
use train_utils.CabBus.Screens.{print_char}

-- What a handler of a key returns, the cab, and what it writes.
pub record Handled : Type 0 where
  pub done : Bool
  pub cab : Cab
  pub writes : List (List ℕ)

abbrev pub unhandled : Cab → Handled
unhandled cab = record { done = false; cab = cab; writes = [] }

abbrev pub handled : Cab → Handled
handled cab = record { done = true; cab = cab; writes = [] }

-- The number of a key with a digit.
abbrev pub digit_key : ℕ → Option ℕ
digit_key key = if leb 0x50 key && leb key 0x59 then some (key - 0x50) else none

abbrev pub append_digit : ℕ → ℕ → ℕ
append_digit number digit = u16 (u16 (number * 10) + digit)

abbrev pub put_command : Cab → Command → Cab
put_command cab command = record cab { command = command }

unfoldable pub start_select_loco : Cab → Cab
start_select_loco cab = record cab {
  current_selecting_number = 0;
  command = record cab.command { first = 1 };
  bottom_row = write_from cab.bottom_row 0 enter_loco_text;
  dirty_screens = set_bit (set_bit (set_bit cab.dirty_screens 2) 0) 6;
  new_cursor_position = location 28;
}

-- A zero in front selects a short address.
unfoldable pub loco_digit : Cab → ℕ → Cab
loco_digit cab digit =
    if digit == 0 && cab.current_selecting_number == 0
    then record cab { command = record cab.command { first = 0 } }
    else record cab { current_selecting_number = append_digit cab.current_selecting_number digit }

unfoldable pub loco_command : Cab → Command
loco_command cab =
    if cab.current_selecting_number != 0
    then record cab.command { command = cmd_sel_loco; rest = address cab.current_selecting_number }
    else record cab.command { command = cmd_unselect_loco }

unfoldable pub end_select_loco : Cab → Cab
end_select_loco cab =
    let chosen = record cab {
      command = loco_command cab;
      dirty_screens = clear_bit cab.dirty_screens 6;
    } in
    record (reset chosen) { new_cursor_position = disable }

abbrev pub loco_key : Cab → ℕ → Option ℕ → Handled
loco_key cab key (some digit) = record {
  done = true;
  cab = loco_digit cab digit;
  writes = print_char (48 + digit) ∷ [];
}
loco_key cab key none = handled (if key == 0x40 then end_select_loco cab else cab)

abbrev pub is_pending : Cursor → Bool
is_pending (location place) = true
is_pending no_cursor = false
is_pending enable = false
is_pending disable = false

unfoldable pub handle_select_loco : Cab → ℕ → Handled
handle_select_loco cab key =
    if key == 0x48
    then handled (start_select_loco cab)
    else if not (check_bit cab.dirty_screens 6)
    then unhandled cab
    else if is_pending cab.new_cursor_position
    then unhandled cab
    else loco_key cab key (digit_key key)

abbrev pub speed_command : Cab → ℕ → Cab
speed_command cab speed =
    put_command cab (record cab.command { command = cmd_speed; first = speed })

unfoldable pub handle_speed : Cab → ℕ → Handled
handle_speed cab key =
    let speed = bit_and cab.speed 0x7F in
    if key == 0x4A
    then unhandled (if speed != 127 then speed_command cab (speed + 1) else cab)
    else if key == 0x4B
    then unhandled (if speed != 0 then speed_command cab (speed - 1) else cab)
    else if key == 0x5A
    then unhandled (
        if speed != 127
        then speed_command cab (bit_and (if ltb 127 (speed + 5) then 127 else speed + 5) 0x7F)
        else cab)
    else if key == 0x5B
    then unhandled (if speed != 0 then speed_command cab (bit_and (speed - 5) 0x7F) else cab)
    else unhandled cab

unfoldable pub start_select_accy : Cab → Cab
start_select_accy cab = record cab {
  top_row = write_from cab.top_row 0 control_text;
  bottom_row = write_from cab.bottom_row 0 (acc_number_text ++ pad_left 4 48 (decimal 0));
  dirty_screens = set_bit (set_bit (set_bit (set_bit cab.dirty_screens 7) 2) 3) 0;
  new_cursor_position = location 28;
  current_selecting_number = 0;
}

unfoldable pub accy_chars : ℕ → List ℕ
accy_chars number = take 8 (acc_text ++ pad_left 4 48 (decimal number))

unfoldable pub end_select_accy : Cab → Cab
end_select_accy cab = record cab {
  top_row = write_from cab.top_row 0 (accy_chars cab.current_selecting_number);
  bottom_row = write_from cab.bottom_row 0 on_off_text;
  dirty_screens = set_bit (set_bit (set_bit (set_bit (clear_bit cab.dirty_screens 7) 4) 2) 3) 0;
  new_cursor_position = disable;
}

abbrev pub accy_key : Cab → ℕ → Option ℕ → Handled
accy_key cab key (some digit) = record {
  done = true;
  cab = record cab { current_selecting_number = append_digit cab.current_selecting_number digit };
  writes = print_char (48 + digit) ∷ [];
}
accy_key cab key none = handled (if key == 0x40 then end_select_accy cab else cab)

unfoldable pub handle_select_accy : Cab → ℕ → Handled
handle_select_accy cab key =
    if key == 0x4E && not (check_bit cab.dirty_screens 7)
    then handled (start_select_accy cab)
    else if not (check_bit cab.dirty_screens 7)
    then unhandled cab
    else accy_key cab key (digit_key key)

unfoldable pub throw_switch : Cab → ℕ → Cab
throw_switch cab normal_rev = reset (record cab {
  dirty_screens = clear_bit cab.dirty_screens 4;
  command = record {
    command = cmd_switch;
    first = u8 cab.current_selecting_number;
    rest = switch_rest (cab.current_selecting_number / 2 ^ 8) normal_rev;
  };
})

unfoldable pub handle_select_accy_dir : Cab → ℕ → Handled
handle_select_accy_dir cab key =
    if not (check_bit cab.dirty_screens 4)
    then unhandled cab
    else if key == 0x51
    then handled (throw_switch cab 1)
    else if key == 0x52
    then handled (throw_switch cab 2)
    else handled cab

unfoldable pub answer_question : Cab → ℕ → Cab
answer_question cab response =
    let answered = reset (record cab { dirty_screens = clear_bit cab.dirty_screens 5 }) in
    put_command answered (record answered.command { command = cmd_response; first = response })

abbrev pub function_command : Cab → ℕ → ℕ → Cab
function_command cab function on =
    put_command cab (record { command = cmd_function; first = function; rest = onoff on })

-- The function of the cab, switched over.
abbrev pub toggle_function : Cab → ℕ → Cab
toggle_function cab function = function_command cab function (1 - get_function cab function)

abbrev pub number_key : Cab → Option ℕ → Handled
number_key cab none = unhandled cab
number_key cab (some digit) = handled (
    if ltb digit 2 && check_bit cab.dirty_screens 5
    then answer_question cab digit
    else toggle_function cab digit)

unfoldable pub handle_press_number_key : Cab → ℕ → Handled
handle_press_number_key cab key = number_key cab (digit_key key)

unfoldable pub other_key : Cab → ℕ → Cab
other_key cab key =
    if key == 0x7E
    then record cab { dirty_screens = 0x0F }
    else if key == 0x40
    then reset cab
    else if key == 0x43
    then put_command cab (record cab.command {
      command = cmd_direction;
      first = if has_bits cab.speed 0x80 then 1 else 0;
    })
    else if key == 0x4C
    then put_command cab (record cab.command { command = cmd_estop })
    else if key == 0x49
    then function_command cab 2 1
    else if key == 0x5F
    then function_command cab 2 0
    else if key == 0x4D
    then toggle_function cab 1
    else cab

-- The next handler, when the one before did not take the key.
abbrev pub or_else : Handled → (Cab → Handled) → Handled
or_else h next =
    if h.done then h else (let g = next h.cab in record g { writes = h.writes ++ g.writes })

abbrev pub escape : Cab → Cab
escape cab =
    if has_bits cab.dirty_screens 0xF0
    then record (reset cab) { new_cursor_position = disable; dirty_screens = 0x0F }
    else cab

unfoldable pub take_key : Cab → ℕ → Handled
take_key cab key =
    or_else
      (or_else
        (or_else (or_else (handle_select_loco cab key) (λ c. handle_speed c key))
          (λ c. handle_select_accy c key))
        (λ c. handle_select_accy_dir c key))
      (λ c. handle_press_number_key c key)

unfoldable pub process_button_press : Cab → ℕ → Cab × List (List ℕ)
process_button_press cab key =
    if key == 0x41
    then (escape cab, [])
    else (let h = or_else (take_key cab key) (λ c. handled (other_key c key)) in (h.cab, h.writes))
