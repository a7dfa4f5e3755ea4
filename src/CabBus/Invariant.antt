-- ===== src/CabBus/Invariant.antt =====
-- CabBusCommunications/cabbus_cab.c: what every cab satisfies, whatever its keys and its client do.
pub mod Pressed
pub mod Parts
pub mod Calls
use train_utils.Common.{
  ℕ, zero, suc, ◌+◌, ◌-◌, ◌*◌, ◌/◌, ◌%◌, ◌^◌, ◌≤◌, ◌<◌, ◌≡◌, refl, sym, ap, ◌∙◌, inl, inr, Bool,
  true, false, not, ◌&&◌, ◌||◌, arith, Option, none, some, List, [], ◌∷◌, ◌++◌, if◌then◌else◌, ltb,
  ◌==◌, ◌!=◌, Bool-cases, length, length-set, length-write_from, set, write_from, bit_and, bit_or,
  has_bits, u16,
}
use train_utils.Common.Bits.{bit_and_low, bit_and_high, bit_or_sum}
use train_utils.CabBus.Cab.{
  Cab, Command, Cursor, no_cursor, enable, disable, location, Direction, forward, reverse, set_bit,
  clear_bit, check_bit, set_loco_number, set_loco_speed, set_time, set_functions, set_direction,
  reset, user_message, ask_question, write_speed, write_functions, function_char,
}
use train_utils.CabBus.Keys.{
  Handled, handled, unhandled, or_else, start_select_loco, loco_digit, loco_key, end_select_loco,
  handle_select_loco, is_pending, digit_key, append_digit, put_command, speed_command, handle_speed,
  start_select_accy, end_select_accy, accy_key, handle_select_accy, throw_switch,
  handle_select_accy_dir, answer_question, function_command, toggle_function, number_key,
  handle_press_number_key, other_key, escape, take_key, process_button_press,
}
use train_utils.CabBus.Screens.{output_dirty_screens}
use train_utils.CabBus.Flags.{set_bit-lt, clear_bit-lt, three_set-lt}

-- A cursor that can be placed on the display.
pub data InDisplay : Cursor → Type 0 where
  no_cursor_fits : InDisplay no_cursor
  enable_fits : InDisplay enable
  disable_fits : InDisplay disable
  location_fits : (place : ℕ) → place < 32 → InDisplay (location place)

pub record IsValid (c : Cab) : Type 0 where
  pub top : length c.top_row ≡ 16
  pub bottom : length c.bottom_row ≡ 16
  pub dirty : c.dirty_screens < 256
  pub speed : c.speed < 256
  pub loco : c.loco_number ≤ 9999
  pub selecting : c.current_selecting_number < 2 ^ 16
  pub functions : c.functions < 2 ^ 16
  pub cursor : InDisplay c.new_cursor_position

length-write_functions :
    (row : List ℕ) (f x n : ℕ) → length (write_functions row f x n) ≡ length row
unfolding write_functions
length-write_functions row f x zero = refl
length-write_functions row f x (suc n) =
    length-write_functions (set row (x + 9) (function_char f x)) f (x + 1) n
    ∙ length-set row (x + 9) (function_char f x)

length-write_speed : (row : List ℕ) (speed : ℕ) → length (write_speed row speed) ≡ length row
length-write_speed row speed = length-set (write_from row 0 _) 8 _ ∙ length-write_from row 0 _

pub if-IsValid : (b : Bool) (c d : Cab) → IsValid c → IsValid d → IsValid (if b then c else d)
if-IsValid true c d v w = v
if-IsValid false c d v w = w

joined_speed : (s g : ℕ) → bit_or (bit_and s 0x80) (bit_and g 0x7F) < 256
joined_speed s g =
    rw
      (
        bit_and_low 7 g,
        bit_and_high 7 s 1,
        bit_and_low 1 (s / 2 ^ 7),
        bit_or_sum 7 (s / 2 ^ 7 % 2) (g % 2 ^ 7) (omega arith),
      )
      (omega arith)

module _ (c : Cab) (v : IsValid c) where
  -- What a handler of a key may change.
  pub changed :
      {top bottom : List ℕ} {dirty selecting : ℕ} {command : Command} {cursor : Cursor}
      → length top ≡ length c.top_row
      → length bottom ≡ length c.bottom_row
      → dirty < 256
      → selecting < 2 ^ 16
      → InDisplay cursor
      → IsValid (record c {
        top_row = top;
        bottom_row = bottom;
        dirty_screens = dirty;
        current_selecting_number = selecting;
        command = command;
        new_cursor_position = cursor;
      })
  changed t b d s k = record {
    top = t ∙ v.top;
    bottom = b ∙ v.bottom;
    dirty = d;
    speed = v.speed;
    loco = v.loco;
    selecting = s;
    functions = v.functions;
    cursor = k;
  }

  pub set_time-IsValid : (hour minute : ℕ) (am : Bool) → IsValid (set_time c hour minute am)
  unfolding set_time
  set_time-IsValid hour minute am =
      changed (length-write_from c.top_row 8 _) refl
        (set_bit-lt c.dirty_screens 1 v.dirty (omega arith)) v.selecting v.cursor

  pub reset-IsValid : IsValid (reset c)
  unfolding reset
  reset-IsValid =
      changed (length-set _ 7 _ ∙ length-write_from c.top_row 0 _)
        (length-write_functions (write_speed c.bottom_row c.speed) c.functions 0 7
          ∙ length-write_speed c.bottom_row c.speed)
        (three_set-lt c.dirty_screens 2 0 3 v.dirty (omega arith) (omega arith) (omega arith))
        v.selecting v.cursor

  pub command-IsValid : (k : Command) → IsValid (put_command c k)
  command-IsValid k = changed refl refl v.dirty v.selecting v.cursor

  pub dirty-IsValid : (d : ℕ) → d < 256 → IsValid (record c { dirty_screens = d })
  dirty-IsValid d h = changed refl refl h v.selecting v.cursor

  pub cursor-IsValid : (k : Cursor) → InDisplay k → IsValid (record c { new_cursor_position = k })
  cursor-IsValid k h = changed refl refl v.dirty v.selecting h

  pub set_loco_number-IsValid : (number : ℕ) → IsValid (set_loco_number c number)
  unfolding set_loco_number
  set_loco_number-IsValid number =
      let n = if ltb 9999 number then 9999 else number in
      if-IsValid (c.loco_number == n) c _ v record {
        top = length-write_from c.top_row 0 _ ∙ v.top;
        bottom = v.bottom;
        dirty = set_bit-lt c.dirty_screens 3 v.dirty (omega arith);
        speed = v.speed;
        loco = ground arith;
        selecting = v.selecting;
        functions = v.functions;
        cursor = v.cursor;
      }

  pub speed-IsValid : (old given : ℕ) → IsValid (set_loco_speed (record c { speed = old }) given)
  unfolding set_loco_speed
  speed-IsValid old given = record {
    top = v.top;
    bottom = length-write_speed c.bottom_row _ ∙ v.bottom;
    dirty = set_bit-lt c.dirty_screens 2 v.dirty (omega arith);
    speed = joined_speed old given;
    loco = v.loco;
    selecting = v.selecting;
    functions = v.functions;
    cursor = v.cursor;
  }

  pub set_functions-IsValid : (function : ℕ) (on : Bool) → IsValid (set_functions c function on)
  unfolding set_functions
  set_functions-IsValid function on = record {
    top = v.top;
    bottom = length-write_functions c.bottom_row _ 0 7 ∙ v.bottom;
    dirty = set_bit-lt c.dirty_screens 0 v.dirty (omega arith);
    speed = v.speed;
    loco = v.loco;
    selecting = v.selecting;
    functions = omega arith;
    cursor = v.cursor;
  }

  pub start_select_loco-IsValid : IsValid (start_select_loco c)
  unfolding start_select_loco
  start_select_loco-IsValid =
      let h2 = set_bit-lt c.dirty_screens 2 v.dirty (omega arith) in
      let h0 = set_bit-lt _ 0 h2 (omega arith) in
      changed refl (length-write_from c.bottom_row 0 _) (set_bit-lt _ 6 h0 (omega arith))
        (omega arith) (location_fits 28 (omega arith))

  pub start_select_accy-IsValid : IsValid (start_select_accy c)
  unfolding start_select_accy
  start_select_accy-IsValid =
      changed (length-write_from c.top_row 0 _) (length-write_from c.bottom_row 0 _)
        (three_set-lt _ 2 3 0 (set_bit-lt c.dirty_screens 7 v.dirty (omega arith)) (omega arith)
          (omega arith) (omega arith))
        (omega arith) (location_fits 28 (omega arith))

  pub end_select_accy-IsValid : IsValid (end_select_accy c)
  unfolding end_select_accy
  end_select_accy-IsValid =
      let h7 = clear_bit-lt c.dirty_screens 7 v.dirty (omega arith) in
      changed (length-write_from c.top_row 0 _) (length-write_from c.bottom_row 0 _)
        (three_set-lt _ 2 3 0 (set_bit-lt _ 4 h7 (omega arith)) (omega arith) (omega arith)
          (omega arith))
        v.selecting disable_fits

  pub digit-IsValid : (n d : ℕ) → IsValid (record c { current_selecting_number = append_digit n d })
  digit-IsValid n d = changed refl refl v.dirty (omega arith) v.cursor

  pub loco_digit-IsValid : (d : ℕ) → IsValid (loco_digit c d)
  unfolding loco_digit
  loco_digit-IsValid d =
      if-IsValid (d == 0 && c.current_selecting_number == 0) _ _ (command-IsValid _)
        (digit-IsValid c.current_selecting_number d)

  pub user_message-IsValid : (message : List ℕ) → IsValid (user_message c message)
  unfolding user_message
  user_message-IsValid message =
      let h2 = set_bit-lt c.dirty_screens 2 v.dirty (omega arith) in
      if-IsValid (ltb 16 (length message)) c _ v (
        changed refl (length-write_from c.bottom_row 0 _) (set_bit-lt _ 0 h2 (omega arith))
          v.selecting v.cursor)

  pub ask_question-IsValid : (message : List ℕ) → IsValid (ask_question c message)
  unfolding ask_question
  ask_question-IsValid message =
      let h5 = set_bit-lt c.dirty_screens 5 v.dirty (omega arith) in
      let h2 = set_bit-lt _ 2 h5 (omega arith) in
      if-IsValid (ltb 16 (length message)) c _ v (
        changed refl (length-write_from c.bottom_row 0 _) (set_bit-lt _ 0 h2 (omega arith))
          v.selecting v.cursor)
