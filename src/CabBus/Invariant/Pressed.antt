-- ===== src/CabBus/Invariant/Pressed.antt =====
-- CabBusCommunications/cabbus_cab.c: a cab stays well formed, whatever keys it sends.
use train_utils.Common.{
  ℕ, ◌<◌, refl, Bool, true, false, not, ◌&&◌, arith, Option, none, some, List, if◌then◌else◌, ltb,
  ◌==◌, ◌!=◌, has_bits, Bool-cases, inl, inr,
}
use train_utils.CabBus.Cab.{Cab, Cursor, no_cursor, enable, disable, location, clear_bit, check_bit}
use train_utils.CabBus.Keys.{
  Handled, handled, or_else, loco_key, end_select_loco, handle_select_loco, is_pending, digit_key,
  speed_command, handle_speed, accy_key, handle_select_accy, throw_switch, handle_select_accy_dir,
  answer_question, number_key, handle_press_number_key, other_key, escape, take_key,
  process_button_press,
}
use train_utils.CabBus.Screens.{send_cursor}
use train_utils.CabBus.Flags.{clear_bit-lt}
use train_utils.CabBus.Display.{
  Output, sends_top_left, sends_bottom_left, sends_top_right, sends_bottom_right, clean,
  screen_cases,
}
use train_utils.CabBus.Bus.{press, serve_cab}
use train_utils.CabBus.Invariant.{
  IsValid, no_cursor_fits, enable_fits, disable_fits, if-IsValid, changed, reset-IsValid,
  command-IsValid, dirty-IsValid, cursor-IsValid, start_select_loco-IsValid,
  start_select_accy-IsValid, end_select_accy-IsValid, digit-IsValid, loco_digit-IsValid,
}

if-Handled :
    (b : Bool) (g h : Handled) → IsValid g.cab → IsValid h.cab → IsValid (if b then g else h).cab
if-Handled true g h v w = v
if-Handled false g h v w = w

or_else-IsValid :
    (h : Handled) (next : Cab → Handled)
    → IsValid h.cab
    → ((c : Cab) → IsValid c → IsValid (next c).cab)
    → IsValid (or_else h next).cab
or_else-IsValid h next v w = if-Handled h.done h _ v (w h.cab v)

module _ (c : Cab) (v : IsValid c) where
  end_select_loco-IsValid : IsValid (end_select_loco c)
  unfolding end_select_loco
  end_select_loco-IsValid =
      let w =
        changed c v refl refl (clear_bit-lt c.dirty_screens 6 v.dirty (omega arith)) v.selecting
          v.cursor in
      cursor-IsValid _ (reset-IsValid _ w) disable disable_fits

  loco_key-IsValid : (key : ℕ) (digit : Option ℕ) → IsValid (loco_key c key digit).cab
  loco_key-IsValid key (some digit) = loco_digit-IsValid c v digit
  loco_key-IsValid key none = if-IsValid (key == 0x40) _ c end_select_loco-IsValid v

  select_loco-IsValid : (key : ℕ) → IsValid (handle_select_loco c key).cab
  unfolding handle_select_loco
  select_loco-IsValid key = if-Handled (key == 0x48) _ _ (start_select_loco-IsValid c v) (
      if-Handled (not (check_bit c.dirty_screens 6)) _ _ v (
        if-Handled (is_pending c.new_cursor_position) _ _ v (loco_key-IsValid key (digit_key key))))

  speed_key-IsValid : (b : Bool) (speed : ℕ) → IsValid (if b then speed_command c speed else c)
  speed_key-IsValid b speed = if-IsValid b _ c (command-IsValid c v _) v

  handle_speed-IsValid : (key : ℕ) → IsValid (handle_speed c key).cab
  unfolding handle_speed
  handle_speed-IsValid key = if-Handled (key == 0x4A) _ _ (speed_key-IsValid _ _) (
      if-Handled (key == 0x4B) _ _ (speed_key-IsValid _ _) (
        if-Handled (key == 0x5A) _ _ (speed_key-IsValid _ _)
          (if-Handled (key == 0x5B) _ _ (speed_key-IsValid _ _) v)))

  accy_key-IsValid : (key : ℕ) (digit : Option ℕ) → IsValid (accy_key c key digit).cab
  accy_key-IsValid key (some digit) = digit-IsValid c v c.current_selecting_number digit
  accy_key-IsValid key none = if-IsValid (key == 0x40) _ c (end_select_accy-IsValid c v) v

  select_accy-IsValid : (key : ℕ) → IsValid (handle_select_accy c key).cab
  unfolding handle_select_accy
  select_accy-IsValid key =
      if-Handled (key == 0x4E && not (check_bit c.dirty_screens 7)) _ _
        (start_select_accy-IsValid c v)
        (if-Handled (not (check_bit c.dirty_screens 7)) _ _ v
          (accy_key-IsValid key (digit_key key)))

  throw_switch-IsValid : (k : ℕ) → IsValid (throw_switch c k)
  unfolding throw_switch
  throw_switch-IsValid k = reset-IsValid _ (
      changed c v refl refl (clear_bit-lt c.dirty_screens 4 v.dirty (omega arith)) v.selecting
        v.cursor)

  select_accy_dir-IsValid : (key : ℕ) → IsValid (handle_select_accy_dir c key).cab
  unfolding handle_select_accy_dir
  select_accy_dir-IsValid key = if-Handled (not (check_bit c.dirty_screens 4)) _ _ v (
      if-Handled (key == 0x51) _ _ (throw_switch-IsValid 1)
        (if-Handled (key == 0x52) _ _ (throw_switch-IsValid 2) v))

  answer_question-IsValid : (response : ℕ) → IsValid (answer_question c response)
  unfolding answer_question
  answer_question-IsValid response =
      command-IsValid _
        (reset-IsValid _
          (dirty-IsValid c v _ (clear_bit-lt c.dirty_screens 5 v.dirty (omega arith))))
        _

  number_key-IsValid : (digit : Option ℕ) → IsValid (number_key c digit).cab
  number_key-IsValid none = v
  number_key-IsValid (some digit) =
      if-IsValid (ltb digit 2 && check_bit c.dirty_screens 5) _ _ (answer_question-IsValid digit)
        (command-IsValid c v _)

  press_number_key-IsValid : (key : ℕ) → IsValid (handle_press_number_key c key).cab
  unfolding handle_press_number_key
  press_number_key-IsValid key = number_key-IsValid (digit_key key)

  other_key-IsValid : (key : ℕ) → IsValid (other_key c key)
  unfolding other_key
  other_key-IsValid key = if-IsValid (key == 0x7E) _ _ (dirty-IsValid c v 0x0F (omega arith)) (
      if-IsValid (key == 0x40) _ _ (reset-IsValid c v) (
        if-IsValid (key == 0x43) _ _ (command-IsValid c v _) (
          if-IsValid (key == 0x4C) _ _ (command-IsValid c v _) (
            if-IsValid (key == 0x49) _ _ (command-IsValid c v _) (
              if-IsValid (key == 0x5F) _ _ (command-IsValid c v _)
                (if-IsValid (key == 0x4D) _ _ (command-IsValid c v _) v))))))

  escape-IsValid : IsValid (escape c)
  escape-IsValid =
      if-IsValid (has_bits c.dirty_screens 0xF0) _ c
        (let r = reset-IsValid c v in changed _ r refl refl (omega arith) r.selecting disable_fits)
        v

take_key-IsValid : (c : Cab) (key : ℕ) → IsValid c → IsValid (take_key c key).cab
unfolding take_key
take_key-IsValid c key v =
    let speed : Cab → Handled = λ d. handle_speed d key in
    let accy : Cab → Handled = λ d. handle_select_accy d key in
    let way : Cab → Handled = λ d. handle_select_accy_dir d key in
    let number : Cab → Handled = λ d. handle_press_number_key d key in
    let h = handle_select_loco c key in
    let h1 = or_else h speed in
    let h2 = or_else h1 accy in
    let h3 = or_else h2 way in
    let v1 =
      or_else-IsValid h speed (select_loco-IsValid c v key) (λ d w. handle_speed-IsValid d w key) in
    let v2 = or_else-IsValid h1 accy v1 (λ d w. select_accy-IsValid d w key) in
    let v3 = or_else-IsValid h2 way v2 (λ d w. select_accy_dir-IsValid d w key) in
    or_else-IsValid h3 number v3 (λ d w. press_number_key-IsValid d w key)

pub process_button_press-IsValid :
    (c : Cab) (key : ℕ) → IsValid c → IsValid (process_button_press c key).0
unfolding process_button_press
process_button_press-IsValid c key v = elim (Bool-cases (key == 0x41)) [
  | inl e ↦ rw e (escape-IsValid c v)
  | inr e ↦ rw e (
      or_else-IsValid (take_key c key) (λ d. handled (other_key d key)) (take_key-IsValid c key v)
        (λ d w. other_key-IsValid d w key))
]

module _ (c : Cab) (v : IsValid c) where
  screen-IsValid :
      (a : ℕ) → a < 8 → IsValid (record c { dirty_screens = clear_bit c.dirty_screens a })
  screen-IsValid a h = dirty-IsValid c v _ (clear_bit-lt c.dirty_screens a v.dirty h)

  send_cursor-IsValid : (k : Cursor) → IsValid ((send_cursor c k).0)
  send_cursor-IsValid (location place) = cursor-IsValid c v enable enable_fits
  send_cursor-IsValid enable = cursor-IsValid c v no_cursor no_cursor_fits
  send_cursor-IsValid disable = cursor-IsValid c v no_cursor no_cursor_fits
  send_cursor-IsValid no_cursor = v

  Output-IsValid : {r : Cab × List (List ℕ)} → Output c r → IsValid (r.0)
  Output-IsValid (sends_top_left x) = screen-IsValid 3 (omega arith)
  Output-IsValid (sends_bottom_left x y) = screen-IsValid 2 (omega arith)
  Output-IsValid (sends_top_right x y z) = screen-IsValid 1 (omega arith)
  Output-IsValid (sends_bottom_right x y z w) = screen-IsValid 0 (omega arith)
  Output-IsValid (clean x y z w) = send_cursor-IsValid c.new_cursor_position

press-IsValid : (c : Cab) (key : ℕ) → IsValid c → IsValid (press c key).0
press-IsValid c key v = elim (Bool-cases (key != 0x7D)) [
  | inl e ↦ rw e (process_button_press-IsValid c key v)
  | inr e ↦ rw e v
]

pub serve_cab-IsValid : (c : Cab) (key : ℕ) → IsValid c → IsValid (serve_cab c key).0
unfolding serve_cab
serve_cab-IsValid c key v =
    let w = press-IsValid c key v in
    Output-IsValid (press c key).0 w (screen_cases (press c key).0 w.dirty)
