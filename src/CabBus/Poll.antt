-- ===== src/CabBus/Poll.antt =====
-- CabBusCommunications/CabBus.c: what polls of a cab change that answers with no key or with one.
use train_utils.Common.{
  ℕ, ◌+◌, ◌-◌, ◌≤◌, ◌<◌, ◌≡◌, refl, sym, subst, ◌∙◌, true, false, arith, List, [], ◌∷◌, ◌++◌,
  if◌then◌else◌, ◌==◌, ◌!=◌,
}
use train_utils.CabBus.Cab.{
  Cab, cmd_none, Cursor, location, enable, disable, no_cursor, check_bit, clear_bit,
}
use train_utils.CabBus.Keys.{
  Handled, unhandled, handle_select_loco, handle_speed, handle_select_accy, handle_select_accy_dir,
  take_key, process_button_press, is_pending,
}
use train_utils.CabBus.Screens.{send_cursor}
use train_utils.CabBus.Bus.{serve_cab, press}
use train_utils.CabBus.Flags.{check_bit-clear_bit, clear_bit-lt, dirt, dirt-clear_bit}
use train_utils.CabBus.Display.{
  Output, sends_top_left, sends_bottom_left, sends_top_right, sends_bottom_right, clean,
  screen_cases,
}

-- A poll of a cab that answers with a key, as `cabbus_ping_step2` serves it.
unfoldable pub poll : Cab → ℕ → Cab
poll c key = (serve_cab (record c { command = record c.command { command = cmd_none } }) key).0

abbrev pub polls : Cab → List ℕ → Cab
polls c [] = c
polls c (key ∷ keys) = polls (poll c key) keys

-- What a poll with no key changes: the dirty screens and the cursor.
pub record Idled (c e : Cab) : Type 0 where
  pub byte : e.dirty_screens < 256
  pub flags : (b : ℕ) → 4 ≤ b → b < 8 → check_bit e.dirty_screens b ≡ check_bit c.dirty_screens b
  pub number : e.current_selecting_number ≡ c.current_selecting_number
  pub command : e.command ≡ c.command
  pub cursor : is_pending c.new_cursor_position ≡ false → is_pending e.new_cursor_position ≡ false

module _ (c : Cab) (h : c.dirty_screens < 256) where
  flags_kept :
      (a b : ℕ)
      → a < 4
      → 4 ≤ b
      → b < 8
      → check_bit (clear_bit c.dirty_screens a) b ≡ check_bit c.dirty_screens b
  flags_kept a b ha hb hc =
      check_bit-clear_bit c.dirty_screens a b h (omega arith) hc ∙ ground arith

  screen_sent : (a : ℕ) → a < 4 → Idled c (record c { dirty_screens = clear_bit c.dirty_screens a })
  screen_sent a ha = record {
    byte = clear_bit-lt c.dirty_screens a h (omega arith);
    flags = λ b. flags_kept a b ha;
    number = refl;
    command = refl;
    cursor = λ e. e;
  }

  cursor_sent : (k : Cursor) → Idled c ((send_cursor c k).0)
  cursor_sent (location place) = record {
    byte = h;
    flags = λ b hb hc. refl;
    number = refl;
    command = refl;
    cursor = λ e. refl;
  }
  cursor_sent enable = record {
    byte = h;
    flags = λ b hb hc. refl;
    number = refl;
    command = refl;
    cursor = λ e. refl;
  }
  cursor_sent disable = record {
    byte = h;
    flags = λ b hb hc. refl;
    number = refl;
    command = refl;
    cursor = λ e. refl;
  }
  cursor_sent no_cursor = record {
    byte = h;
    flags = λ b hb hc. refl;
    number = refl;
    command = refl;
    cursor = λ e. e;
  }

  Output-Idled : {r : Cab × List (List ℕ)} → Output c r → Idled c (r.0)
  Output-Idled (sends_top_left x) = screen_sent 3 (omega arith)
  Output-Idled (sends_bottom_left x y) = screen_sent 2 (omega arith)
  Output-Idled (sends_top_right x y z) = screen_sent 1 (omega arith)
  Output-Idled (sends_bottom_right x y z w) = screen_sent 0 (omega arith)
  Output-Idled (clean x y z w) = cursor_sent c.new_cursor_position

-- The outputs that are left until the cursor stands where it should.
abbrev pub work : Cab → ℕ
work c = dirt c.dirty_screens + (if is_pending c.new_cursor_position then 1 else 0)

module _ (c : Cab) (h : c.dirty_screens < 256) where
  screen_work :
      (a : ℕ)
      → a < 4
      → check_bit c.dirty_screens a ≡ true
      → work (record c { dirty_screens = clear_bit c.dirty_screens a }) ≤ work c - 1
  screen_work a ha e = omega (arith, dirt-clear_bit c.dirty_screens a h ha e)

  cursor_work :
      (k : Cursor)
      → c.new_cursor_position ≡ k
      → dirt c.dirty_screens ≡ 0
      → work ((send_cursor c k).0) ≤ work c - 1
  cursor_work (location place) e z = ground (arith, e, z)
  cursor_work enable e z = ground (arith, e, z)
  cursor_work disable e z = ground (arith, e, z)
  cursor_work no_cursor e z = ground (arith, e, z)

  Output-work : {r : Cab × List (List ℕ)} → Output c r → work (r.0) ≤ work c - 1
  Output-work (sends_top_left x) = screen_work 3 (omega arith) x
  Output-work (sends_bottom_left x y) = screen_work 2 (omega arith) y
  Output-work (sends_top_right x y z) = screen_work 1 (omega arith) z
  Output-work (sends_bottom_right x y z w) = screen_work 0 (omega arith) w
  Output-work (clean x y z w) = cursor_work c.new_cursor_position refl (rw (x, y, z, w) refl)

-- The cab as it is polled: without a command.
abbrev pub uncommanded : Cab → Cab
uncommanded c = record c { command = record c.command { command = cmd_none } }

pub poll-Idled :
    (c e : Cab) (key : ℕ)
    → e.dirty_screens < 256
    → (press (uncommanded c) key).0 ≡ e
    → Idled e (poll c key)
unfolding poll serve_cab
poll-Idled c e key h p =
    let q = (press (uncommanded c) key).0 in
    let hq : q.dirty_screens < 256 = subst (λ z. z.dirty_screens < 256) (sym p) h in
    subst (λ z. Idled z (poll c key)) p (Output-Idled q hq (screen_cases q hq))

pub poll-work :
    (c e : Cab) (key : ℕ)
    → e.dirty_screens < 256
    → (press (uncommanded c) key).0 ≡ e
    → work (poll c key) ≤ work e - 1
unfolding poll serve_cab
poll-work c e key h p =
    let q = (press (uncommanded c) key).0 in
    let hq : q.dirty_screens < 256 = subst (λ z. z.dirty_screens < 256) (sym p) h in
    subst (λ z. work (poll c key) ≤ work z - 1) p (Output-work q hq (screen_cases q hq))

pub idle_poll-work : (c : Cab) → c.dirty_screens < 256 → work (poll c 0x7D) ≤ work c - 1
idle_poll-work c h = poll-work c (uncommanded c) 0x7D h refl

pub idle_poll : (c : Cab) → c.dirty_screens < 256 → Idled (uncommanded c) (poll c 0x7D)
idle_poll c h = poll-Idled c (uncommanded c) 0x7D h refl

-- A handler that takes a key keeps the others from it.
pub loco_takes :
    (c : Cab) (key : ℕ) (h : Handled)
    → (key == 0x41) ≡ false
    → (key != 0x7D) ≡ true
    → handle_select_loco c key ≡ h
    → h.done ≡ true
    → (press c key).0 ≡ h.cab
unfolding process_button_press take_key
loco_takes c key h not_escape some_key t d = rw (not_escape, some_key, t, d) refl

-- The handlers that leave a key to the next ones.
pub record Leaves (c : Cab) (key : ℕ) : Type 0 where
  pub not_escape : (key == 0x41) ≡ false
  pub some_key : (key != 0x7D) ≡ true
  pub not_loco : handle_select_loco c key ≡ unhandled c
  pub not_speed : handle_speed c key ≡ unhandled c

pub accy_takes :
    (c : Cab) (key : ℕ) (h : Handled)
    → Leaves c key
    → handle_select_accy c key ≡ h
    → h.done ≡ true
    → (press c key).0 ≡ h.cab
unfolding process_button_press take_key
accy_takes c key h l t d = rw (l.not_escape, l.some_key, l.not_loco, l.not_speed, t, d) refl

pub accy_dir_takes :
    (c : Cab) (key : ℕ) (h : Handled)
    → Leaves c key
    → handle_select_accy c key ≡ unhandled c
    → handle_select_accy_dir c key ≡ h
    → h.done ≡ true
    → (press c key).0 ≡ h.cab
unfolding process_button_press take_key
accy_dir_takes c key h l n t d =
    rw (l.not_escape, l.some_key, l.not_loco, l.not_speed, n, t, d) refl

pub polls-append : (c : Cab) (xs ys : List ℕ) → polls c (xs ++ ys) ≡ polls (polls c xs) ys
polls-append c [] ys = refl
polls-append c (x ∷ xs) ys = polls-append (poll c x) xs ys
