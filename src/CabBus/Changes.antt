-- ===== src/CabBus/Changes.antt =====
-- CabBusCommunications/cabbus_cab.c: what changes a cab marks the quarters that it writes.
use train_utils.Common.{
  u8, ℕ, zero, suc, ◌+◌, ◌≤◌, ◌<◌, ◌≡◌, refl, sym, ap, ◌∙◌, inl, inr, Bool, arith, List, [], ◌∷◌,
  ◌++◌, if◌then◌else◌, ◌==◌, ltb, Bool-cases, length-take, take, drop, set, get_or, get_or-drop,
  write_from, take-write_before, take-set_after, drop-write_from, drop-set, set-get_or,
  get_or-set_ne,
}
use train_utils.Common.Decimal.{decimal}
use train_utils.CabBus.Text.{blank, loc_text, pad_left}
use train_utils.CabBus.Cab.{
  Cab, Direction, forward, reverse, set_bit, set_loco_number, set_loco_speed, set_time,
  set_functions, set_direction, loco_chars, speed_chars, time_chars, write_speed, write_functions,
  function_char,
}
use train_utils.CabBus.Flags.{check_bit-set_bit, set_bit-lt, dirt}
use train_utils.CabBus.Display.{Lcd, shown, Agrees, Quarter, is_dirty, agrees, IsShown}
use train_utils.CabBus.Settled.{outputs, outputs-Agrees_dirt}

-- What a client sets on a cab.
pub data CabCall : Type 0 where
  loco_number loco_speed : ℕ → CabCall
  time_of_day : ℕ → ℕ → Bool → CabCall
  function_state : ℕ → Bool → CabCall
  run_direction : Direction → CabCall

abbrev pub apply_call : Cab → CabCall → Cab
apply_call c (loco_number number) = set_loco_number c number
apply_call c (loco_speed speed) = set_loco_speed c speed
apply_call c (time_of_day hour minute am) = set_time c hour minute am
apply_call c (function_state function on) = set_functions c function on
apply_call c (run_direction direction) = set_direction c direction

abbrev pub apply_calls : Cab → List CabCall → Cab
apply_calls c [] = c
apply_calls c (k ∷ ks) = apply_calls (apply_call c k) ks

more_dirty :
    {d : ℕ} (h : d < 256) (a b : ℕ) {seen row : List ℕ}
    → a < 8
    → b < 8
    → Quarter d b seen row
    → Quarter (set_bit d a) b seen row
more_dirty h a b ha hb (is_dirty g) = is_dirty (check_bit-set_bit _ a b h ha hb ∙ ground (arith, g))
more_dirty h a b ha hb (agrees g) = agrees g

now_dirty :
    {d : ℕ} (h : d < 256) (a : ℕ) {seen row : List ℕ} → a < 8 → Quarter (set_bit d a) a seen row
now_dirty h a ha = is_dirty (check_bit-set_bit _ a a h ha ha ∙ ground arith)

same_row :
    {d b : ℕ} {seen row row' : List ℕ} → row' ≡ row → Quarter d b seen row → Quarter d b seen row'
same_row e (is_dirty g) = is_dirty g
same_row e (agrees g) = agrees (g ∙ sym e)

-- The display is right or marked, and the place between the halves of the bottom row is blank.
pub record IsTidy (lcd : Lcd) (c : Cab) : Type 0 where
  pub byte : c.dirty_screens < 256
  pub gap : get_or c.bottom_row 8 blank ≡ blank
  pub shows : IsShown lcd c

take-write_functions : (row : List ℕ) (f x n : ℕ) → take 8 (write_functions row f x n) ≡ take 8 row
unfolding write_functions
take-write_functions row f x zero = refl
take-write_functions row f x (suc n) =
    take-write_functions (set row (x + 9) (function_char f x)) f (x + 1) n
    ∙ take-set_after row 8 (x + 9) (function_char f x) (omega arith)

gap-write_functions :
    (row : List ℕ) (f x n : ℕ) → get_or (write_functions row f x n) 8 blank ≡ get_or row 8 blank
unfolding write_functions
gap-write_functions row f x zero = refl
gap-write_functions row f x (suc n) =
    gap-write_functions (set row (x + 9) (function_char f x)) f (x + 1) n
    ∙ get_or-set_ne row (x + 9) 8 (function_char f x) blank (λ e. omega (arith, e))

-- Eight characters at the start leave the right half.
right_half : (row text : List ℕ) → drop 8 (write_from row 0 (take 8 text)) ≡ drop 8 row
right_half row text = drop-write_from row 8 0 (take 8 text) (omega (arith, length-take 8 text))

right_half_loco :
    (row : List ℕ) (number : ℕ) → drop 8 (write_from row 0 (loco_chars number)) ≡ drop 8 row
unfolding loco_chars
right_half_loco row number = right_half row (loc_text ++ pad_left 4 blank (decimal number))

right_half_speed :
    (row : List ℕ) (speed : ℕ)
    → get_or row 8 blank ≡ blank
    → drop 8 (write_speed row speed) ≡ drop 8 row
unfolding speed_chars
right_half_speed row speed e =
    let text = speed_chars speed in
    let right : drop 8 (write_from row 0 text) ≡ drop 8 row = right_half row _ in
    drop-set (write_from row 0 text) 8 0 blank
    ∙ ap (λ l. set l 0 blank) right
    ∙ set-get_or (drop 8 row) 0 blank (get_or-drop row 8 0 blank ∙ e)

gap_speed :
    (row : List ℕ) (speed : ℕ)
    → get_or row 8 blank ≡ blank
    → get_or (write_speed row speed) 8 blank ≡ blank
gap_speed row speed e =
    sym (get_or-drop (write_speed row speed) 8 0 blank)
    ∙ ap (λ l. get_or l 0 blank) (right_half_speed row speed e)
    ∙ get_or-drop row 8 0 blank
    ∙ e

module _ (lcd : Lcd) (c : Cab) (v : IsTidy lcd c) where
  -- Changes that leave all but one quarter, which they mark.
  loco-IsTidy : (number : ℕ) → IsTidy lcd (set_loco_number c number)
  unfolding set_loco_number
  loco-IsTidy number =
      let n = if ltb 9999 number then 9999 else number in
      elim (Bool-cases (c.loco_number == n)) [
        | inl e ↦ rw e v
        | inr e ↦ rw e record {
          byte = set_bit-lt c.dirty_screens 3 v.byte (omega arith);
          gap = v.gap;
          shows = record {
            top_left = now_dirty v.byte 3 (omega arith);
            top_right =
                same_row (ap (take 8) (right_half_loco c.top_row n))
                  (more_dirty v.byte 3 1 (omega arith) (omega arith) v.shows.top_right);
            bottom_left = more_dirty v.byte 3 2 (omega arith) (omega arith) v.shows.bottom_left;
            bottom_right = more_dirty v.byte 3 0 (omega arith) (omega arith) v.shows.bottom_right;
          };
        }
      ]

  speed-IsTidy : (speed old : ℕ) → IsTidy lcd (set_loco_speed (record c { speed = old }) speed)
  unfolding set_loco_speed
  speed-IsTidy speed old = record {
    byte = set_bit-lt c.dirty_screens 2 v.byte (omega arith);
    gap = gap_speed c.bottom_row _ v.gap;
    shows = record {
      top_left = more_dirty v.byte 2 3 (omega arith) (omega arith) v.shows.top_left;
      top_right = more_dirty v.byte 2 1 (omega arith) (omega arith) v.shows.top_right;
      bottom_left = now_dirty v.byte 2 (omega arith);
      bottom_right =
          same_row (ap (take 8) (right_half_speed c.bottom_row _ v.gap))
            (more_dirty v.byte 2 0 (omega arith) (omega arith) v.shows.bottom_right);
    };
  }

  time-IsTidy : (hour minute : ℕ) (am : Bool) → IsTidy lcd (set_time c hour minute am)
  unfolding set_time
  time-IsTidy hour minute am = record {
    byte = set_bit-lt c.dirty_screens 1 v.byte (omega arith);
    gap = v.gap;
    shows = record {
      top_left =
          same_row
            (take-write_before c.top_row 8 8 (time_chars (u8 hour) (u8 minute) am) (omega arith))
            (more_dirty v.byte 1 3 (omega arith) (omega arith) v.shows.top_left);
      top_right = now_dirty v.byte 1 (omega arith);
      bottom_left = more_dirty v.byte 1 2 (omega arith) (omega arith) v.shows.bottom_left;
      bottom_right = more_dirty v.byte 1 0 (omega arith) (omega arith) v.shows.bottom_right;
    };
  }

  functions-IsTidy : (function : ℕ) (on : Bool) → IsTidy lcd (set_functions c function on)
  unfolding set_functions
  functions-IsTidy function on = record {
    byte = set_bit-lt c.dirty_screens 0 v.byte (omega arith);
    gap = gap-write_functions c.bottom_row _ 0 7 ∙ v.gap;
    shows = record {
      top_left = more_dirty v.byte 0 3 (omega arith) (omega arith) v.shows.top_left;
      top_right = more_dirty v.byte 0 1 (omega arith) (omega arith) v.shows.top_right;
      bottom_left =
          same_row (take-write_functions c.bottom_row _ 0 7)
            (more_dirty v.byte 0 2 (omega arith) (omega arith) v.shows.bottom_left);
      bottom_right = now_dirty v.byte 0 (omega arith);
    };
  }

  apply_call-IsTidy : (k : CabCall) → IsTidy lcd (apply_call c k)
  unfolding set_direction
  apply_call-IsTidy (loco_number number) = loco-IsTidy number
  apply_call-IsTidy (loco_speed speed) = speed-IsTidy speed c.speed
  apply_call-IsTidy (time_of_day hour minute am) = time-IsTidy hour minute am
  apply_call-IsTidy (function_state function on) = functions-IsTidy function on
  apply_call-IsTidy (run_direction forward) = speed-IsTidy _ _
  apply_call-IsTidy (run_direction reverse) = speed-IsTidy _ _

pub apply_calls-IsTidy :
    (lcd : Lcd) (c : Cab) (ks : List CabCall) → IsTidy lcd c → IsTidy lcd (apply_calls c ks)
apply_calls-IsTidy lcd c [] v = v
apply_calls-IsTidy lcd c (k ∷ ks) v =
    apply_calls-IsTidy lcd (apply_call c k) ks (apply_call-IsTidy lcd c v k)

dirt_le : (d : ℕ) → dirt d ≤ 4
dirt_le d = ground arith

-- Where the display of a cab shows its rows but for the quarters that are marked as dirty, and the
-- ninth place of the bottom row is blank, any calls that set the number of the locomotive, its speed,
-- direction and functions or the time, with no message to the user or question among them, and then
-- four outputs or more, leave all four quarters of the display with the rows that these calls made.
pub calls-Agrees :
    (lcd : Lcd) (c : Cab) (ks : List CabCall) (n : ℕ)
    → IsTidy lcd c
    → 4 ≤ n
    → Agrees (shown lcd ((outputs n (apply_calls c ks)).1)) (apply_calls c ks)
calls-Agrees lcd c ks n v h =
    let w = apply_calls-IsTidy lcd c ks v in
    outputs-Agrees_dirt n lcd (apply_calls c ks) w.byte
      (omega (arith, dirt_le (apply_calls c ks).dirty_screens)) w.shows
