-- ===== src/CabBus/Display.antt =====
-- CabBusCommunications/cabbus_cab.c: the screens that a cab is sent, on a display of four quarters.
use train_utils.Common.{
  ℕ, ◌<◌, ◌≡◌, inl, inr, true, false, List, [], ◌∷◌, if◌then◌else◌, ◌==◌, Bool-cases, take, drop,
}
use train_utils.CabBus.Cab.{Cab, check_bit}
use train_utils.CabBus.Screens.{send_quarter, send_cursor, output_dirty_screens}
use train_utils.CabBus.Flags.{has_low_bits}

-- What a cab shows, by quarters of eight characters.
pub record Lcd : Type 0 where
  pub top_left : List ℕ
  pub top_right : List ℕ
  pub bottom_left : List ℕ
  pub bottom_right : List ℕ

-- A message of a screen; the messages on the cursor change no quarter.
unfoldable pub shown_one : Lcd → List ℕ → Lcd
shown_one lcd [] = lcd
shown_one lcd (b ∷ chars) =
    if b == 0xC0
    then record lcd { top_left = chars }
    else if b == 0xC1
    then record lcd { top_right = chars }
    else if b == 0xC2
    then record lcd { bottom_left = chars }
    else if b == 0xC3
    then record lcd { bottom_right = chars }
    else lcd

abbrev pub shown : Lcd → List (List ℕ) → Lcd
shown lcd [] = lcd
shown lcd (m ∷ ms) = shown (shown_one lcd m) ms

-- The four quarters are those of the rows of the cab.
pub record Agrees (lcd : Lcd) (cab : Cab) : Type 0 where
  pub top_left : lcd.top_left ≡ take 8 cab.top_row
  pub top_right : lcd.top_right ≡ take 8 (drop 8 cab.top_row)
  pub bottom_left : lcd.bottom_left ≡ take 8 cab.bottom_row
  pub bottom_right : lcd.bottom_right ≡ take 8 (drop 8 cab.bottom_row)

-- A quarter of the display is that of the cab, or is to be sent.
pub data Quarter (d bit : ℕ) (seen row : List ℕ) : Type 0 where
  is_dirty : check_bit d bit ≡ true → Quarter d bit seen row
  agrees : seen ≡ row → Quarter d bit seen row

pub record IsShown (lcd : Lcd) (cab : Cab) : Type 0 where
  pub top_left : Quarter cab.dirty_screens 3 lcd.top_left (take 8 cab.top_row)
  pub top_right : Quarter cab.dirty_screens 1 lcd.top_right (take 8 (drop 8 cab.top_row))
  pub bottom_left : Quarter cab.dirty_screens 2 lcd.bottom_left (take 8 cab.bottom_row)
  pub bottom_right : Quarter cab.dirty_screens 0 lcd.bottom_right (take 8 (drop 8 cab.bottom_row))

-- The outcomes of `output_dirty_screens`.
pub data Output (c : Cab) : Cab × List (List ℕ) → Type 0 where
  sends_top_left :
      check_bit c.dirty_screens 3 ≡ true → Output c (send_quarter c 0 3 (take 8 c.top_row))
  sends_bottom_left :
      check_bit c.dirty_screens 3 ≡ false
      → check_bit c.dirty_screens 2 ≡ true
      → Output c (send_quarter c 2 2 (take 8 c.bottom_row))
  sends_top_right :
      check_bit c.dirty_screens 3 ≡ false
      → check_bit c.dirty_screens 2 ≡ false
      → check_bit c.dirty_screens 1 ≡ true
      → Output c (send_quarter c 1 1 (take 8 (drop 8 c.top_row)))
  sends_bottom_right :
      check_bit c.dirty_screens 3 ≡ false
      → check_bit c.dirty_screens 2 ≡ false
      → check_bit c.dirty_screens 1 ≡ false
      → check_bit c.dirty_screens 0 ≡ true
      → Output c (send_quarter c 3 0 (take 8 (drop 8 c.bottom_row)))
  clean :
      check_bit c.dirty_screens 3 ≡ false
      → check_bit c.dirty_screens 2 ≡ false
      → check_bit c.dirty_screens 1 ≡ false
      → check_bit c.dirty_screens 0 ≡ false
      → Output c (send_cursor c c.new_cursor_position)

pub screen_cases : (c : Cab) → c.dirty_screens < 256 → Output c (output_dirty_screens c)
unfolding output_dirty_screens
screen_cases c h =
    let e = has_low_bits c.dirty_screens h in
    elim (Bool-cases (check_bit c.dirty_screens 3)) [
      | inl a ↦ rw (e, a) (sends_top_left a)
      | inr a ↦ elim (Bool-cases (check_bit c.dirty_screens 2)) [
        | inl b ↦ rw (e, a, b) (sends_bottom_left a b)
        | inr b ↦ elim (Bool-cases (check_bit c.dirty_screens 1)) [
          | inl k ↦ rw (e, a, b, k) (sends_top_right a b k)
          | inr k ↦ elim (Bool-cases (check_bit c.dirty_screens 0)) [
            | inl z ↦ rw (e, a, b, k, z) (sends_bottom_right a b k z)
            | inr z ↦ rw (e, a, b, k, z) (clean a b k z)
          ]
        ]
      ]
    ]
