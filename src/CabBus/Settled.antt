-- ===== src/CabBus/Settled.antt =====
-- CabBusCommunications/cabbus_cab.c: four outputs show the rows of a cab.
use train_utils.Common.{
  ℕ, zero, suc, ◌≤◌, ◌<◌, ◌≡◌, refl, sym, ◌∙◌, true, false, arith, List, [], ◌∷◌, ◌++◌, ◌-◌, ◌==◌,
}
use train_utils.CabBus.Cab.{Cab, Cursor, no_cursor, enable, disable, location, clear_bit, check_bit}
use train_utils.CabBus.Screens.{
  send_cursor, output_dirty_screens, move_cursor_to_location, cursor_on, cursor_off,
}
use train_utils.CabBus.Flags.{check_bit-clear_bit, clear_bit-lt, dirt, dirt-clear_bit}
use train_utils.CabBus.Display.{
  Lcd, shown_one, shown, Agrees, Quarter, is_dirty, agrees, IsShown, Output, sends_top_left,
  sends_bottom_left, sends_top_right, sends_bottom_right, clean, screen_cases,
}

-- What an output leaves: a quarter less is dirty, and only the dirty flags and the cursor change.
pub record Cleaner (c e : Cab) : Type 0 where
  pub byte : e.dirty_screens < 256
  pub less : dirt e.dirty_screens ≤ dirt c.dirty_screens - 1
  pub top : e.top_row ≡ c.top_row
  pub bottom : e.bottom_row ≡ c.bottom_row

keep :
    {d : ℕ} (h : d < 256) (a b : ℕ) {seen row : List ℕ}
    → a < 8
    → b < 8
    → (a == b) ≡ false
    → Quarter d b seen row
    → Quarter (clear_bit d a) b seen row
keep h a b ha hb e (is_dirty g) = is_dirty (check_bit-clear_bit _ a b h ha hb ∙ rw (e, g) refl)
keep h a b ha hb e (agrees g) = agrees g

module _ (c : Cab) (h : c.dirty_screens < 256) where
  sent :
      (a : ℕ)
      → a < 4
      → check_bit c.dirty_screens a ≡ true
      → Cleaner c (record c { dirty_screens = clear_bit c.dirty_screens a })
  sent a ha e = record {
    byte = clear_bit-lt c.dirty_screens a h (omega arith);
    less = omega (arith, dirt-clear_bit c.dirty_screens a h ha e);
    top = refl;
    bottom = refl;
  }

  cursor_sent : (k : Cursor) → dirt c.dirty_screens ≡ 0 → Cleaner c ((send_cursor c k).0)
  cursor_sent (location place) e = record {
    byte = h;
    less = omega (arith, e);
    top = refl;
    bottom = refl;
  }
  cursor_sent enable e = record { byte = h; less = omega (arith, e); top = refl; bottom = refl }
  cursor_sent disable e = record { byte = h; less = omega (arith, e); top = refl; bottom = refl }
  cursor_sent no_cursor e = record { byte = h; less = omega (arith, e); top = refl; bottom = refl }

  pub Output-Cleaner : {r : Cab × List (List ℕ)} → Output c r → Cleaner c (r.0)
  Output-Cleaner (sends_top_left x) = sent 3 (omega arith) x
  Output-Cleaner (sends_bottom_left x y) = sent 2 (omega arith) y
  Output-Cleaner (sends_top_right x y z) = sent 1 (omega arith) z
  Output-Cleaner (sends_bottom_right x y z w) = sent 0 (omega arith) w
  Output-Cleaner (clean x y z w) = cursor_sent c.new_cursor_position (rw (x, y, z, w) refl)

  -- The messages on the cursor show nothing.
  cursor_shown :
      (lcd : Lcd) (k : Cursor)
      → IsShown lcd c
      → IsShown (shown lcd ((send_cursor c k).1)) ((send_cursor c k).0)
  unfolding shown_one move_cursor_to_location cursor_on cursor_off
  cursor_shown lcd (location place) s = record {
    top_left = s.top_left;
    top_right = s.top_right;
    bottom_left = s.bottom_left;
    bottom_right = s.bottom_right;
  }
  cursor_shown lcd enable s = record {
    top_left = s.top_left;
    top_right = s.top_right;
    bottom_left = s.bottom_left;
    bottom_right = s.bottom_right;
  }
  cursor_shown lcd disable s = record {
    top_left = s.top_left;
    top_right = s.top_right;
    bottom_left = s.bottom_left;
    bottom_right = s.bottom_right;
  }
  cursor_shown lcd no_cursor s = s

  Output-IsShown :
      (lcd : Lcd) {r : Cab × List (List ℕ)}
      → Output c r
      → IsShown lcd c
      → IsShown (shown lcd (r.1)) (r.0)
  unfolding shown_one move_cursor_to_location cursor_on cursor_off
  Output-IsShown lcd (sends_top_left x) s = record {
    top_left = agrees refl;
    top_right = keep h 3 1 (omega arith) (omega arith) refl s.top_right;
    bottom_left = keep h 3 2 (omega arith) (omega arith) refl s.bottom_left;
    bottom_right = keep h 3 0 (omega arith) (omega arith) refl s.bottom_right;
  }
  Output-IsShown lcd (sends_bottom_left x y) s = record {
    top_left = keep h 2 3 (omega arith) (omega arith) refl s.top_left;
    top_right = keep h 2 1 (omega arith) (omega arith) refl s.top_right;
    bottom_left = agrees refl;
    bottom_right = keep h 2 0 (omega arith) (omega arith) refl s.bottom_right;
  }
  Output-IsShown lcd (sends_top_right x y z) s = record {
    top_left = keep h 1 3 (omega arith) (omega arith) refl s.top_left;
    top_right = agrees refl;
    bottom_left = keep h 1 2 (omega arith) (omega arith) refl s.bottom_left;
    bottom_right = keep h 1 0 (omega arith) (omega arith) refl s.bottom_right;
  }
  Output-IsShown lcd (sends_bottom_right x y z w) s = record {
    top_left = keep h 0 3 (omega arith) (omega arith) refl s.top_left;
    top_right = keep h 0 1 (omega arith) (omega arith) refl s.top_right;
    bottom_left = keep h 0 2 (omega arith) (omega arith) refl s.bottom_left;
    bottom_right = agrees refl;
  }
  Output-IsShown lcd (clean x y z w) s = cursor_shown lcd c.new_cursor_position s

abbrev pub outputs : ℕ → Cab → Cab × List (List ℕ)
outputs zero cab = (cab, [])
outputs (suc n) cab =
    let now = output_dirty_screens cab in let later = outputs n now.0 in (later.0, now.1 ++ later.1)

shown-append : (lcd : Lcd) (xs ys : List (List ℕ)) → shown lcd (xs ++ ys) ≡ shown (shown lcd xs) ys
shown-append lcd [] ys = refl
shown-append lcd (x ∷ xs) ys = shown-append (shown_one lcd x) xs ys

-- A quarter that is not dirty agrees.
settled :
    {d bit : ℕ} {seen row : List ℕ} → check_bit d bit ≡ false → Quarter d bit seen row → seen ≡ row
settled e (is_dirty g) = absurd cc
settled e (agrees g) = g

Agrees_of_clean : (lcd : Lcd) (c : Cab) → dirt c.dirty_screens ≡ 0 → IsShown lcd c → Agrees lcd c
Agrees_of_clean lcd c e s = record {
  top_left = settled (ground (arith, e)) s.top_left;
  top_right = settled (ground (arith, e)) s.top_right;
  bottom_left = settled (ground (arith, e)) s.bottom_left;
  bottom_right = settled (ground (arith, e)) s.bottom_right;
}

Agrees_same_rows :
    (lcd : Lcd) (c e : Cab)
    → e.top_row ≡ c.top_row
    → e.bottom_row ≡ c.bottom_row
    → Agrees lcd e
    → Agrees lcd c
Agrees_same_rows lcd c e t b a = record {
  top_left = rw (sym t) a.top_left;
  top_right = rw (sym t) a.top_right;
  bottom_left = rw (sym b) a.bottom_left;
  bottom_right = rw (sym b) a.bottom_right;
}

pub outputs-Agrees_dirt :
    (n : ℕ) (lcd : Lcd) (c : Cab)
    → c.dirty_screens < 256
    → dirt c.dirty_screens ≤ n
    → IsShown lcd c
    → Agrees (shown lcd ((outputs n c).1)) c
outputs-Agrees_dirt zero lcd c h enough s = Agrees_of_clean lcd c (omega arith) s
outputs-Agrees_dirt (suc n) lcd c h enough s =
    let o = screen_cases c h in
    let v = Output-Cleaner c h o in
    let later =
      outputs-Agrees_dirt n (shown lcd ((output_dirty_screens c).1)) ((output_dirty_screens c).0)
        v.byte (omega (arith, v.less)) (Output-IsShown c h lcd o s) in
    rw (shown-append lcd ((output_dirty_screens c).1) ((outputs n ((output_dirty_screens c).0)).1))
      (Agrees_same_rows _ c _ v.top v.bottom later)
