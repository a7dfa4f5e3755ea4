-- ===== src/CabBus/Screens.antt =====
-- CabBusCommunications/cabbus_cab.c: the screens and the cursor that a cab is sent.
-- What is written to the bus is a list of the calls of `write_fn`, each with its bytes.
use train_utils.Common.{ℕ, ◌+◌, ◌-◌, List, [], ◌∷◌, if◌then◌else◌, ltb, has_bits, u8, take, drop}
use train_utils.CabBus.Cab.{Cab, Cursor, no_cursor, enable, disable, location, clear_bit, check_bit}

unfoldable pub move_cursor_to_location : ℕ → List ℕ
move_cursor_to_location place =
    0xC8 ∷ u8 (if ltb place 16 then 0x80 + place else 0xC0 + place - 16) ∷ []

unfoldable pub print_char : ℕ → List ℕ
print_char character = 0xCA ∷ character ∷ []

unfoldable pub cursor_on : List ℕ
cursor_on = 0xCF ∷ []

unfoldable pub cursor_off : List ℕ
cursor_off = 0xCE ∷ []

-- One quarter of the display, and the cab with that quarter clean.
abbrev pub send_quarter : Cab → ℕ → ℕ → List ℕ → Cab × List (List ℕ)
send_quarter cab place bit chars =
    (record cab { dirty_screens = clear_bit cab.dirty_screens bit }, ((0xC0 + place) ∷ chars) ∷ [])

abbrev pub send_dirty : Cab → Cab × List (List ℕ)
send_dirty cab =
    if check_bit cab.dirty_screens 3
    then send_quarter cab 0 3 (take 8 cab.top_row)
    else if check_bit cab.dirty_screens 2
    then send_quarter cab 2 2 (take 8 cab.bottom_row)
    else if check_bit cab.dirty_screens 1
    then send_quarter cab 1 1 (take 8 (drop 8 cab.top_row))
    else send_quarter cab 3 0 (take 8 (drop 8 cab.bottom_row))

abbrev pub send_cursor : Cab → Cursor → Cab × List (List ℕ)
send_cursor cab (location place) =
    (record cab { new_cursor_position = enable }, move_cursor_to_location place ∷ [])
send_cursor cab enable = (record cab { new_cursor_position = no_cursor }, cursor_on ∷ [])
send_cursor cab disable = (record cab { new_cursor_position = no_cursor }, cursor_off ∷ [])
send_cursor cab no_cursor = (cab, [])

unfoldable pub output_dirty_screens : Cab → Cab × List (List ℕ)
output_dirty_screens cab =
    if has_bits cab.dirty_screens 0x0F
    then send_dirty cab
    else send_cursor cab cab.new_cursor_position
