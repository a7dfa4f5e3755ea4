-- ===== src/CabBus/Bus.antt =====
-- CabBusCommunications/CabBus.c: the cabs of a bus, which one is polled, and its answer. A context
-- that is NULL is left out. What the bus is given is a list of events, in their order.
use train_utils.Common.{
  ℕ, zero, suc, ◌+◌, ◌%◌, Bool, true, false, ◌||◌, Option, none, some, List, [], ◌∷◌, ◌++◌, map,
  if◌then◌else◌, ltb, ◌==◌, ◌!=◌, bit_or, has_bits, u8, u32, sub32, get_or, set, replicate,
}
use train_utils.CabBus.Cab.{
  Cab, cmd_none, unset, no_cursor, forward, set_loco_number, set_loco_speed, set_time,
  set_functions, set_direction,
}
use train_utils.CabBus.Keys.{process_button_press}
use train_utils.CabBus.Screens.{output_dirty_screens}

-- `struct cabbus_context`.
pub record BusContext : Type 0 where
  pub all_cabs : List Cab
  pub current_cab_addr : ℕ
  pub ping_num : ℕ
  pub first_byte : ℕ
  pub second_byte : ℕ
  pub byte_status : ℕ
  pub user_data : ℕ

pub data BusEvent : Type 0 where
  wrote : List ℕ → BusEvent
  delayed : ℕ → BusEvent

-- A cab as `memset` leaves it, but for its number and its cursor.
unfoldable pub zeroed_cab : ℕ → Cab
zeroed_cab number = record {
  number = number;
  speed = 0;
  loco_number = 0;
  functions = 0;
  dirty_screens = 0;
  top_row = replicate 16 0;
  bottom_row = replicate 16 0;
  command = record { command = cmd_none; first = 0; rest = unset };
  last_ping = 0;
  new_cursor_position = no_cursor;
  current_selecting_number = 0;
  user_data = 0;
}

unfoldable pub default_cab : ℕ → Cab
default_cab number =
    let numbered = set_loco_speed (set_loco_number (zeroed_cab number) 44) 0 in
    let timed = set_functions (set_time numbered 5 55 true) 1 true in
    let cab = set_direction timed forward in
    record cab { command = record cab.command { command = cmd_none }; dirty_screens = 0x0F }

unfoldable pub default_cabs : ℕ → ℕ → List Cab
default_cabs x zero = []
default_cabs x (suc n) = default_cab x ∷ default_cabs (x + 1) n

unfoldable pub new_bus : BusContext
new_bus = record {
  all_cabs = default_cabs 0 64;
  current_cab_addr = 0;
  ping_num = 30;
  first_byte = 0;
  second_byte = 0;
  byte_status = 0;
  user_data = 0;
}

-- Addresses are below 64, and so within the array.
unfoldable pub cab_at : BusContext → ℕ → Cab
cab_at ctx address = get_or ctx.all_cabs address (zeroed_cab address)

-- Whether a cab is polled: seen recently, or else every fourth time.
unfoldable pub is_due : BusContext → ℕ → Bool
is_due ctx address =
    let cab = cab_at ctx address in
    let unseen = sub32 ctx.ping_num cab.last_ping in
    if ltb 30 unseen then u32 (ctx.ping_num + cab.number) % 4 == 0 else ltb unseen 30

-- The address after `address`, where 1 and 2 are left out.
abbrev pub step_address : ℕ → ℕ
step_address address = let next = u8 (address + 1) in if next == 1 || next == 2 then 3 else next

-- The loop, on fuel: the next address, and the number of pings.
unfoldable pub next_from : ℕ → BusContext → ℕ → Option (ℕ × ℕ)
next_from zero ctx address = none
next_from (suc fuel) ctx address =
    let next = step_address address in
    let later = next_from fuel ctx next in
    if next == 64
    then some (0, u32 (ctx.ping_num + 1))
    else if is_due ctx next
    then some (next, ctx.ping_num)
    else later

unfoldable pub next_ping_address : BusContext → Option (ℕ × ℕ)
next_ping_address ctx = next_from 64 ctx ctx.current_cab_addr

abbrev pub send_ping : BusContext → Option (ℕ × ℕ) → Option (BusContext × List BusEvent)
send_ping ctx none = none
send_ping ctx (some (address, pings)) = some (
  record ctx { current_cab_addr = address; ping_num = pings },
  wrote (bit_or 0x80 address ∷ []) ∷ delayed 1 ∷ [],
)

unfoldable pub ping_step1 : BusContext → Option (BusContext × List BusEvent)
ping_step1 ctx = send_ping ctx (next_ping_address ctx)

unfoldable pub incoming_byte : BusContext → ℕ → BusContext
incoming_byte ctx byte =
    if ctx.byte_status == 0
    then record ctx { first_byte = byte; byte_status = 1 }
    else if ctx.byte_status == 1
    then record ctx { second_byte = byte; byte_status = 3 }
    else record ctx { byte_status = 0 }

abbrev pub incoming_bytes : BusContext → List ℕ → BusContext
incoming_bytes ctx [] = ctx
incoming_bytes ctx (byte ∷ bytes) = incoming_bytes (incoming_byte ctx byte) bytes

-- The loop that waits for the second byte, which looks once more than `n` times; `arrivals` has the
-- bytes that the interrupt brings in between. Whether the second byte is there, and the context.
unfoldable pub await_second : (ℕ → List ℕ) → ℕ → BusContext → Bool × BusContext
await_second arrivals zero ctx = (has_bits ctx.byte_status 2, ctx)
await_second arrivals (suc n) ctx =
    let later = await_second arrivals n (incoming_bytes ctx (arrivals n)) in
    if has_bits ctx.byte_status 2 then (true, ctx) else later

abbrev pub put_cab : BusContext → ℕ → Cab → BusContext
put_cab ctx address cab = record ctx { all_cabs = set ctx.all_cabs address cab }

-- What `cabbus_ping_step2` returns, a pointer into the array of cabs.
pub record Pinged : Type 0 where
  pub context : BusContext
  pub answered : Option ℕ
  pub events : List BusEvent

abbrev pub press : Cab → ℕ → Cab × List (List ℕ)
press cab key = if key != 0x7D then process_button_press cab key else (cab, [])

-- A key that the cab sends, and the screens that it gets.
unfoldable pub serve_cab : Cab → ℕ → Cab × List (List ℕ)
serve_cab cab key =
    let pressed = press cab key in
    let shown = output_dirty_screens pressed.0 in (shown.0, pressed.1 ++ shown.1)

abbrev pub answer : Bool × BusContext → Pinged
answer (false, ctx) = record {
  context = record ctx { byte_status = 0 };
  answered = none;
  events = [];
}
answer (true, ctx) =
    let address = ctx.current_cab_addr in
    let seen = record (cab_at ctx address) { last_ping = ctx.ping_num } in
    let served = serve_cab seen ctx.first_byte in
    record {
      context = put_cab (record ctx { byte_status = 0 }) address served.0;
      answered = some address;
      events = map wrote served.1;
    }

-- A cab that was not seen in the last round gets all of its screens again.
unfoldable pub mark_unseen : BusContext → BusContext
mark_unseen ctx =
    let cab = cab_at ctx ctx.current_cab_addr in
    if ltb 1 (sub32 ctx.ping_num cab.last_ping)
    then put_cab ctx ctx.current_cab_addr
        (record cab { dirty_screens = bit_or cab.dirty_screens 0x0F })
    else ctx

unfoldable pub clear_command : BusContext → BusContext
clear_command ctx =
    let cab = cab_at ctx ctx.current_cab_addr in
    put_cab ctx ctx.current_cab_addr
      (record cab { command = record cab.command { command = cmd_none } })

unfoldable pub ping_step2 : (ℕ → List ℕ) → BusContext → Pinged
ping_step2 arrivals ctx =
    let marked = mark_unseen ctx in
    if has_bits ctx.byte_status 1
    then answer (await_second arrivals 1000 (clear_command marked))
    else record { context = marked; answered = none; events = [] }

-- The test lets 64 through, one past the last cab.
unfoldable pub cab_by_id : ℕ → Option ℕ
cab_by_id id = if ltb 64 id then none else some id

unfoldable pub set_bus_user_data : BusContext → ℕ → BusContext
set_bus_user_data ctx data_pointer = record ctx { user_data = data_pointer }

unfoldable pub get_bus_user_data : BusContext → ℕ
get_bus_user_data ctx = ctx.user_data

unfoldable pub set_all_cab_times : BusContext → ℕ → ℕ → Bool → BusContext
set_all_cab_times ctx hours minutes am = record ctx {
  all_cabs = map (λ cab. set_time cab hours minutes am) ctx.all_cabs;
}
