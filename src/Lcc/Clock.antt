-- ===== src/Lcc/Clock.antt =====
-- LCC/lcc-clock.c: events that report the time of a clock.
pub mod Round
use train_utils.Common.{
  ℕ, Bool, true, false, ◌&&◌, ◌||◌, Option, none, some, if◌then◌else◌, ltb, ◌==◌, bit_and, bit_or,
  shl, get_or, replicate,
}
use train_utils.Lcc.Frame.{event_id_to_array}

-- `enum lcc_clock_type`.
pub data ClockType : Type 0 where
  default_fast_clock : ClockType
  default_real_time_clock : ClockType
  alternate_1 : ClockType
  alternate_2 : ClockType

-- `struct lcc_time`, whose fields are bytes.
pub record Time : Type 0 where
  pub hours : ℕ
  pub minutes : ℕ

abbrev pub clock_base : ClockType → ℕ
clock_base default_fast_clock = 0x0101000001000000
clock_base default_real_time_clock = 0x0101000001010000
clock_base alternate_1 = 0x0101000001020000
clock_base alternate_2 = 0x0101000001030000

-- A type that is none of the four gives 0 too, and is left out.
unfoldable pub report_time_eventid : ClockType → Time → ℕ
report_time_eventid type t =
    if ltb 24 t.hours || ltb 59 t.minutes
    then 0
    else bit_or (bit_or (clock_base type) (shl t.hours 8)) t.minutes

-- The clock of an event whose low 16 bits are masked away.
abbrev pub clock_of : ℕ → Option ClockType
clock_of masked =
    if masked == 0x0101000001000000
    then some default_fast_clock
    else if masked == 0x0101000001010000
    then some default_real_time_clock
    else if masked == 0x0101000001020000
    then some alternate_1
    else if masked == 0x0101000001030000
    then some alternate_2
    else none

abbrev pub masked_event : ℕ → ℕ
masked_event event_id = bit_and event_id 0xFFFFFFFFFFFF0000

abbrev pub event_byte : ℕ → ℕ → ℕ
event_byte event_id i = get_or (event_id_to_array event_id (replicate 8 0)) i 0

abbrev pub is_known : Option ClockType → Bool
is_known none = false
is_known (some type) = true

unfoldable pub event_is_report_time_event : ℕ → Bool
event_is_report_time_event event_id =
    let clock_valid = is_known (clock_of (masked_event event_id)) in
    let time_valid =
      if ltb 0x17 (event_byte event_id 6) || ltb 59 (event_byte event_id 7) then false else true in
    clock_valid && time_valid

abbrev pub with_time : Time → Option ClockType → Option (ClockType × Time)
with_time t none = none
with_time t (some type) = some (type, t)

-- `none` is LCC_ERROR_EVENT_NOT_REPORT_TIME. Both of `type` and `time` are wanted.
unfoldable pub event_to_report_time_event : ℕ → Option (ClockType × Time)
event_to_report_time_event event_id =
    if event_is_report_time_event event_id
    then with_time record { hours = event_byte event_id 6; minutes = event_byte event_id 7 }
        (clock_of (masked_event event_id))
    else none
