-- ===== src/Lcc/Clock/Round.antt =====
-- Proofs about LCC/lcc-clock.c: reading what was made.
use train_utils.Common.{
  ℕ, ◌<◌, ◌≡◌, refl, Bool, true, false, ◌&&◌, some, write_from, ltb, ◌==◌, arith,
}
use train_utils.Common.Table.{all_below, all_below-lt}
use train_utils.Lcc.Frame.{event_id_to_array, to_bytes, byte_at}
use train_utils.Lcc.Clock.{
  ClockType, default_fast_clock, default_real_time_clock, alternate_1, alternate_2, clock_base,
  clock_of, masked_event, event_byte, report_time_eventid, event_is_report_time_event,
  event_to_report_time_event,
}

abbrev made : ClockType → ℕ → ℕ → ℕ
made type h m = report_time_eventid type record { hours = h; minutes = m }

-- The three parts of an event that the reader looks at.
abbrev parts_test : ClockType → ℕ → ℕ → Bool
parts_test type h m =
    (masked_event (made type h m) == clock_base type)
    && ((event_byte (made type h m) 6 == h) && (event_byte (made type h m) 7 == m))

parts_table :
    (type : ClockType) → all_below 24 (λ h. all_below 60 (λ m. parts_test type h m)) ≡ true
unfolding all_below report_time_eventid event_id_to_array write_from to_bytes byte_at
parts_table default_fast_clock = refl
parts_table default_real_time_clock = refl
parts_table alternate_1 = refl
parts_table alternate_2 = refl

clock_of-base : (type : ClockType) → clock_of (clock_base type) ≡ some type
clock_of-base default_fast_clock = refl
clock_of-base default_real_time_clock = refl
clock_of-base alternate_1 = refl
clock_of-base alternate_2 = refl

eq_true : (a b : ℕ) → (a == b) ≡ true → a ≡ b
eq_true a b h = ground arith

both : (x y : Bool) → (x && y) ≡ true → (x ≡ true) × (y ≡ true)
both x y h = ground arith

-- An event whose parts are known is read as they say.
read_parts :
    (e h m : ℕ) (type : ClockType)
    → h < 24
    → m < 60
    → masked_event e ≡ clock_base type
    → event_byte e 6 ≡ h
    → event_byte e 7 ≡ m
    → event_to_report_time_event e ≡ some (type, record { hours = h; minutes = m })
unfolding event_to_report_time_event event_is_report_time_event
read_parts e h m type lh lm p q r = rw (p, q, r, clock_of-base type, late_hour, late_minute) refl
  where
    late_hour : ltb 0x17 h ≡ false
    late_hour = ground arith

    late_minute : ltb 59 m ≡ false
    late_minute = ground arith

-- The event made for a time of a clock, with the hour below 24 and the minute below 60, is read as a
-- report of that time for that clock.
pub report_time_lem :
    (type : ClockType) (h m : ℕ)
    → h < 24
    → m < 60
    → event_to_report_time_event (report_time_eventid type record { hours = h; minutes = m })
      ≡ some (type, record { hours = h; minutes = m })
report_time_lem type h m lh lm =
    read_parts (made type h m) h m type lh lm (eq_true _ _ (parts.0)) (eq_true _ _ (tail.0))
      (eq_true _ _ (tail.1))
  where
    parts :
        ((masked_event (made type h m) == clock_base type) ≡ true)
        × (((event_byte (made type h m) 6 == h) && (event_byte (made type h m) 7 == m)) ≡ true)
    parts = both _ _ (
        all_below-lt 60 (λ y. parts_test type h y)
          (all_below-lt 24 (λ x. all_below 60 (λ y. parts_test type x y)) (parts_table type) h lh) m
          lm)

    tail :
        ((event_byte (made type h m) 6 == h) ≡ true) × ((event_byte (made type h m) 7 == m) ≡ true)
    tail = both _ _ (parts.1)
