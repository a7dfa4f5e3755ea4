-- ===== src/CabBus/Examples.antt =====
-- The theorems on CabBusCommunications/ applied to concrete cabs, and tests.
use train_utils.Common.{
  ℕ, ◌≤◌, ◌≡◌, refl, true, false, arith, Option, none, some, List, [], ◌∷◌, ◌++◌, map,
  if◌then◌else◌, ltb, replicate, inr,
}
use train_utils.Common.Decimal.{digits_before, decimal}
use train_utils.CabBus.Cab.{
  Cab, forward, reset_loco_chars, loco_chars, speed_chars, set_loco_number, set_loco_speed,
  set_time, set_functions, set_direction, write_functions,
}
use train_utils.Common.{write_from}
use train_utils.CabBus.Bus.{
  BusContext, default_cab, zeroed_cab, default_cabs, new_bus, cab_at, incoming_byte, ping_step2,
  clear_command, mark_unseen, answer, cab_by_id,
}
use train_utils.CabBus.Display.{Lcd, shown, Agrees, is_dirty}
use train_utils.CabBus.Settled.{outputs}
use train_utils.CabBus.Changes.{
  CabCall, loco_number, loco_speed, run_direction, apply_calls, IsTidy, calls-Agrees,
}
use train_utils.CabBus.Poll.{polls}
use train_utils.CabBus.Typing.{key_of}
use train_utils.CabBus.Select.{chosen, select_lem}
use train_utils.CabBus.Switch.{switch_command, way_key, switch_lem}
use train_utils.CabBus.Polling.{Pings, unseen, poll_lem}
use train_utils.CabBus.Invariant.Parts.{IsBus}
use train_utils.CabBus.Invariant.Calls.{
  BusCall, step1, step2, incoming, on_cab, bus_calls, calls-IsBus,
}
use train_utils.CabBus.Answer.{late, late_lem}

abbrev five : Cab
five = default_cab 5

-- 0, no key, 4, 2: a short address.
abbrev forty_two : List (Option ℕ)
forty_two = some 0 ∷ none ∷ some 4 ∷ some 2 ∷ []

select_lem_example :
    (polls five (0x48 ∷ (replicate 5 0x7D ++ (map key_of forty_two ++ 0x40 ∷ [])))).command
    ≡ chosen five.command.rest forty_two
unfolding default_cab
select_lem_example =
    select_lem five 5 forty_two (omega arith) (omega arith)
      (omega arith, (tt, (omega arith, (omega arith, tt)))) (omega arith)

switch_lem_example :
    (polls five
      (0x4E ∷ (map key_of forty_two ++ 0x40 ∷ (replicate 2 0x7D ++ way_key false ∷ [])))).command
    ≡ switch_command 42 false
unfolding default_cab
switch_lem_example =
    switch_lem five forty_two 2 false (omega arith) refl refl
      (omega arith, (tt, (omega arith, (omega arith, tt)))) (omega arith)

abbrev dark : Lcd
dark = record { top_left = []; top_right = []; bottom_left = []; bottom_right = [] }

five-IsTidy : IsTidy dark five
unfolding default_cab zeroed_cab set_loco_number set_loco_speed set_time set_functions set_direction
    speed_chars digits_before decimal write_functions write_from
five-IsTidy = record {
  byte = omega arith;
  gap = refl;
  shows = record {
    top_left = is_dirty refl;
    top_right = is_dirty refl;
    bottom_left = is_dirty refl;
    bottom_right = is_dirty refl;
  };
}

abbrev some_calls : List CabCall
some_calls = loco_number 1234 ∷ loco_speed 100 ∷ run_direction forward ∷ []

calls-Agrees_example :
    Agrees (shown dark ((outputs 4 (apply_calls five some_calls)).1)) (apply_calls five some_calls)
calls-Agrees_example = calls-Agrees dark five some_calls 4 five-IsTidy (omega arith)

poll_lem_example :
    (k : ℕ) × (e : BusContext) × (1 ≤ k)
    × (k ≤ (if ltb (unseen new_bus 5) 29 then 128 else 384))
    × Pings k new_bus e
    × (e.current_cab_addr ≡ 5)
unfolding new_bus default_cabs default_cab cab_at set_direction set_loco_speed set_functions
    set_time set_loco_number zeroed_cab
poll_lem_example =
    poll_lem new_bus 5 (omega arith) (omega arith) (omega arith) (omega arith) (inr (omega arith))
      (omega arith)

abbrev a_session : List BusCall
a_session =
    step1 ∷ incoming 0x4A ∷ incoming 0x7F ∷ step2 (λ k. []) ∷ on_cab 0 (loco_speed 1) ∷ step1 ∷ []

calls-IsBus_example : (c : BusContext) × (bus_calls (some new_bus) a_session ≡ some c) × IsBus c
calls-IsBus_example = calls-IsBus a_session

abbrev one_byte_in : BusContext
one_byte_in = incoming_byte new_bus 0x4A

late_lem_example : ping_step2 (late 7 0x7F) one_byte_in ≡ (
    let d = clear_command (mark_unseen one_byte_in) in
    if ltb 7 1000
    then answer (true, incoming_byte d 0x7F)
    else record { context = record d { byte_status = 0 }; answered = none; events = [] })
unfolding new_bus incoming_byte
late_lem_example = late_lem one_byte_in 7 0x7F refl

-- "LOC:1234", and what a reset makes of it: "LOC:123 ".
shown_number : loco_chars 1234 ≡ 76 ∷ 79 ∷ 67 ∷ 58 ∷ 49 ∷ 50 ∷ 51 ∷ 52 ∷ []
unfolding loco_chars decimal digits_before
shown_number = refl

reset_number : reset_loco_chars 1234 ≡ 76 ∷ 79 ∷ 67 ∷ 58 ∷ 49 ∷ 50 ∷ 51 ∷ 52 ∷ []
unfolding reset_loco_chars decimal digits_before
reset_number = refl

past_the_last : cab_by_id 64 ≡ some 64
unfolding cab_by_id
past_the_last = refl
