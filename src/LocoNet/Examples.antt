-- ===== src/LocoNet/Examples.antt =====
-- Runs of the LocoNet library, and its theorems at concrete inputs.
use train_utils.Common.{
  ℕ, zero, suc, get_or, has_bits, get_or-IsBytes, ◌<◌, ◌≡◌, ◌≢◌, refl, arith, true, false, Option,
  none, some, [], ◌∷◌, ◌++◌, replicate, inr, IsBytes,
}
use train_utils.LocoNet.Context.{Message, Context, new_context, new_interlocked, incoming_message}
use train_utils.LocoNet.Process.{Loop, process, process_loop, running, deliver}
use train_utils.LocoNet.Process.Termination.{Ends, IsShortAt}
use train_utils.LocoNet.Process.Total.{IsClean, process-Ends, process_loop_stalls}
use train_utils.LocoNet.Process.Messages.{
  FourBytes, IsFourBytes, wire, holding, seen, result, two_messages,
}
use train_utils.LocoNet.Write.{write_message}
use train_utils.LocoNet.Write.Wire.{write-process, sends, to_send, arrives}
use train_utils.LocoNet.Turnout.{
  TurnoutManager, new_turnouts, turnout_message, cached_turnout_state, switch_num, changed, closed,
  set_turnout,
}
use train_utils.LocoNet.Turnout.Sensor.{Reports, sensor_message_lem}
use train_utils.LocoNet.Turnout.{new_sensors, sensor_message}
use train_utils.LocoNet.Turnout.Cache.{IsTurnouts, turnout_message_lem}
use train_utils.LocoNet.Turnout.Request.{Requests, set_turnout_lem}
use train_utils.LocoNet.Throttle.{
  Throttle, new_throttle, state_none, null_move, Status, write, message, select_locomotive,
  incoming_message as throttle_incoming,
}
use train_utils.LocoNet.Throttle.Select.{select-incoming, slot_data_of, in_use}

abbrev fresh : Context
unfolding new_context
fresh = record (new_context true true) { message_callback_set = true }

abbrev blank : Message
blank = record { opcode = 0; bytes = replicate 16 0 }

-- Turnout 2 thrown, and turnout 2 closed.
abbrev throw_2 : FourBytes
throw_2 = record { opcode = 0xB0; first = 1; second = 0x10 }

abbrev close_2 : FourBytes
close_2 = record { opcode = 0xB0; first = 1; second = 0x30 }

throw_2-IsFourBytes : IsFourBytes throw_2
throw_2-IsFourBytes = record {
  opcode_from = omega arith;
  opcode_to = omega arith;
  first_fits = omega arith;
  second_fits = omega arith;
}

close_2-IsFourBytes : IsFourBytes close_2
close_2-IsFourBytes = record {
  opcode_from = omega arith;
  opcode_to = omega arith;
  first_fits = omega arith;
  second_fits = omega arith;
}

abbrev one_waiting : Context
unfolding new_context
one_waiting = holding fresh (wire throw_2 ++ replicate 124 0) 4

zeros : (n : ℕ) → IsBytes (replicate n 0)
zeros zero = tt
zeros (suc n) = (omega arith, zeros n)

one_waiting-IsClean : IsClean one_waiting
unfolding one_waiting
one_waiting-IsClean = record {
  size = refl;
  in_range = omega arith;
  fits = λ i h.
      get_or-IsBytes one_waiting.ln_buffer i
        (omega arith, (omega arith, (omega arith, (omega arith, zeros 124))));
  moves = moves;
  short = short;
}
  where
    short :
        (i : ℕ)
        → suc i < 4
        → IsShortAt (get_or one_waiting.ln_buffer i 0) (get_or one_waiting.ln_buffer (suc i) 0)
    short zero h t = absurd (omega (arith, t))
    short (suc zero) h t = absurd (omega (arith, t))
    short (suc (suc zero)) h t = absurd (omega (arith, t))
    short (suc (suc (suc i))) h t = absurd (omega (arith, h))

    moves :
        (i : ℕ)
        → suc i < 4
        → get_or one_waiting.ln_buffer i 0 ≡ 0xFF
        → get_or one_waiting.ln_buffer (suc i) 0 ≢ 0
    moves zero h p = λ z. omega (arith, p)
    moves (suc zero) h p = λ z. omega (arith, p)
    moves (suc (suc zero)) h p = λ z. omega (arith, p)
    moves (suc (suc (suc i))) h p = λ z. omega (arith, h)

process-Ends_example : Ends IsClean (process 5 blank (some one_waiting))
unfolding one_waiting
process-Ends_example = process-Ends 5 blank one_waiting refl one_waiting-IsClean (omega arith)

abbrev stuck : Loop
unfolding new_context
stuck = record {
  ctx = holding fresh (0xFF ∷ 0 ∷ 0 ∷ replicate 125 0) 3;
  message = blank;
  checksum = 0xFF;
}

process_loop_stalls_example :
    process_loop 100 stuck
    ≡ running (replicate 100 (incoming_message (record { opcode = 0xFF; bytes = replicate 16 0 })))
unfolding stuck
process_loop_stalls_example = process_loop_stalls 100 stuck (omega arith) refl refl refl refl

two_messages_example :
    result
      (process 4 blank (some (holding fresh (wire throw_2 ++ (wire close_2 ++ replicate 120 0)) 8)))
    ≡ some (0, deliver fresh (seen throw_2 (replicate 13 0)))
unfolding new_context
two_messages_example =
    two_messages throw_2 close_2 fresh 0 0 0 0 0 (replicate 13 0) (replicate 120 0)
      throw_2-IsFourBytes close_2-IsFourBytes

abbrev interlocked : Context
unfolding new_interlocked
interlocked = new_interlocked true

-- The interrupts that a waiting loop waits for do not come.
abbrev no_interrupt : Context → Option Context
no_interrupt c = none

write-process_example :
    arrives 2 blank
      (holding fresh (replicate 128 0) 0)
      (sends (write_message no_interrupt no_interrupt interlocked (to_send throw_2 [])))
    ≡ some (0, deliver fresh (seen throw_2 (replicate 13 0)))
unfolding fresh interlocked
write-process_example =
    write-process no_interrupt no_interrupt interlocked fresh throw_2 [] throw_2-IsFourBytes refl
      (inr (omega arith)) refl 0 0 0 0 0 0 0 0 0 (replicate 13 0) (replicate 124 0)

abbrev watched : TurnoutManager
unfolding new_turnouts
watched = record new_turnouts { switch_changed_set = true }

abbrev closing : Message
closing = record { opcode = 0xB0; bytes = 1 ∷ 0x30 ∷ [] }

watched-IsTurnouts : IsTurnouts watched
unfolding watched
watched-IsTurnouts = record { size = refl; fits = zeros 512 }

turnout_message_lem_example :
    let (t', events) = turnout_message watched closing in
    IsTurnouts t' × (cached_turnout_state t' 2 ≡ closed) × (events ≡ changed 2 closed ∷ [])
unfolding switch_num new_turnouts
turnout_message_lem_example =
    turnout_message_lem watched closing watched-IsTurnouts refl (omega arith, (omega arith, tt))

set_turnout_lem_example : Requests 200 true true (set_turnout 200 true true)
set_turnout_lem_example = set_turnout_lem 200 true true

abbrev reporting : Message
reporting = record { opcode = 0xB2; bytes = 3 ∷ 0x30 ∷ [] }

sensor_message_lem_example : Reports new_sensors reporting (sensor_message new_sensors reporting)
unfolding new_sensors
sensor_message_lem_example = sensor_message_lem new_sensors reporting refl (zeros 512) refl

abbrev driving : Throttle
unfolding new_throttle
driving = record new_throttle { slot_number = 5 }

select-incoming_example :
    let (st, t1, es) = select_locomotive new_throttle 1234 2 in
    let (t2, fs) = throttle_incoming t1 (slot_data_of 1234 7 0x13) in
    (st ≡ Status.ok)
    × (es ≡ write (message 0xBF 9 82) ∷ [])
    × (9 < 128)
    × (in_use 0x13 ≡ false
        → (t2.slot_number ≡ 7)
          × (t2.locomotive_number ≡ 1234)
          × (t2.request_state ≡ null_move)
          × (fs ≡ write (message 0xBA 7 7) ∷ [])
          × (throttle_incoming t2 (message 0xB4 0x3A 0)
              ≡ (record t2 { request_state = state_none }, [])))
    × (in_use 0x13 ≡ true
        → has_bits 2 2 ≡ true
        → (t2.slot_number ≡ 7)
          × (t2.locomotive_number ≡ 0)
          × (t2.request_state ≡ state_none)
          × (fs ≡ write (message 0xBB 7 0) ∷ []))
unfolding new_throttle
select-incoming_example = select-incoming new_throttle 1234 2 7 0x13 0x3A 0 refl (omega arith)
