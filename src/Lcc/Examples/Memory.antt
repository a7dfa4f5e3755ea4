-- ===== src/Lcc/Examples/Memory.antt =====
-- Theorems on the memory protocol at concrete inputs.
use train_utils.Common.{ℕ, ◌%◌, ◌≡◌, refl, arith, true, none, some, List, [], ◌∷◌, map, replicate}
use train_utils.Lcc.Frame.{CanFrame}
use train_utils.Lcc.Node.{Context, new_context, ok}
use train_utils.Lcc.Datagram.{
  DatagramContext, datagram_context_new, written, received, accepted, called, result, load_and_send,
  rxok_frame,
}
use train_utils.Lcc.Datagram.Incoming.{handle_datagram, handle_frames}
use train_utils.Lcc.Datagram.Buffer.{IsIdle}
use train_utils.Lcc.Datagram.Fragments.{no_handlers}
use train_utils.Lcc.Datagram.Delivery.{Delivers}
use train_utils.Lcc.Memory.{MemoryContext, memory_new, Line}
use train_utils.Lcc.Memory.Made.{read_cdi}
use train_utils.Lcc.Memory.Incoming.{memory_try_handle_datagram}
use train_utils.Lcc.Memory.Read.{request, reply}
use train_utils.Lcc.Datagram.{firmware_data}
use train_utils.Lcc.Firmware.{
  FirmwareContext, firmware_new, firmware_handlers, WriteAnswer, write_ok,
}
use train_utils.Lcc.Firmware.Write.{write_request, write_reply, firmware_write_lem}
use train_utils.Lcc.Memory.Exchange.{memory_handlers, exchange_lem}

abbrev fine : CanFrame → ℕ
fine f = 0

abbrev asker : Context
unfolding new_context
asker = record new_context { node_alias = 0x123; write_function = some fine }

abbrev other : Context
unfolding new_context
other = record new_context { node_alias = 0x456; write_function = some fine }

abbrev idle : DatagramContext
unfolding datagram_context_new
idle = record datagram_context_new { received_set = true; ok_set = true; rejected_set = true }

abbrev described : MemoryContext
unfolding memory_new
described = record memory_new {
  cdi_set = true;
  cdi_data = λ address. address % 256;
  cdi_length = 500;
}

abbrev line : Line
line = record { datagram_context = idle; room = none; held = replicate 8 0 }

exchange_lem_example :
    (f : CanFrame) × (load_and_send asker idle none (replicate 8 0) 0x456 (request 0x80 10 [])
      ≡ result ok idle (written f ∷ []))
    × (fs : List CanFrame) × (after : DatagramContext) × (handle_datagram
          (memory_handlers described other line none)
          other
          idle
          f
        ≡ result ok after (map written fs))
    × IsIdle after
    × (last : DatagramContext) × (handle_frames no_handlers asker idle fs
        ≡ result ok last
            (accepted 0x456 0x80 ∷ received 0x456 (reply 0x80 (read_cdi described 0x80 10)) ∷ []))
    × IsIdle last
unfolding asker other idle new_context datagram_context_new described memory_new
exchange_lem_example =
    exchange_lem described asker other line none idle idle none (replicate 8 0) 0x80 10 fine fine
      (omega arith) (omega arith) (ground arith) (ground arith) (ground arith) (ground arith) refl
      refl (λ f. refl) (λ f. refl) refl (omega arith) (omega arith) refl refl (omega arith)
      (omega arith) (omega arith) (record { size = refl; empty = refl; free = refl })
      (record { size = refl; empty = refl; free = refl }) refl refl

abbrev writable : MemoryContext
unfolding memory_new
writable = record memory_new { write_set = true }

abbrev upgrading : FirmwareContext
unfolding firmware_new
upgrading = record firmware_new { upgrade_in_progress = true; functions_set = true }

abbrev stores : ℕ → List ℕ → WriteAnswer
stores address content = write_ok

firmware_write_lem_example :
    (fs : List CanFrame) × (memory_try_handle_datagram writable other line
        (some (firmware_handlers other fine line stores upgrading))
        0x123
        (write_request 0x1000 (1 ∷ 2 ∷ 3 ∷ []) (9 ∷ []))
        10
      ≡ (
        true,
        written (rxok_frame other 0x123 0x80)
            ∷ called (firmware_data 0x1000 (1 ∷ 2 ∷ 3 ∷ []))
            ∷ map written fs,
      ))
    × Delivers other asker idle fs (write_reply 0x1000)
unfolding asker other idle new_context datagram_context_new writable upgrading memory_new
    firmware_new
firmware_write_lem_example =
    firmware_write_lem writable other asker line stores upgrading idle 0x1000 (1 ∷ 2 ∷ 3 ∷ [])
      (9 ∷ []) fine (omega arith) (omega arith) (ground arith) (ground arith) refl refl refl
      (omega arith) refl (omega arith) refl (λ f. refl)
      (record { size = refl; empty = refl; free = refl }) refl
