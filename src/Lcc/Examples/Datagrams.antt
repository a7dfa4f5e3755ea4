-- ===== src/Lcc/Examples/Datagrams.antt =====
-- Theorems on datagrams at concrete inputs.
use train_utils.Common.{ℕ, ◌≡◌, refl, arith, inr, true, false, some, List, [], ◌∷◌, map, replicate}
use train_utils.Lcc.Frame.{CanFrame}
use train_utils.Lcc.Node.{Context, new_context, ok}
use train_utils.Lcc.Datagram.{
  DatagramContext, datagram_context_new, written, rejected, result, load_and_send,
}
use train_utils.Lcc.Datagram.Incoming.{handle_datagram, handle_frames}
use train_utils.Lcc.Datagram.Buffer.{IsValidResult, frames-handle-IsValid}
use train_utils.Lcc.Datagram.Fragments.{no_handlers}
use train_utils.Lcc.Datagram.Delivery.{Delivers, load_and_send-Delivers}
use train_utils.Lcc.Datagram.Answers.{busy_lem}

abbrev fine : CanFrame → ℕ
fine f = 0

abbrev asker : Context
unfolding new_context
asker = record new_context { node_alias = 0x123; write_function = some fine }

abbrev other : Context
unfolding new_context
other = record new_context { node_alias = 0x456; write_function = some fine }

abbrev idle : DatagramContext
unfolding datagram_context_new
idle = record datagram_context_new { received_set = true; ok_set = true; rejected_set = true }

abbrev twenty : List ℕ
twenty =
    0x20 ∷ 0x41 ∷ 0 ∷ 0 ∷ 0 ∷ 16 ∷ 64 ∷ 8 ∷ 9 ∷ 10 ∷ 11 ∷ 12 ∷ 13 ∷ 14 ∷ 15 ∷ 16 ∷ 17 ∷ 18 ∷ 19 ∷ 20
    ∷ []

load_and_send-Delivers_example :
    (fs : List CanFrame) × (load_and_send asker idle (some 5) (replicate 8 0) 0x456 twenty
      ≡ result ok idle (map written fs))
    × Delivers asker other idle fs twenty
unfolding asker other idle new_context datagram_context_new
load_and_send-Delivers_example =
    load_and_send-Delivers asker other (omega arith) (omega arith) (ground arith) (ground arith)
      idle idle (some 5) (replicate 8 0) twenty fine refl (omega arith) (omega arith) (omega arith)
      refl (λ f. refl) (record { size = refl; empty = refl; free = refl }) refl

-- A first frame for 0x456 from 0x123, and its length may be anything.
abbrev begins : CanFrame
begins = record { can_id = 0x1B456123; can_len = 200; bytes = 1 ∷ 2 ∷ 3 ∷ 4 ∷ 5 ∷ 6 ∷ 7 ∷ 8 ∷ [] }

-- A first frame of 8 bytes, a middle frame that fills the buffer up to its end, with a length that no
-- frame can have, and another that would go one byte past it.
abbrev filling : List CanFrame
filling =
    record begins { can_len = 8 }
    ∷ record begins { can_id = 0x1C456123; can_len = 64 }
    ∷ record begins { can_id = 0x1C456123; can_len = 1 }
    ∷ []

frames-handle-IsValid_example : IsValidResult (handle_frames no_handlers other idle filling)
unfolding idle datagram_context_new
frames-handle-IsValid_example =
    frames-handle-IsValid no_handlers other idle filling
      (record { size = refl; inside = omega arith })

abbrev busy : DatagramContext
unfolding datagram_context_new
busy = record datagram_context_new { offset = 8; handling = true }

busy_lem_example :
    (g : CanFrame) × (handle_datagram no_handlers other busy begins
      ≡ result ok busy (written g ∷ []))
    × (handle_datagram no_handlers asker idle g
        ≡ result ok (record idle { handling = false }) (rejected 0x456 0x2020 ∷ []))
unfolding asker other busy idle new_context datagram_context_new
busy_lem_example =
    busy_lem no_handlers other asker busy idle begins 3 fine (omega arith) (omega arith)
      (record { source = refl; type_of = refl; field_of = refl; message = refl }) (inr refl) refl
      refl refl (λ g. refl)
