-- ===== src/Lcc/Memory/Stored.antt =====
-- LCC/lcc-memory.c: a description made on demand, against the same text in memory.
use train_utils.Common.{
  ℕ, ◌+◌, ◌^◌, ◌≤◌, ◌<◌, ◌≡◌, sym, ap, ◌∙◌, false, not, ◌||◌, none, some, Option, List, [], get_or,
  if◌then◌else◌,
}
use train_utils.Lcc.Node.{Context}
use train_utils.Lcc.Datagram.{rxok_frame}
use train_utils.Lcc.Datagram.Incoming.{Handled}
use train_utils.Lcc.Memory.{Line, MemoryContext, respond_read_reply_ok}
use train_utils.Lcc.Memory.OnDemand.{stored, read_cdi-stored}
use train_utils.Lcc.Memory.Incoming.{
  Firmware, handled_if_ok, or_else, handle_transfer, handle_command, command_space,
  memory_try_handle_datagram,
}
use train_utils.Lcc.Memory.Read.{request, to_transfer, read_taken}

-- A node with a description that is made on demand does with a read of up to 64 bytes, which ends
-- within the addresses of 32 bits, just what a node does that has the whole text in memory, followed
-- by zeros.
pub read-stored :
    (m : MemoryContext) (c : Context) (l : Line) (w : Option Firmware) (alias address n : ℕ)
    (rest : List ℕ) (strings : List (List ℕ))
    → m.cdi_strings ≡ some strings
    → n ≤ 64
    → address < 2 ^ 32
    → address + n ≤ 2 ^ 32
    → memory_try_handle_datagram m c l w alias (request address n rest) 7
      ≡ memory_try_handle_datagram (stored m strings) c l w alias (request address n rest) 7
unfolding handle_transfer handle_command command_space
read-stored m c l w alias address n rest strings made few small within =
    to_transfer m c l w alias address n rest
    ∙ ap (λ r. transferred r)
        (read_taken m c l alias address n rest small
          ∙ ap
              (λ b.
                handled_if_ok (rxok_frame c alias 0x80)
                  (respond_read_reply_ok c l alias 0xFF address b))
              (read_cdi-stored m strings address n made few within)
          ∙ sym (read_taken (stored m strings) c l alias address n rest small))
    ∙ sym (to_transfer (stored m strings) c l w alias address n rest)
  where
    transferred : Handled → Handled
    transferred r =
        if not (m.cdi_set || m.read_set || m.write_set)
        then (false, [])
        else or_else r
            (elim (command_space (get_or (request address n rest) 1 0) (request address n rest)) [
              | none ↦ (false, [])
              | some s ↦ handle_command m c w alias (request address n rest) 7 s
            ])
