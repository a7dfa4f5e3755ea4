-- ===== src/Lcc/Memory/Incoming.antt =====
-- LCC/lcc-memory.c: the messages of the memory protocol that come in.
-- The context for firmware is a parameter, which Lcc/Firmware fills. A context that is NULL, and a
-- write function that is NULL, are left out. Of a write that is shorter than its head the code makes a
-- negative length, and this the length 0. A description that is NULL is read too: what is there is
-- not known.
use train_utils.Common.{
  ℕ, ◌-◌, Bool, true, false, not, ◌&&◌, ◌||◌, Option, none, some, List, [], ◌∷◌, ◌++◌,
  if◌then◌else◌, ltb, ◌==◌, ◌!=◌, get_or, take, drop,
}
use train_utils.Lcc.Frame.{CanFrame, or_bytes, uint32_from_data}
use train_utils.Lcc.Node.{Context, ok}
use train_utils.Lcc.Datagram.{
  Action, written, called, update_complete, reboot, factory_reset, query_space, read_space,
  write_space, Result, result, no_function, rxok_frame, rejected_frame,
}
use train_utils.Lcc.Datagram.Incoming.{Handled}
use train_utils.Lcc.Memory.Made.{read_cdi, current_length}
use train_utils.Lcc.Memory.{Line, respond_information_query, respond_read_reply_ok, MemoryContext}

-- What the firmware context does, where a node has one.
pub record Firmware : Type 0 where
  pub freeze : ℕ → List Action
  pub unfreeze : ℕ → List Action
  pub incoming_write : ℕ → ℕ → List ℕ → List Action

-- A message is handled if the reply comes to 0; the answer before it goes out in any case.
abbrev pub handled_if_ok : CanFrame → Result → Handled
handled_if_ok f no_function = (false, written f ∷ [])
handled_if_ok f (result ok d acts) = (true, written f ∷ acts)
handled_if_ok f (result _ d acts) = (false, written f ∷ acts)

unfoldable pub handle_cdi_memory_space : MemoryContext → Context → Line → ℕ → Handled
handle_cdi_memory_space m c l alias =
    handled_if_ok (rxok_frame c alias 0x80)
      (respond_information_query c l alias true 0xFF (current_length m) 0 0)

unfoldable pub handle_read_cdi_space : MemoryContext → Context → Line → ℕ → List ℕ → ℕ → Handled
handle_read_cdi_space m c l alias buffer len =
    let code = get_or buffer 1 0 in
    let space : ℕ = if code == 0x43 then 0xFF else if code == 0x40 then get_or buffer 6 0 else 0 in
    let count = if code == 0x40 then get_or buffer 7 0 else get_or buffer 6 0 in
    let address = uint32_from_data (drop 2 buffer) in
    if ltb len 7 || ltb 8 len || (space != 0xFF)
    then (false, [])
    else handled_if_ok (rxok_frame c alias 0x80)
        (respond_read_reply_ok c l alias space address (read_cdi m address count))

unfoldable pub handle_reboot : MemoryContext → Handled
handle_reboot m = (false, if m.reboot_set then called reboot ∷ [] else [])

unfoldable pub handle_freeze_unfreeze : Option Firmware → ℕ → List ℕ → ℕ → Handled
handle_freeze_unfreeze none alias buffer len = (false, [])
handle_freeze_unfreeze (some w) alias buffer len =
    let code = get_or buffer 1 0 in
    if (len != 3) || (get_or buffer 2 0 != 0xEF)
    then (false, [])
    else if code == 0xA1
    then (true, w.freeze alias)
    else if code == 0xA0
    then (true, w.unfreeze alias)
    else (false, [])

unfoldable pub handle_factory_reset : MemoryContext → Context → List ℕ → ℕ → Handled
handle_factory_reset m c buffer len =
    let id = or_bytes 0 (take 6 (drop 2 buffer)) in
    if ltb len 8 then (false, []) else (
      false,
      if (c.unique_id == id) && m.factory_reset_set then called factory_reset ∷ [] else [],
    )

-- The space of a read or a write; `none` is a code that is not known.
unfoldable pub command_space : ℕ → List ℕ → Option (Bool × ℕ)
command_space code buffer =
    if code == 0x43
    then some (true, 0xFF)
    else if code == 0x42
    then some (true, 0xFE)
    else if code == 0x41
    then some (true, 0xFD)
    else if code == 0x40
    then some (true, get_or buffer 6 0)
    else if code == 0x01
    then some (false, 0xFD)
    else if code == 0x02
    then some (false, 0xFE)
    else if code == 0x03
    then some (false, 0xFF)
    else if code == 0x00
    then some (false, get_or buffer 6 0)
    else none

-- A read or a write that the client is asked for, or the rejection. The context for firmware gets the
-- writes to its space.
unfoldable pub handle_command :
    MemoryContext → Context → Option Firmware → ℕ → List ℕ → ℕ → Bool × ℕ → Handled
handle_command m c w alias buffer len (is_read, space) =
    let code = get_or buffer 1 0 in
    let address = uint32_from_data (drop 2 buffer) in
    let count = if code == 0x40 then get_or buffer 7 0 else get_or buffer 6 0 in
    let offset : ℕ = if (code == 0x40) || (code == 0x00) then 7 else 6 in
    let content = take (len - offset) (drop offset buffer) in
    let pending = written (rxok_frame c alias 0x80) in
    let plain : Handled =
      if is_read && m.read_set
      then (true, pending ∷ called (read_space alias space address count) ∷ [])
      else if not is_read && m.write_set
      then (true, pending ∷ called (write_space alias space address content) ∷ [])
      else (true, written (rejected_frame c alias 0) ∷ []) in
    elim w [
      | none ↦ plain
      | some v ↦
          if not is_read && (space == 0xEF)
          then (true, pending ∷ v.incoming_write alias address content)
          else plain
    ]

-- What was done before counts, whether or not it handled the message.
abbrev pub or_else : Handled → Handled → Handled
or_else (true, first) second = (true, first)
or_else (false, first) (handled, later) = (handled, first ++ later)

unfoldable pub handle_transfer :
    MemoryContext → Context → Line → Option Firmware → ℕ → List ℕ → ℕ → Handled
handle_transfer m c l w alias buffer len =
    if not (m.cdi_set || m.read_set || m.write_set)
    then (false, [])
    else or_else (handle_read_cdi_space m c l alias buffer len)
        (elim (command_space (get_or buffer 1 0) buffer) [
          | none ↦ (false, [])
          | some s ↦ handle_command m c w alias buffer len s
        ])

-- `query_fn` is called whether or not it is NULL. The writes of answers are not looked at.
unfoldable pub memory_try_handle_datagram :
    MemoryContext → Context → Line → Option Firmware → ℕ → List ℕ → ℕ → Handled
memory_try_handle_datagram m c l w alias buffer len =
    let code = get_or buffer 1 0 in
    let space = get_or buffer 2 0 in
    if ltb len 2 || (get_or buffer 0 0 != 0x20)
    then (false, [])
    else if code == 0xA8
    then (
      true,
      written (rxok_frame c alias 0)
          ∷ (if m.update_complete_set then called (update_complete alias) ∷ [] else []),
    )
    else if code == 0xA9
    then handle_reboot m
    else if code == 0xAA
    then handle_factory_reset m c buffer len
    else if (code == 0x84) && (space == 0xFF)
    then handle_cdi_memory_space m c l alias
    else if code == 0x84
    then (false, called (query_space alias space) ∷ [])
    else or_else (handle_freeze_unfreeze w alias buffer len)
        (handle_transfer m c l w alias buffer len)
