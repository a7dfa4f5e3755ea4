-- ===== src/Lcc/Firmware.antt =====
-- LCC/lcc-firmware-upgrade.c: an upgrade of a node's firmware over the memory protocol.
-- What the client does in its function for incoming data is a function: whether it calls
-- `lcc_firmware_write_ok`, `lcc_firmware_write_error` or neither. A context that is NULL is left out.
pub mod Write
use train_utils.Common.{
  ℕ, Bool, true, false, not, ◌&&◌, Option, none, some, List, [], ◌∷◌, ◌++◌, if◌then◌else◌, ◌==◌,
}
use train_utils.Lcc.Frame.{CanFrame}
use train_utils.Lcc.Node.{Context, Status, ok, error_invalid_arg, error_invalid_program_state}
use train_utils.Lcc.Context.{initialized_frame}
use train_utils.Lcc.Datagram.{
  Action, written, called, MemoryCall, firmware_start, firmware_finished, firmware_data, Result,
  result, no_function, rxok_frame,
}
use train_utils.Lcc.Memory.{Line, respond_write_reply_ok, respond_write_reply_fail}
use train_utils.Lcc.Memory.Incoming.{Firmware}

-- `struct lcc_firmware_upgrade_context`; its three functions are set together.
pub record FirmwareContext : Type 0 where
  pub upgrade_in_progress : Bool
  pub calling_write_cb : Bool
  pub functions_set : Bool
  pub alias : ℕ
  pub addr : ℕ

unfoldable pub firmware_new : FirmwareContext
firmware_new = record {
  upgrade_in_progress = false;
  calling_write_cb = false;
  functions_set = false;
  alias = 0;
  addr = 0;
}

-- The flags say which of the three functions are not NULL.
unfoldable pub set_firmware_functions :
    FirmwareContext → Bool → Bool → Bool → Status × FirmwareContext
set_firmware_functions f start incoming finished =
    if start && incoming && finished
    then (ok, record f { functions_set = true })
    else (error_invalid_arg, f)

-- The answer, then the message that the node is initialized, and the call.
unfoldable pub announce : Context → (CanFrame → ℕ) → FirmwareContext → ℕ → MemoryCall → List Action
announce c write f source call =
    let answer = rxok_frame c source 0 in
    if write answer == 0
    then written answer
      ∷ written (initialized_frame c)
      ∷ (if f.functions_set then called call ∷ [] else [])
    else written answer ∷ []

unfoldable pub freeze :
    Context → (CanFrame → ℕ) → FirmwareContext → ℕ → FirmwareContext × List Action
freeze c write f source =
    (record f { upgrade_in_progress = true }, announce c write f source firmware_start)

unfoldable pub unfreeze :
    Context → (CanFrame → ℕ) → FirmwareContext → ℕ → FirmwareContext × List Action
unfreeze c write f source =
    (record f { upgrade_in_progress = false }, announce c write f source firmware_finished)

unfoldable pub firmware_write_ok : Context → Line → FirmwareContext → Result
firmware_write_ok c l f =
    if f.calling_write_cb
    then respond_write_reply_ok c l f.alias 0xEF f.addr
    else result error_invalid_program_state l.datagram_context []

unfoldable pub firmware_write_error :
    Context → Line → FirmwareContext → ℕ → Option (List ℕ) → Result
firmware_write_error c l f code message =
    if f.calling_write_cb
    then respond_write_reply_fail c l f.alias 0xEF f.addr code message
    else result error_invalid_program_state l.datagram_context []

pub data WriteAnswer : Type 0 where
  write_ok no_answer : WriteAnswer
  write_error_code : ℕ → Option (List ℕ) → WriteAnswer

abbrev pub actions : Result → List Action
actions no_function = []
actions (result s d acts) = acts

abbrev pub answers : Context → Line → FirmwareContext → WriteAnswer → List Action
answers c l f write_ok = actions (firmware_write_ok c l f)
answers c l f no_answer = []
answers c l f (write_error_code code message) = actions (firmware_write_error c l f code message)

unfoldable pub firmware_incoming_write :
    Context
    → Line
    → (ℕ → List ℕ → WriteAnswer)
    → FirmwareContext
    → ℕ
    → ℕ
    → List ℕ
    → FirmwareContext × List Action
firmware_incoming_write c l client f source address content =
    let g : FirmwareContext = record f {
      addr = address;
      alias = source;
      calling_write_cb = true;
    } in
    if not f.functions_set then (f, []) else (
      record g { calling_write_cb = false },
      called (firmware_data address content) ∷ answers c l g (client address content),
    )

-- The firmware context as the memory handler calls it.
abbrev pub firmware_handlers :
    Context → (CanFrame → ℕ) → Line → (ℕ → List ℕ → WriteAnswer) → FirmwareContext → Firmware
firmware_handlers c write l client f = record {
  freeze = λ source. (freeze c write f source).1;
  unfreeze = λ source. (unfreeze c write f source).1;
  incoming_write =
      λ source address content. (firmware_incoming_write c l client f source address content).1;
}
