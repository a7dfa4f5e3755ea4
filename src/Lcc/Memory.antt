-- ===== src/Lcc/Memory.antt =====
-- LCC/lcc-memory.c: the context for memory, and the replies of the memory protocol.
-- The configuration description is a function from addresses to bytes, in memory that can be read from
-- its beginning on; or with LCC_MEMORY_CDI_FLAG_CONTROL_STRUCT, the texts that the control structure
-- comes to when it is read, so a client that changes what it points to changes `cdi_strings` too. A
-- context that is NULL, and that flag with a structure that is NULL, are left out.
pub mod Made
pub mod OnDemand
pub mod Incoming
pub mod Read
pub mod Exchange
pub mod Stored
use train_utils.Common.{
  ℕ, zero, suc, ◌+◌, ◌-◌, ◌^◌, Bool, true, false, not, ◌&&◌, ◌||◌, Option, none, some, List, [],
  ◌∷◌, ◌++◌, if◌then◌else◌, ltb, ◌==◌, ◌!=◌, length, get_or, take, drop, bit_and, bit_or, shl, shr,
  u32,
}
use train_utils.Lcc.Frame.{CanFrame, to_bytes, or_bytes, uint32_from_data}
use train_utils.Lcc.Node.{Context, Status, ok, error_invalid_arg}
use train_utils.Lcc.Datagram.{
  DatagramContext, Action, written, called, MemoryCall, update_complete, reboot, factory_reset,
  query_space, read_space, write_space, Result, result, no_function, load_and_send, rxok_frame,
  rejected_frame,
}
use train_utils.Lcc.Datagram.Incoming.{Handled}
use train_utils.Lcc.Addressed.{SimpleInfo}
use train_utils.Lcc.Cdi.{Control, control_strings, xml_length}

-- What `lcc_datagram_load_and_send` needs besides the message: the room, and what a frame holds before.
pub record Line : Type 0 where
  pub datagram_context : DatagramContext
  pub room : Option ℕ
  pub held : List ℕ

abbrev pub send_reply : Context → Line → ℕ → List ℕ → Result
send_reply c l alias response = load_and_send c l.datagram_context l.room l.held alias response

-- The second byte of a reply, and the byte for a space that has no code of its own.
unfoldable pub space_code : ℕ → ℕ → ℕ
space_code base space =
    if space == 0xFD
    then base + 1
    else if space == 0xFE
    then base + 2
    else if space == 0xFF
    then base + 3
    else base

unfoldable pub space_byte : ℕ → List ℕ
space_byte space = if (space == 0xFD) || (space == 0xFE) || (space == 0xFF) then [] else space ∷ []

unfoldable pub reply_head : ℕ → ℕ → ℕ → List ℕ
reply_head base space address =
    0x20 ∷ space_code base space ∷ to_bytes 4 address ++ space_byte space

unfoldable pub respond_information_query : Context → Line → ℕ → Bool → ℕ → ℕ → ℕ → ℕ → Result
respond_information_query c l alias present space highest flags lowest =
    let low = bit_and flags 0x01 in
    send_reply c l alias (
      (0x20 ∷ (if present then 0x87 else 0x86) ∷ space ∷ to_bytes 4 highest)
      ++ (if lowest != 0 then bit_or low 2 ∷ to_bytes 4 lowest else low ∷ []))

unfoldable pub respond_write_reply_ok : Context → Line → ℕ → ℕ → ℕ → Result
respond_write_reply_ok c l alias space address =
    send_reply c l alias (reply_head 0x10 space address)

-- A message of more than 62 characters is left out.
unfoldable pub error_part : ℕ → Option (List ℕ) → List ℕ
error_part code message =
    shr (bit_and code 0xFF00) 8
    ∷ bit_and code 0x00FF
    ∷ elim message [ none ↦ [] | some m ↦ if ltb 62 (length m) then [] else m ]

unfoldable pub respond_write_reply_fail : Context → Line → ℕ → ℕ → ℕ → ℕ → Option (List ℕ) → Result
respond_write_reply_fail c l alias space address code message =
    send_reply c l alias (reply_head 0x18 space address ++ error_part code message)

unfoldable pub respond_read_reply_ok : Context → Line → ℕ → ℕ → ℕ → List ℕ → Result
respond_read_reply_ok c l alias space address content =
    if ltb 64 (length content)
    then result error_invalid_arg l.datagram_context []
    else send_reply c l alias (reply_head 0x50 space address ++ content)

unfoldable pub respond_read_reply_fail : Context → Line → ℕ → ℕ → ℕ → ℕ → Option (List ℕ) → Result
respond_read_reply_fail c l alias space address code message =
    send_reply c l alias (reply_head 0x58 space address ++ error_part code message)

-- `struct lcc_memory_context`. Of the client's functions there are flags that they are not NULL.
pub record MemoryContext : Type 0 where
  pub cdi_set : Bool
  pub cdi_data : ℕ → ℕ
  pub cdi_strings : Option (List (List ℕ))
  pub cdi_length : ℕ
  pub query_set : Bool
  pub read_set : Bool
  pub write_set : Bool
  pub reboot_set : Bool
  pub factory_reset_set : Bool
  pub update_complete_set : Bool

unfoldable pub memory_new : MemoryContext
memory_new = record {
  cdi_set = false;
  cdi_data = λ address. 0;
  cdi_strings = none;
  cdi_length = 0;
  query_set = false;
  read_set = false;
  write_set = false;
  reboot_set = false;
  factory_reset_set = false;
  update_complete_set = false;
}

unfoldable pub set_cdi : MemoryContext → Option (ℕ → ℕ) → ℕ → MemoryContext
set_cdi m none len = record m {
  cdi_set = false;
  cdi_data = λ address. 0;
  cdi_strings = none;
  cdi_length = len;
}
set_cdi m (some f) len = record m {
  cdi_set = true;
  cdi_data = f;
  cdi_strings = none;
  cdi_length = len;
}

-- With the flag for a control structure; `none` is the endless loop of its relations. The structure
-- takes the information of the node where it has none.
unfoldable pub set_cdi_control : MemoryContext → SimpleInfo → Control → Option MemoryContext
set_cdi_control m info control =
    elim (control_strings (elim control.simple_info [
      | none ↦ record control { simple_info = some info }
      | some i ↦ control
    ])) [
      | none ↦ none
      | some strings ↦
          some (record m {
            cdi_set = true;
            cdi_strings = some strings;
            cdi_length = xml_length strings;
          })
    ]

-- The functions that are set: to ask for a space, to read it and to write it; and one of the others.
unfoldable pub set_memory_functions : MemoryContext → Bool → Bool → Bool → MemoryContext
set_memory_functions m by_query by_read by_write = record m {
  query_set = by_query;
  read_set = by_read;
  write_set = by_write;
}

unfoldable pub set_reboot_function : MemoryContext → Bool → MemoryContext
set_reboot_function m is_set = record m { reboot_set = is_set }

unfoldable pub set_update_complete_function : MemoryContext → Bool → MemoryContext
set_update_complete_function m is_set = record m { update_complete_set = is_set }

unfoldable pub set_factory_reset_function : MemoryContext → Bool → MemoryContext
set_factory_reset_function m is_set = record m { factory_reset_set = is_set }
