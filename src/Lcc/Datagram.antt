-- ===== src/Lcc/Datagram.antt =====
-- LCC/lcc-datagram.c: datagrams of up to 72 bytes, sent in frames and put together again.
-- What the client's functions are told and the frames that are written come back in their order.
pub mod Incoming
mod Copying
pub mod Buffer
pub mod Fragments
pub mod Delivery
pub mod Answers
use train_utils.Common.{
  ℕ, zero, suc, ◌+◌, ◌-◌, ◌*◌, ◌/◌, ◌%◌, ◌^◌, ◌≤◌, Bool, true, false, not, ◌&&◌, ◌||◌, Option, none,
  some, List, [], ◌∷◌, ◌++◌, map, if◌then◌else◌, ltb, leb, ◌==◌, ◌!=◌, length, get_or, take, drop,
  replicate, write_from, bit_and, bit_or, shl, shr, u8, u16,
}
use train_utils.Lcc.Frame.{
  CanFrame, set_lcb_variable_field, set_lcb_can_frame_type, set_flags_and_dest_alias,
}
use train_utils.Lcc.Node.{
  Context, Status, ok, error_invalid_arg, error_tx, status_of, empty_frame, write_each,
}

-- `struct lcc_datagram_context` with its buffer. Of the client's functions there are flags that they
-- are not NULL.
pub record DatagramContext : Type 0 where
  pub offset : ℕ
  pub buffer : List ℕ
  pub received_set : Bool
  pub ok_set : Bool
  pub rejected_set : Bool
  pub handling : Bool

unfoldable pub datagram_context_new : DatagramContext
datagram_context_new = record {
  offset = 0;
  buffer = replicate 72 0;
  received_set = false;
  ok_set = false;
  rejected_set = false;
  handling = false;
}

unfoldable pub set_datagram_functions : DatagramContext → Bool → Bool → Bool → DatagramContext
set_datagram_functions d received accepted rejected = record d {
  received_set = received;
  ok_set = accepted;
  rejected_set = rejected;
}

unfoldable pub transfer_in_progress : DatagramContext → Bool
transfer_in_progress d = d.handling

-- The calls of the client's functions for memory, with the other node's alias.
pub data MemoryCall : Type 0 where
  update_complete : ℕ → MemoryCall
  reboot factory_reset : MemoryCall
  query_space : ℕ → ℕ → MemoryCall
  read_space : ℕ → ℕ → ℕ → ℕ → MemoryCall
  write_space : ℕ → ℕ → ℕ → List ℕ → MemoryCall
  firmware_start firmware_finished : MemoryCall
  firmware_data : ℕ → List ℕ → MemoryCall

-- The calls of the client's functions for the memory of other nodes, with the other node's alias; then
-- a space and an address, or flags, an error code, a message, and what is known of a space.
pub data RemoteCall : Type 0 where
  request_ok request_fail : ℕ → ℕ → RemoteCall
  remote_received : ℕ → ℕ → ℕ → List ℕ → RemoteCall
  read_rejected write_rejected : ℕ → ℕ → ℕ → ℕ → Option (List ℕ) → RemoteCall
  remote_info : ℕ → Bool → Bool → ℕ → ℕ → ℕ → RemoteCall
  remote_write_ok : ℕ → ℕ → ℕ → RemoteCall
  remote_update_complete : ℕ → RemoteCall

-- A frame that is written, or a call of the client with the other node's alias.
pub data Action : Type 0 where
  written : CanFrame → Action
  received : ℕ → List ℕ → Action
  accepted : ℕ → ℕ → Action
  rejected : ℕ → ℕ → Action
  called : MemoryCall → Action
  told : RemoteCall → Action

-- What a call comes to; `no_function` is a call of a write function that is NULL.
pub data Result : Type 0 where
  result : Status → DatagramContext → List Action → Result
  no_function : Result

unfoldable pub write_one : Context → DatagramContext → CanFrame → Result
write_one c d f = elim c.write_function [
  | none ↦ no_function
  | some write ↦ result (status_of (write f)) d (written f ∷ [])
]

-- An answer to another node, addressed in its data.
abbrev pub answer_frame : Context → ℕ → ℕ → CanFrame
answer_frame c mti alias =
    set_flags_and_dest_alias
      (set_lcb_can_frame_type (set_lcb_variable_field empty_frame c.node_alias mti) 1) 0 alias

unfoldable pub rxok_frame : Context → ℕ → ℕ → CanFrame
rxok_frame c alias flags =
    let f = answer_frame c 0xA28 alias in
    record f { can_len = 3; bytes = write_from f.bytes 2 (u8 flags ∷ []) }

unfoldable pub respond_rxok : Context → DatagramContext → ℕ → ℕ → Result
respond_rxok c d alias flags =
    write_one c (record d { handling = false }) (rxok_frame c alias flags)

unfoldable pub rejected_frame : Context → ℕ → ℕ → CanFrame
rejected_frame c alias code =
    let f = answer_frame c 0xA48 alias in
    record f {
      can_len = 4;
      bytes = write_from f.bytes 2 (shr (bit_and code 0xFF00) 8 ∷ bit_and code 0xFF ∷ []);
    }

unfoldable pub respond_rejected : Context → DatagramContext → ℕ → ℕ → Result
respond_rejected c d alias code =
    write_one c (record d { handling = false }) (rejected_frame c alias code)

-- One frame of a datagram. `held` is what the frame's bytes hold before: those past its length are
-- not written.
unfoldable pub datagram_frame : Context → ℕ → ℕ → List ℕ → List ℕ → CanFrame
datagram_frame c alias type held chunk =
    record (set_lcb_can_frame_type (set_lcb_variable_field empty_frame c.node_alias alias) type) {
      can_len = length chunk;
      bytes = write_from held 0 chunk;
    }

abbrev pub frame_type : ℕ → ℕ → ℕ
frame_type x packets = if x == 0 then 3 else if x == packets - 1 then 5 else 4

-- The frames from number `x` on, for `k` more, with the bytes that are left.
unfoldable pub frames_from : Context → ℕ → ℕ → ℕ → ℕ → List ℕ → List ℕ → List CanFrame
frames_from c alias packets zero x held rest = []
frames_from c alias packets (suc k) x held rest =
    let f = datagram_frame c alias (frame_type x packets) held (take 8 rest) in
    f ∷ frames_from c alias packets k (x + 1) f.bytes (drop 8 rest)

abbrev pub num_packets : ℕ → ℕ
num_packets n = if n % 8 != 0 then n / 8 + 1 else n / 8

unfoldable pub send_all : Context → DatagramContext → List CanFrame → Result
send_all c d fs = elim c.write_function [
  | none ↦ no_function
  | some write ↦ let (r, sent) = write_each write fs in result (status_of r) d (map written sent)
]

-- What the function for the room left tells, where there is one.
abbrev pub buffer_size : Option ℕ → ℕ
buffer_size none = 65535
buffer_size (some n) = u16 n

unfoldable pub load_and_send : Context → DatagramContext → Option ℕ → List ℕ → ℕ → List ℕ → Result
load_and_send c d room held alias content =
    let size = buffer_size room in
    let packets = num_packets (length content) in
    if ltb 72 (length content)
    then result error_invalid_arg d []
    else if size == 0
    then result error_tx d []
    else if leb (length content) 8
    then write_one c d (datagram_frame c alias 2 held content)
    else if ltb size packets
    then respond_rejected c d alias 0x2020
    else send_all c d (frames_from c alias packets packets 0 held content)

-- `memcpy` into an array: the bytes go to the place `i` and behind it, also past the end of the
-- array, which then makes the list longer than it.
unfoldable pub overwrite : List ℕ → ℕ → List ℕ → List ℕ
overwrite xs i bytes = take i xs ++ bytes ++ drop (i + length bytes) xs

-- `len` bytes from the start of an array; `memcpy` reads past its end too, and what stands there is
-- not known: it is taken to be zeros.
unfoldable pub copied : List ℕ → ℕ → List ℕ
copied content len = take len content ++ replicate (len - length content) 0

-- The bytes are dropped when there is no room for all of them. A frame's `can_len` is not looked at,
-- so `len` can be more than the 8 bytes of its data.
unfoldable pub append_bytes : DatagramContext → List ℕ → ℕ → DatagramContext
append_bytes d content len = if ltb 72 (d.offset + len) then d else record d {
  buffer = overwrite d.buffer d.offset (copied content len);
  offset = d.offset + len;
}
