-- ===== src/Lcc/Remote.antt =====
-- LCC/lcc-remote-memory.c: requests to the memory of other nodes, one at a time.
-- A context and data that are NULL, and a write function that is NULL, are left out; a count is not
-- negative. The text of a rejection is all of its bytes, where the code ends it with a zero.
pub mod Answers
pub mod Replies
pub mod Requests
pub mod Heard
pub mod Waiting
use train_utils.Common.{
  ℕ, zero, suc, ◌+◌, ◌-◌, ◌^◌, Bool, true, false, not, ◌&&◌, ◌||◌, Option, none, some, List, [],
  ◌∷◌, ◌++◌, if◌then◌else◌, ltb, leb, ◌==◌, ◌!=◌, length, get_or, take, drop, replicate, bit_and,
  bit_or, has_bits, shl,
}
use train_utils.Lcc.Frame.{to_bytes, uint32_from_data}
use train_utils.Lcc.Node.{
  Context, Status, ok, error_invalid_arg, error_datagram_in_progress, error_memory_tx_in_progress,
}
use train_utils.Lcc.Datagram.{
  DatagramContext, transfer_in_progress, Action, written, told, RemoteCall, request_ok,
  request_fail, remote_received, read_rejected, write_rejected, remote_info, remote_write_ok,
  remote_update_complete, Result, result, rxok_frame,
}
use train_utils.Lcc.Datagram.Incoming.{Handled, RemoteMemory}
use train_utils.Lcc.Memory.{Line, reply_head, send_reply}

-- `struct lcc_remote_memory_context`; of the client's functions there are flags that they are not
-- NULL, and an alias of 0 is no request.
pub record RemoteContext : Type 0 where
  pub request_ok_set : Bool
  pub request_fail_set : Bool
  pub received_set : Bool
  pub read_rejected_set : Bool
  pub info_set : Bool
  pub write_ok_set : Bool
  pub write_rejected_set : Bool
  pub update_complete_set : Bool
  pub requesting_alias : ℕ
  pub is_update_complete : Bool
  pub is_write : Bool
  pub write_space : ℕ
  pub write_address : ℕ

unfoldable pub remote_memory_new : RemoteContext
remote_memory_new = record {
  request_ok_set = false;
  request_fail_set = false;
  received_set = false;
  read_rejected_set = false;
  info_set = false;
  write_ok_set = false;
  write_rejected_set = false;
  update_complete_set = false;
  requesting_alias = 0;
  is_update_complete = false;
  is_write = false;
  write_space = 0;
  write_address = 0;
}

abbrev pub closed : RemoteContext → RemoteContext
closed r = record r { requesting_alias = 0; is_update_complete = false; is_write = false }

-- Whether another request or a datagram is under way.
abbrev pub refusal : RemoteContext → Line → Option Status
refusal r l =
    if r.requesting_alias != 0
    then some error_memory_tx_in_progress
    else if transfer_in_progress l.datagram_context
    then some error_datagram_in_progress
    else none

abbrev pub refused : RemoteContext → Line → Status → RemoteContext × Result
refused r l s = (r, result s l.datagram_context [])

-- A request, unless it is refused.
abbrev pub unless :
    RemoteContext → Line → Option Status → RemoteContext × Result → RemoteContext × Result
unless r l (some s) asked = refused r l s
unless r l none asked = asked

unfoldable pub read_single_transfer :
    Context → Line → RemoteContext → ℕ → ℕ → ℕ → ℕ → RemoteContext × Result
read_single_transfer c l r alias space address count =
    let asking = record r {
      requesting_alias = alias;
      is_write = false;
      is_update_complete = false;
    } in
    let cleared = record l {
      datagram_context = record l.datagram_context { buffer = replicate 72 0 };
    } in
    unless r l (refusal r l) (
      if ltb 64 count then refused r l error_invalid_arg else (
        asking,
        send_reply c cleared alias (reply_head 0x40 space address ++ bit_and count 0xFF ∷ []),
      ))

unfoldable pub write_single_transfer :
    Context → Line → RemoteContext → ℕ → ℕ → ℕ → List ℕ → RemoteContext × Result
write_single_transfer c l r alias space address content =
    let asking = record r {
      requesting_alias = alias;
      is_write = true;
      is_update_complete = false;
      write_space = space;
      write_address = address;
    } in
    if ltb (length content) 1 || ltb 64 (length content)
    then refused r l error_invalid_arg
    else unless r l (refusal r l)
        (asking, send_reply c l alias (reply_head 0x00 space address ++ content))

unfoldable pub update_complete_request : Context → Line → RemoteContext → ℕ → RemoteContext × Result
update_complete_request c l r alias =
    let asking = record r {
      requesting_alias = alias;
      is_write = false;
      is_update_complete = true;
    } in
    unless r l (refusal r l) (asking, send_reply c l alias (0x20 ∷ 0xA8 ∷ []))

-- It does not look at a request that is under way.
unfoldable pub get_address_space_information :
    Context → Line → RemoteContext → ℕ → ℕ → RemoteContext × Result
get_address_space_information c l r alias space = (
  record r { requesting_alias = alias; is_write = false; is_update_complete = false },
  send_reply c l alias (0x20 ∷ 0x84 ∷ space ∷ []),
)

-- What the second byte of a message says, and the space.
pub record Reply : Type 0 where
  pub failure : Bool
  pub write_reply : Bool
  pub response : Bool
  pub start : ℕ
  pub space : ℕ

abbrev pub read_kind : ℕ → ℕ → Option Reply
read_kind start space = some (record {
  failure = false;
  write_reply = false;
  response = false;
  start = start;
  space = space;
})

abbrev pub failure_kind : Bool → ℕ → ℕ → Option Reply
failure_kind write start space =
    some (record {
      failure = true;
      write_reply = write;
      response = false;
      start = start;
      space = space;
    })

abbrev pub write_kind : ℕ → Option Reply
write_kind space =
    some
      (record { failure = false; write_reply = true; response = false; start = 6; space = space })

unfoldable pub reply_of : ℕ → ℕ → Option Reply
reply_of code generic =
    if code == 0x50
    then read_kind 7 generic
    else if code == 0x51
    then read_kind 6 0xFD
    else if code == 0x52
    then read_kind 6 0xFE
    else if code == 0x53
    then read_kind 6 0xFF
    else if code == 0x58
    then failure_kind false 7 generic
    else if code == 0x59
    then failure_kind false 6 0xFD
    else if code == 0x5A
    then failure_kind false 6 0xFE
    else if code == 0x5B
    then failure_kind false 6 0xFF
    else if code == 0x10
    then write_kind generic
    else if code == 0x11
    then write_kind 0xFD
    else if code == 0x12
    then write_kind 0xFE
    else if code == 0x13
    then write_kind 0xFF
    else if code == 0x18
    then failure_kind true 7 generic
    else if code == 0x19
    then failure_kind true 6 0xFD
    else if code == 0x1A
    then failure_kind true 6 0xFE
    else if code == 0x1B
    then failure_kind true 6 0xFF
    else if (code == 0x86) || (code == 0x87)
    then some
        (record { failure = false; write_reply = false; response = true; start = 6; space = 0 })
    else none

-- A call of a function of the client, where it is set.
abbrev pub tell : Bool → RemoteCall → List Action
tell is_set call = if is_set then told call ∷ [] else []

abbrev pub error_code_of : List ℕ → ℕ → ℕ → ℕ
error_code_of buffer len start =
    if leb (start + 2) len
    then bit_or (shl (get_or buffer start 0) 8) (get_or buffer (start + 1) 0)
    else 0

abbrev pub message_of : List ℕ → ℕ → ℕ → Option (List ℕ)
message_of buffer len start =
    if ltb (start + 2) len then some (take (len - (start + 2)) (drop (start + 2) buffer)) else none

abbrev pub info_call : ℕ → List ℕ → ℕ → RemoteCall
info_call alias buffer len =
    let lowest =
      if has_bits (get_or buffer 7 0) 2 && leb 12 len
      then uint32_from_data (drop 8 buffer)
      else 0 in
    remote_info alias (get_or buffer 1 0 == 0x87) (has_bits (get_or buffer 7 0) 1)
      (get_or buffer 2 0) lowest (uint32_from_data (drop 3 buffer))

-- The call that a message leads to. The length of the bytes of a read is `data_len` less where they
-- start, as an `int`: for a reply that is shorter than its head the code hands the client a negative
-- length, and the call here has no bytes.
unfoldable pub reply_calls : RemoteContext → ℕ → List ℕ → ℕ → Reply → List Action
reply_calls r alias buffer len k =
    let address = uint32_from_data (drop 2 buffer) in
    let code = error_code_of buffer len k.start in
    let message = message_of buffer len k.start in
    if k.failure
    then (if k.write_reply
        then tell r.write_rejected_set (write_rejected alias k.space address code message)
        else tell r.read_rejected_set (read_rejected alias k.space address code message))
    else if k.write_reply
    then tell r.write_ok_set (remote_write_ok alias k.space address)
    else if k.response
    then tell r.info_set (info_call alias buffer len)
    else tell r.received_set
        (remote_received alias k.space address (take (len - k.start) (drop k.start buffer)))

abbrev pub handle_reply :
    Context → RemoteContext → ℕ → List ℕ → ℕ → Option Reply → RemoteContext × Handled
handle_reply c r alias buffer len none = (r, (false, []))
handle_reply c r alias buffer len (some k) =
    (closed r, (true, reply_calls r alias buffer len k ++ written (rxok_frame c alias 0) ∷ []))

unfoldable pub remote_try_handle_datagram :
    Context → RemoteContext → ℕ → List ℕ → ℕ → RemoteContext × Handled
remote_try_handle_datagram c r alias buffer len =
    if ltb len 2 || (get_or buffer 0 0 != 0x20)
    then (r, (false, []))
    else if alias != r.requesting_alias
    then (r, (false, []))
    else handle_reply c r alias buffer len (reply_of (get_or buffer 1 0) (get_or buffer 6 0))

-- A write that is accepted with no reply pending is done, and so is the end of an update.
unfoldable pub remote_handle_rx_ok : RemoteContext → ℕ → ℕ → RemoteContext × Handled
remote_handle_rx_ok r alias flags =
    let accepted = tell r.request_ok_set (request_ok alias flags) in
    if alias != r.requesting_alias
    then (r, (false, []))
    else if r.is_write && not (has_bits flags 0x80)
    then (
      record r { requesting_alias = 0; is_write = false },
      (true, accepted ++ tell r.write_ok_set (remote_write_ok alias r.write_space r.write_address)),
    )
    else if r.is_update_complete
    then (
      record r { requesting_alias = 0; is_update_complete = false },
      (true, accepted ++ tell r.update_complete_set (remote_update_complete alias)),
    )
    else (r, (true, accepted))

unfoldable pub remote_handle_rejected : RemoteContext → ℕ → ℕ → RemoteContext × Handled
remote_handle_rejected r alias code =
    if alias != r.requesting_alias
    then (r, (false, []))
    else (closed r, (true, tell r.request_fail_set (request_fail alias code)))

unfoldable pub cancel_request : RemoteContext → RemoteContext
cancel_request r = closed r

unfoldable pub current_alias_request : RemoteContext → ℕ
current_alias_request r = r.requesting_alias

unfoldable pub set_remote_functions :
    RemoteContext → Bool → Bool → Bool → Bool → Bool → RemoteContext
set_remote_functions r accepts fails receives rejects informs = record r {
  request_ok_set = accepts;
  request_fail_set = fails;
  received_set = receives;
  read_rejected_set = rejects;
  info_set = informs;
}

unfoldable pub set_write_functions : RemoteContext → Bool → Bool → RemoteContext
set_write_functions r writes rejects = record r {
  write_ok_set = writes;
  write_rejected_set = rejects;
}

unfoldable pub set_remote_update_complete_function : RemoteContext → Bool → RemoteContext
set_remote_update_complete_function r is_set = record r { update_complete_set = is_set }

-- The context as the handler of datagrams calls it.
abbrev pub remote_handlers : Context → RemoteContext → RemoteMemory
remote_handlers c r = record {
  try_handle = λ alias buffer len. (remote_try_handle_datagram c r alias buffer len).1;
  handle_rx_ok = λ alias flags. (remote_handle_rx_ok r alias flags).1;
  handle_rejected = λ alias code. (remote_handle_rejected r alias code).1;
}
