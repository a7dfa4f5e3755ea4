-- ===== src/Lcc/Datagram/Incoming.antt =====
-- LCC/lcc-datagram.c: what lcc_handle_datagram does with a frame.
-- A node without a context for datagrams returns at once, which is left out.
-- The contexts for memory are a parameter: for each message, whether they handle it and what they do.
use train_utils.Common.{
  ℕ, Bool, true, false, not, ◌&&◌, ◌||◌, Option, none, some, List, [], ◌∷◌, ◌++◌, if◌then◌else◌,
  ltb, ◌==◌, ◌!=◌, get_or, take, bit_and, bit_or, shl, shr,
}
use train_utils.Lcc.Frame.{CanFrame}
use train_utils.Lcc.Node.{Context, ok}
use train_utils.Lcc.Datagram.{
  DatagramContext, Action, received, accepted, rejected, Result, result, no_function, append_bytes,
  respond_rejected,
}

-- What a memory context makes of a message, from the sender's alias, the buffer and the length: whether
-- it handles it, and what it does then.
abbrev pub Handled : Type 0
Handled = Bool × List Action

pub record RemoteMemory : Type 0 where
  pub try_handle : ℕ → List ℕ → ℕ → Handled
  pub handle_rx_ok : ℕ → ℕ → Handled
  pub handle_rejected : ℕ → ℕ → Handled

pub record Handlers : Type 0 where
  pub memory_context : Option (ℕ → List ℕ → ℕ → Handled)
  pub remote_memory_context : Option RemoteMemory

abbrev pub try_memory : Handlers → ℕ → List ℕ → ℕ → Handled
try_memory h source buffer len = elim h.memory_context [
  | none ↦ (false, [])
  | some m ↦ m source buffer len
]

abbrev pub try_remote : Handlers → Bool → ℕ → List ℕ → ℕ → Handled
try_remote h true source buffer len = (true, [])
try_remote h false source buffer len = elim h.remote_memory_context [
  | none ↦ (false, [])
  | some m ↦ m.try_handle source buffer len
]

abbrev pub prepend : List Action → Result → Result
prepend as_first no_function = no_function
prepend as_first (result s d later) = result s d (as_first ++ later)

abbrev pub reset : Result → Result
reset no_function = no_function
reset (result s d acts) = result ok (record d { offset = 0 }) acts

-- The last frame is in: the library or the client gets the datagram, or it is rejected.
unfoldable pub deliver : Handlers → Context → DatagramContext → ℕ → Result
deliver h c d source =
    let content = take d.offset d.buffer in
    let (by_memory, first) = try_memory h source d.buffer d.offset in
    let (handled, second) = try_remote h by_memory source d.buffer d.offset in
    reset (
      prepend (first ++ second) (
        if handled
        then result ok d []
        else if d.received_set
        then result ok d (received source content ∷ [])
        else respond_rejected c d source 0))

abbrev pub remote_rx_ok : Handlers → ℕ → ℕ → Handled
remote_rx_ok h source flags = elim h.remote_memory_context [
  | none ↦ (false, [])
  | some m ↦ m.handle_rx_ok source flags
]

abbrev pub remote_rejected : Handlers → ℕ → ℕ → Handled
remote_rejected h source code = elim h.remote_memory_context [
  | none ↦ (false, [])
  | some m ↦ m.handle_rejected source code
]

-- What the library does first; then the client is told if the library did not handle the answer.
abbrev pub answered : DatagramContext → Handled → Bool → Action → Result
answered d (handled, acts) is_set act =
    result ok d (acts ++ (if not handled && is_set then act ∷ [] else []))

-- An answer to a datagram that this node sent. Its destination is in the first two bytes.
unfoldable pub handle_response : Handlers → Context → DatagramContext → CanFrame → Result
handle_response h c d f =
    let mti = shr (bit_and f.can_id 0x00FFF000) 12 in
    let source = bit_and f.can_id 0xFFF in
    let dest = bit_or (shl (bit_and (get_or f.bytes 0 0) 0x0F) 8) (get_or f.bytes 1 0) in
    let flags : ℕ = if ltb 2 f.can_len then get_or f.bytes 2 0 else 0 in
    let code : ℕ =
      (if ltb 3 f.can_len then bit_or (shl (get_or f.bytes 2 0) 8) (get_or f.bytes 3 0) else 0) in
    if mti != 0xA28 && mti != 0xA48
    then result ok d []
    else if ltb f.can_len 2 || dest != c.node_alias
    then result ok d []
    else if mti == 0xA28
    then answered (record d { handling = false }) (remote_rx_ok h source flags) d.ok_set
        (accepted source flags)
    else answered (record d { handling = false }) (remote_rejected h source code) d.rejected_set
        (rejected source code)

abbrev pub then_response : Handlers → Context → CanFrame → Result → Result
then_response h c f no_function = no_function
then_response h c f (result s d acts) = prepend acts (handle_response h c d f)

abbrev pub still_handling : Result → Result
still_handling no_function = no_function
still_handling (result s d acts) = result s (record d { handling = true }) acts

unfoldable pub is_datagram_type : ℕ → Bool
is_datagram_type t = (t == 2) || (t == 3) || (t == 4) || (t == 5)

unfoldable pub take_frame : Handlers → Context → DatagramContext → CanFrame → ℕ → Result
take_frame h c d f type =
    let e = append_bytes (record d { handling = true }) f.bytes f.can_len in
    if (type == 5) || (type == 2)
    then deliver h c (record e { handling = false }) (bit_and f.can_id 0xFFF)
    else result ok e []

unfoldable pub handle_datagram : Handlers → Context → DatagramContext → CanFrame → Result
handle_datagram h c d f =
    let type = shr (bit_and f.can_id 0x07000000) 24 in
    let mti = shr (bit_and f.can_id 0x00FFF000) 12 in
    if not (is_datagram_type type)
    then handle_response h c d f
    else if mti != c.node_alias
    then result ok d []
    else if d.handling && ((type == 3) || (type == 2))
    then still_handling (respond_rejected c d (bit_and f.can_id 0xFFF) 0x2020)
    else then_response h c f (take_frame h c d f type)

-- Frames one after another; a write function that is NULL ends it.
abbrev pub and_then : Result → (DatagramContext → Result) → Result
and_then no_function next = no_function
and_then (result s d acts) next = prepend acts (next d)

unfoldable pub handle_frames : Handlers → Context → DatagramContext → List CanFrame → Result
handle_frames h c d [] = result ok d []
handle_frames h c d (f ∷ fs) = and_then (handle_datagram h c d f) (λ e. handle_frames h c e fs)
