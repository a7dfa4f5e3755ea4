-- ===== src/Lcc/Context.antt =====
-- LCC/lcc.c: how a node comes to hold an alias on the bus, and what it does with a frame first.
pub mod Alias
pub mod Invariant
pub mod Collision
use train_utils.Common.{
  ℕ, zero, suc, ◌+◌, ◌-◌, ◌*◌, ◌%◌, ◌^◌, Bool, true, false, not, ◌&&◌, ◌||◌, Option, none, some,
  List, [], ◌∷◌, ◌++◌, if◌then◌else◌, ltb, leb, ◌==◌, ◌!=◌, bit_and, bit_or, has_bits, shl, shr,
  u16, u32, replicate,
}
use train_utils.Lcc.Frame.{
  CanFrame, set_lcb_variable_field, set_control_field, set_lcb_can_frame_type, set_nodeid_in_data,
  get_node_id_from_data, set_eventid_in_data,
}
use train_utils.Lcc.Node.{
  AliasState, not_set, sent_cid, fail, good, NodeState, inhibited, permitted, Status, ok,
  error_invalid_arg, error_unique_id_not_set, error_alias_set, error_alias_failure,
  error_alias_tx_not_empty, write_error, Context, new_context, Outcome, returned, null_call,
  empty_frame, set_write_function, set_unique_identifer, write_each, send_events_produced,
  send_events_consumed,
}

-- The alias that is tried next: from the identifier at first, then one more.
unfoldable pub first_alias : ℕ → ℕ
first_alias id = bit_and (u32 (bit_and id 0xFFF * 1103515245 + 12345)) 0xFFF

unfoldable pub next_alias : Context → ℕ
next_alias c =
    let tried = if c.node_alias == 0 then first_alias c.unique_id else c.node_alias + 1 in
    let in_range : ℕ = if tried == 0xFFF then 1 else tried in if in_range == 0 then 1 else in_range

-- The CID frame of the 12 bits from `shift` on, with frame number `n`.
unfoldable pub cid_frame : Context → ℕ → ℕ → CanFrame
cid_frame c shift n =
    set_control_field empty_frame c.node_alias
      (bit_or (shr (bit_and c.unique_id (shl 0xFFF shift)) shift) (shl n 12))

unfoldable pub cid_frames : Context → List CanFrame
cid_frames c = cid_frame c 36 7 ∷ cid_frame c 24 6 ∷ cid_frame c 12 5 ∷ cid_frame c 0 4 ∷ []

abbrev pub is_alias_state : AliasState → AliasState → Bool
is_alias_state not_set not_set = true
is_alias_state sent_cid sent_cid = true
is_alias_state fail fail = true
is_alias_state good good = true
is_alias_state _ _ = false

unfoldable pub send_cid : Context → (CanFrame → ℕ) → Outcome
send_cid c write =
    let (r, sent) = write_each write (cid_frames c) in
    if r == 0
    then returned ok (record c { node_alias_state = sent_cid }) sent
    else returned (write_error r) c sent

unfoldable pub generate_alias : Context → Outcome
generate_alias c =
    if c.unique_id == 0
    then returned error_unique_id_not_set c []
    else if is_alias_state c.node_alias_state good
    then returned error_alias_set c []
    else elim c.write_function [
      | none ↦ null_call
      | some write ↦ send_cid (record c { node_alias = next_alias c }) write
    ]

unfoldable pub rid_frame : Context → CanFrame
rid_frame c = set_control_field empty_frame c.node_alias 0x700

unfoldable pub amd_frame : Context → CanFrame
amd_frame c = set_nodeid_in_data (set_control_field empty_frame c.node_alias 0x701) c.unique_id

unfoldable pub initialized_frame : Context → CanFrame
initialized_frame c =
    set_nodeid_in_data
      (set_lcb_can_frame_type (set_lcb_variable_field empty_frame c.node_alias 0x100) 1) c.unique_id

-- The results of the first three writes are not looked at.
unfoldable pub claim : Context → Outcome
claim c =
    let e = record c { node_alias_state = good; state = permitted } in
    elim c.write_function [
      | none ↦ null_call
      | some write ↦ returned ok e (
          rid_frame e ∷ amd_frame e ∷ initialized_frame e ∷ (send_events_produced e write).1
          ++ (send_events_consumed e write).1)
    ]

unfoldable pub claim_alias : Context → ℕ → Outcome
claim_alias c room =
    if not (is_alias_state c.node_alias_state sent_cid)
    then returned error_alias_failure c []
    else if c.write_buffer_avail_set && ltb room c.write_buffer_size
    then returned error_alias_tx_not_empty c []
    else claim c

abbrev pub is_permitted : NodeState → Bool
is_permitted permitted = true
is_permitted inhibited = false

-- Two parts of the code answer with frames: what is left of the context, and what they write.
pub data Reply : Type 0 where
  reply : Context → List CanFrame → Reply
  null_write : Reply

abbrev pub with_write : Option (CanFrame → ℕ) → Reply → Reply
with_write none r = null_write
with_write (some write) r = r

abbrev pub answer : Context → List CanFrame → Reply
answer c [] = reply c []
answer c (f ∷ fs) = with_write c.write_function (reply c (f ∷ fs))

-- The frame number is read whether or not bit 27 says that it is a control frame.
unfoldable pub check_collision : Context → CanFrame → Reply
check_collision c f =
    if bit_and f.can_id 0xFFF != c.node_alias
    then reply c []
    else if leb 4 (bit_and (shr f.can_id 24) 7)
    then answer c (rid_frame c ∷ [])
    else if not (is_permitted c.state)
    then reply (record c { node_alias_state = fail }) []
    else reply c []

unfoldable pub handle_control_frame : Context → CanFrame → Reply
handle_control_frame c f =
    let id : ℕ = if f.can_len == 6 then get_node_id_from_data f else 0 in
    if shr (bit_and f.can_id 0x00FFF000) 12 != 0x702
    then reply c []
    else if not (is_permitted c.state)
    then reply c []
    else answer c (
        (if id == c.unique_id then amd_frame c ∷ [] else [])
        ++ (if f.can_len == 0 then amd_frame c ∷ [] else []))

-- Who gets a frame that is not a control frame.
pub data Handler : Type 0 where
  nobody datagram simple addressed : Handler

unfoldable pub is_datagram_frame : CanFrame → Bool
is_datagram_frame f =
    let type = shr (bit_and f.can_id 0x07000000) 24 in
    let mti = shr (bit_and f.can_id 0x00FFF000) 12 in
    (leb 2 type && leb type 5) || (mti == 0xA28) || (mti == 0xA48)

unfoldable pub handler : CanFrame → Handler
handler f =
    let mti = shr (bit_and f.can_id 0x00FFF000) 12 in
    if is_datagram_frame f
    then datagram
    else if has_bits mti 16
    then simple
    else if has_bits mti 8
    then addressed
    else nobody

pub data Incoming : Type 0 where
  done : Reply → Incoming
  passed_on : Handler → Context → List CanFrame → Incoming

abbrev pub after : List CanFrame → Reply → Reply
after es (reply c fs) = reply c (es ++ fs)
after es null_write = null_write

abbrev pub dispatch : CanFrame → Reply → Incoming
dispatch f null_write = done null_write
dispatch f (reply c es) =
    if not (is_permitted c.state)
    then done (reply c es)
    else if bit_and f.can_id 0x08000000 == 0
    then done (after es (handle_control_frame c f))
    else passed_on (handler f) c es

unfoldable pub incoming_frame : Context → CanFrame → Incoming
incoming_frame c f = dispatch f (check_collision c f)
