-- ===== src/Lcc/Addressed.antt =====
-- LCC/lcc-addressed.c: messages to one node; and the node's information that LCC/lcc.c keeps for them.
-- This is the build with arrays of their full size for the six strings. A string is its characters
-- before the last 0. A context or a frame that is NULL is left out.
pub mod Info
use train_utils.Common.{
  ℕ, zero, suc, ◌+◌, ◌/◌, ◌%◌, Bool, true, false, not, ◌&&◌, ◌||◌, Option, none, some, List, [],
  ◌∷◌, ◌++◌, if◌then◌else◌, ltb, ◌==◌, ◌!=◌, length, get_or, take, drop, write_from, bit_and,
  bit_or, shl, shr,
}
use train_utils.Lcc.Frame.{
  CanFrame, set_lcb_variable_field, set_lcb_can_frame_type, set_flags_and_dest_alias,
}
use train_utils.Lcc.Node.{
  Context, Status, ok, error_string_too_long, status_of, empty_frame, write_each,
}
use train_utils.Lcc.Simple.{
  Reaction, reaction, no_function, nothing, verified_frame, identify_events,
}

-- `struct lcc_simple_node_info`
pub record SimpleInfo : Type 0 where
  pub manufacturer_name : List ℕ
  pub model_name : List ℕ
  pub hw_version : List ℕ
  pub sw_version : List ℕ
  pub node_name : List ℕ
  pub node_description : List ℕ

abbrev or_empty : Option (List ℕ) → List ℕ
or_empty none = []
or_empty (some s) = s

unfoldable pub set_simple_node_information :
    SimpleInfo
    → Option (List ℕ)
    → Option (List ℕ)
    → Option (List ℕ)
    → Option (List ℕ)
    → Status × SimpleInfo
set_simple_node_information i manufacturer model hw sw =
    if ltb 40 (length (or_empty manufacturer))
      || ltb 40 (length (or_empty model))
      || ltb 20 (length (or_empty hw))
      || ltb 20 (length (or_empty sw))
    then (error_string_too_long, i)
    else (
      ok,
      record i {
        manufacturer_name = or_empty manufacturer;
        model_name = or_empty model;
        hw_version = or_empty hw;
        sw_version = or_empty sw;
      },
    )

-- Of a string that is NULL the code reads a byte; here both strings are there.
unfoldable pub set_simple_node_name_description : SimpleInfo → List ℕ → List ℕ → Status × SimpleInfo
set_simple_node_name_description i name description =
    if ltb 62 (length name) || ltb 63 (length description)
    then (error_string_too_long, i)
    else (ok, record i { node_name = name; node_description = description })

-- Which of the other contexts a node has; for firmware, whether an upgrade is in progress.
pub record Protocols : Type 0 where
  pub datagram_set : Bool
  pub memory_set : Bool
  pub upgrade_in_progress : Option Bool

unfoldable pub support_frame : Context → Protocols → ℕ → CanFrame
support_frame c p sender =
    let first = bit_or (bit_or 0x80 0x04) 0x02 in
    let with_datagram : ℕ = if p.datagram_set then bit_or first 0x40 else first in
    let second : ℕ = if p.memory_set then bit_or with_datagram 0x10 else with_datagram in
    let third : ℕ = if p.memory_set then bit_or 0x10 0x08 else 0x10 in
    let fourth : ℕ = elim p.upgrade_in_progress [
      | none ↦ 0
      | some active ↦ if active then bit_or 0 0x10 else bit_or 0 0x20
    ] in
    set_lcb_can_frame_type
      (set_lcb_variable_field
        (record empty_frame {
          can_len = 8;
          bytes =
              shr (bit_and sender 0xFF00) 8
              ∷ bit_and sender 0x00FF
              ∷ second
              ∷ third
              ∷ fourth
              ∷ 0
              ∷ 0
              ∷ 0
              ∷ [];
        })
        c.node_alias (bit_or 0x668 8))
      1

unfoldable pub with_end : List ℕ → List ℕ
with_end s = if length s == 0 then 0 ∷ [] else s ++ (0 ∷ [])

unfoldable pub info_data : SimpleInfo → List ℕ
info_data i =
    (4 ∷ [])
    ++ with_end i.manufacturer_name
    ++ with_end i.model_name
    ++ with_end i.hw_version
    ++ with_end i.sw_version
    ++ (2 ∷ [])
    ++ with_end i.node_name
    ++ with_end i.node_description

-- One frame of the information. `held` is the frame before: what is not written stays.
unfoldable pub info_frame : Context → ℕ → ℕ → CanFrame → List ℕ → CanFrame
info_frame c sender flag held chunk =
    let f =
      set_flags_and_dest_alias
        (set_lcb_can_frame_type (set_lcb_variable_field held c.node_alias 0xA08) 1) flag sender in
    record f { can_len = 2 + length chunk; bytes = write_from f.bytes 2 chunk }

-- The frames from number `x` on, for `k` more, with the bytes that are left of the `len`.
unfoldable pub info_frames : Context → ℕ → ℕ → ℕ → ℕ → CanFrame → List ℕ → List CanFrame
info_frames c sender len zero x held rest = []
info_frames c sender len (suc k) x held rest =
    let is_last = x == len / 6 in
    let flag : ℕ = if x == 0 then 1 else if is_last then 2 else 3 in
    let copied : ℕ = if x == 0 then 6 else if is_last then len % 6 else 6 in
    let f = info_frame c sender flag held (take copied rest) in
    f ∷ info_frames c sender len k (x + 1) f (drop 6 rest)

abbrev sends_each : Context → List CanFrame → Reaction
sends_each c fs = elim c.write_function [
  | none ↦ no_function
  | some write ↦ let (r, sent) = write_each write fs in reaction (status_of r) sent []
]

unfoldable pub handle_addressed : Context → Protocols → SimpleInfo → CanFrame → Reaction
handle_addressed c p i f =
    let alias = bit_or (shl (get_or f.bytes 0 0) 8) (get_or f.bytes 1 0) in
    let mti = shr (bit_and f.can_id 0x00FFF000) 12 in
    let sender = bit_and f.can_id 0xFFF in
    let len = length (info_data i) in
    if alias != c.node_alias
    then nothing
    else if mti == 0x488
    then sends_each c (verified_frame c ∷ [])
    else if mti == 0x828
    then sends_each c (support_frame c p sender ∷ [])
    else if mti == 0xDE8
    then sends_each c (info_frames c sender len (len / 6 + 1) 0 empty_frame (info_data i))
    else if mti == 0x968
    then identify_events c
    else nothing
