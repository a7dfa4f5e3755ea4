-- ===== src/Lcc/Frame.antt =====
-- LCC/lcc-common-internal.c: CAN frames, and the identifiers in their data.
pub mod Bytes
pub mod Fields
use train_utils.Common.{
  ℕ, zero, suc, ◌+◌, ◌-◌, ◌*◌, ◌^◌, Bool, true, false, Option, none, some, List, [], ◌∷◌, ◌++◌,
  if◌then◌else◌, ltb, ◌==◌, length, get_or, set, take, write_from, bit_and, bit_or, shl, shr, u8,
  u32,
}

-- `struct lcc_can_frame`, with 8 bytes of data.
pub record CanFrame : Type 0 where
  pub can_id : ℕ
  pub can_len : ℕ
  pub bytes : List ℕ

-- ~(1 << 27), as it acts on 32 bits.
abbrev pub not_bit_27 : ℕ
not_bit_27 = 2 ^ 32 - 1 - 2 ^ 27

-- The context matters for its alias alone, as 16 bits.
unfoldable pub set_lcb_variable_field : CanFrame → ℕ → ℕ → CanFrame
set_lcb_variable_field f alias field = record f {
  can_id =
      bit_or (bit_or (bit_or (2 ^ 28) (2 ^ 27)) (u32 (shl (u32 field) 12))) (bit_and alias 0xFFF);
}

-- A control frame: the field is set, and bit 27 is cleared.
unfoldable pub set_control_field : CanFrame → ℕ → ℕ → CanFrame
set_control_field f alias field =
    let g = set_lcb_variable_field f alias field in
    record g { can_id = bit_and g.can_id not_bit_27 }

unfoldable pub set_lcb_can_frame_type : CanFrame → ℕ → CanFrame
set_lcb_can_frame_type f type = record f { can_id = bit_or f.can_id (u32 (shl (u32 type) 24)) }

-- The byte of a number from bit `k` on: it is masked, then shifted.
unfoldable pub byte_at : ℕ → ℕ → ℕ
byte_at x k = shr (bit_and x (shl 0xFF k)) k

-- The last `n` bytes of a number, the most significant first; and the number that they make, each
-- byte put in its place by `|=` after those before it.
unfoldable pub to_bytes : ℕ → ℕ → List ℕ
to_bytes zero x = []
to_bytes (suc n) x = byte_at x (8 * n) ∷ to_bytes n x

unfoldable pub or_bytes : ℕ → List ℕ → ℕ
or_bytes x [] = x
or_bytes x (b ∷ bs) = or_bytes (bit_or x (shl b (8 * length bs))) bs

unfoldable pub set_nodeid_in_data : CanFrame → ℕ → CanFrame
set_nodeid_in_data f id = record f { can_len = 6; bytes = write_from f.bytes 0 (to_bytes 6 id) }

unfoldable pub get_node_id_from_data : CanFrame → ℕ
get_node_id_from_data f = or_bytes 0 (take 6 f.bytes)

unfoldable pub set_eventid_in_data : CanFrame → ℕ → CanFrame
set_eventid_in_data f id = record f { can_len = 8; bytes = write_from f.bytes 0 (to_bytes 8 id) }

unfoldable pub get_eventid_from_data : CanFrame → ℕ
get_eventid_from_data f = or_bytes 0 (take 8 f.bytes)

unfoldable pub uint32_from_data : List ℕ → ℕ
uint32_from_data array = or_bytes 0 (take 4 array)

unfoldable pub uint32_to_data : List ℕ → ℕ → List ℕ
uint32_to_data array x = write_from array 0 (to_bytes 4 x)

unfoldable pub event_id_to_array : ℕ → List ℕ → List ℕ
event_id_to_array id array = write_from array 0 (to_bytes 8 id)

unfoldable pub set_flags_and_dest_alias : CanFrame → ℕ → ℕ → CanFrame
set_flags_and_dest_alias f flag alias = record f {
  bytes =
      write_from f.bytes 0
        (u8 (bit_or (shl flag 4) (shr (bit_and alias 0xF00) 8)) ∷ bit_and alias 0xFF ∷ []);
}
