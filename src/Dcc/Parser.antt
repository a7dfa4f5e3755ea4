-- ===== src/Dcc/Parser.antt =====
-- DCC/dcc-packet-parser.c: what a packet says, as the callbacks that it makes.
-- A callback is a client's function: a flag says that it is set, and a call of it is an `Event`.
pub mod Accessory
pub mod Speed
pub mod Setup
use train_utils.Common.{
  ℕ, ◌+◌, ◌-◌, bit_and, bit_or, Bool, false, ◌&&◌, Option, none, some, List, [], ◌∷◌, ◌++◌,
  if◌then◌else◌, ltb, leb, ◌==◌, ◌!=◌, get_or, u8, u16, u32, sub32, shl, shr, has_bits,
}

-- The `DCC_DECODER_*` codes of DCC/dcc-decoder.h; `packet_ready` is the 1 of a complete packet.
pub data Status : Type 0 where
  ok packet_ready : Status
  error_generic error_bit_timing error_invalid_packet error_invalid_arg : Status

-- `enum dcc_decoder_direction` and `enum dcc_accessory_direction`
pub data Direction : Type 0 where
  forward reverse : Direction

-- ACCESSORY_NORMAL and ACCESSORY_REVERSE
pub data AccessoryDirection : Type 0 where
  normal reverse : AccessoryDirection

pub data Event : Type 0 where
  incoming_speed_dir : Direction → ℕ → Event
  incoming_estop : Event
  incoming_accessory : ℕ → AccessoryDirection → Event
  incoming_packet : List ℕ → ℕ → Event

-- `struct dcc_packet_parser`; the three flags tell which function pointers are not NULL.
pub record PacketParser : Type 0 where
  pub short_addr : ℕ
  pub user_data : ℕ
  pub speed_dir_set : Bool
  pub estop_set : Bool
  pub accy_set : Bool

unfoldable pub new_parser : PacketParser
new_parser = record {
  short_addr = 0;
  user_data = 0;
  speed_dir_set = false;
  estop_set = false;
  accy_set = false;
}

-- The speed of a speed packet: bits 3 to 0 shifted up, and bit 4 below them.
pub raw_speed : ℕ → ℕ
raw_speed b =
    let speed = shl (bit_and b 0x0F) 1 in if has_bits b 0x10 then bit_or speed 1 else speed

speed_direction : ℕ → Direction
speed_direction b = if has_bits b 0x20 then forward else Direction.reverse

-- `speed` is an `int`: it is lowered by 3 only on the way to the speed callback, which takes a byte.
pub decode_short : PacketParser → List ℕ → List Event
decode_short p packet =
    if bit_and (get_or packet 1 0) 0xC0 == 0x40
    then (let called = p.speed_dir_set && raw_speed (get_or packet 1 0) != 1 in
        let speed =
          if called
          then sub32 (raw_speed (get_or packet 1 0)) 3
          else raw_speed (get_or packet 1 0) in
        (if called
          then incoming_speed_dir (speed_direction (get_or packet 1 0)) (u8 speed) ∷ []
          else [])
        ++ (if p.estop_set && speed == 1 then incoming_estop ∷ [] else []))
    else []

-- The address of an accessory's output: `msb` is the complement of bits 6 to 4, of which two count.
pub output_addr : ℕ → ℕ → ℕ
output_addr b0 b1 =
    let pair_index = shr (bit_and b1 0x6) 1 in
    let msb = bit_and (0xFFFF - shr (bit_and b1 0x70) 4) 0x3 in
    let board_addr = bit_or (bit_and b0 0x3F) (shl msb 6) in
    u16 (bit_or (u32 (shl (sub32 board_addr 1) 2)) pair_index + 1)

pub decode_accessory : PacketParser → List ℕ → List Event
decode_accessory p packet =
    if p.accy_set
    then incoming_accessory (output_addr (get_or packet 0 0) (get_or packet 1 0))
        (if has_bits (get_or packet 1 0) 0x1 then normal else AccessoryDirection.reverse)
      ∷ []
    else []

-- Setters take a pointer that may be NULL. The first one ends with no `return` for a parser.
pub set_userdata : Option PacketParser → ℕ → Option Status × Option PacketParser
set_userdata none v = (some error_invalid_arg, none)
set_userdata (some p) v = (none, some (record p { user_data = v }))

unfoldable pub set_short_address : Option PacketParser → ℕ → Status × Option PacketParser
set_short_address none a = (error_invalid_arg, none)
set_short_address (some p) a =
    if ltb 128 a then (error_invalid_arg, some p) else (ok, some (record p { short_addr = a }))

unfoldable pub set_speed_dir_cb : Option PacketParser → Bool → Status × Option PacketParser
set_speed_dir_cb none cb = (error_invalid_arg, none)
set_speed_dir_cb (some p) cb = (ok, some (record p { speed_dir_set = cb }))

pub set_accessory_cb : Option PacketParser → Bool → Status × Option PacketParser
set_accessory_cb none cb = (error_invalid_arg, none)
set_accessory_cb (some p) cb = (ok, some (record p { accy_set = cb }))

pub is_idle : List ℕ → ℕ → Bool
is_idle bytes len =
    len == 3 && get_or bytes 0 0 == 0xFF && get_or bytes 1 0 == 0x00 && get_or bytes 2 0 == 0xFF

pub parse : PacketParser → List ℕ → ℕ → Status × List Event
unfolding decode_short decode_accessory is_idle
parse p bytes len =
    let addr = get_or bytes 0 0 in
    if is_idle bytes len
    then (ok, [])
    else if addr == 0
    then (ok, decode_short p bytes)
    else if leb 1 addr && leb addr 127 && addr == p.short_addr
    then (ok, decode_short p bytes)
    else if leb 128 addr && leb addr 191
    then (ok, decode_accessory p bytes)
    else (ok, [])
