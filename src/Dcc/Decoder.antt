-- ===== src/Dcc/Decoder.antt =====
-- DCC/dcc-decoder.c: the state machine that turns half-bit durations into packets.
-- Bytes and counters are numbers with their casts written out; `packet_parser` says that the one
-- static parser is attached, and the parser itself is an argument of the call that reads it.
pub mod Invariant
pub mod Receive
pub mod Preamble
pub mod Packet
pub mod Checksum
pub mod Signal
use train_utils.Common.{
  ℕ, ◌+◌, ◌-◌, ◌*◌, ◌^◌, bit_or, bit_xor, Bool, true, false, ◌&&◌, ◌||◌, Option, none, some, List,
  [], ◌∷◌, ◌++◌, if◌then◌else◌, ltb, leb, ◌==◌, get_or, set, replicate, take, u8, has_bits,
}
use train_utils.Common.Xor.{xor_bytes}
use train_utils.Dcc.Parser.{
  Status, ok, packet_ready, error_generic, error_bit_timing, error_invalid_packet,
  error_invalid_arg, Event, incoming_packet, PacketParser, parse,
}

pub data PacketParsingState : Type 0 where
  parsing_preamble parsing_data_byte parsing_byte_start_bit parsing_done : PacketParsingState

pub data BitTiming : Type 0 where
  zero_bit one_bit invalid_bit zero_to_one_bit one_to_zero_bit : BitTiming

pub data DecodingScheme : Type 0 where
  irq_both irq_rising_or_falling : DecodingScheme

pub record Decoder : Type 0 where
  pub num_1_bits : ℕ
  pub packet_data : List ℕ
  pub last_packet : List ℕ
  pub parse_state : PacketParsingState
  pub previous_timing : ℕ
  pub working_byte : ℕ
  pub working_byte_bit : ℕ
  pub packet_data_pos : ℕ
  pub last_packet_valid : ℕ
  pub last_packet_len : ℕ
  pub user_data : ℕ
  pub decoding_scheme : DecodingScheme
  pub packet_parser : Bool
  pub packet_cb : Bool
  pub flags : ℕ

abbrev pub within : ℕ → ℕ → ℕ → Bool
within lo hi t = leb lo t && leb t hi

-- `ONE_HALF_BIT_DURATION_MIN` and the others, widened by `expand`
pub whole_bit_timing_to_bittiming : ℕ → ℕ → BitTiming
whole_bit_timing_to_bittiming t expand =
    if within (104 - expand * 2) (128 + expand * 2) t
    then one_bit
    else if leb 180 t
    then zero_bit
    else invalid_bit

pub single_timing_to_bit_type : ℕ → ℕ → BitTiming
single_timing_to_bit_type t expand =
    if within (52 - expand) (64 + expand) t
    then one_bit
    else if within 90 10000 t
    then zero_bit
    else invalid_bit

pub join_halves : BitTiming → BitTiming → BitTiming
join_halves one_bit one_bit = one_bit
join_halves zero_bit zero_bit = zero_bit
join_halves one_bit zero_bit = one_to_zero_bit
join_halves zero_bit one_bit = zero_to_one_bit
join_halves _ _ = invalid_bit

pub two_timing_to_bit_type : ℕ → ℕ → ℕ → BitTiming
unfolding join_halves single_timing_to_bit_type
two_timing_to_bit_type t1 t2 expand =
    join_halves (single_timing_to_bit_type t1 expand) (single_timing_to_bit_type t2 expand)

-- A length of 0 would read before the array; no packet that is delivered has that length.
unfoldable pub is_packet_valid : List ℕ → ℕ → Bool
unfolding xor_bytes
is_packet_valid bytes len = xor_bytes 0 (take (len - 1) bytes) == get_or bytes (len - 1) 0

unfoldable pub new_decoder : DecodingScheme → ℕ → Decoder
new_decoder scheme flags = record {
  num_1_bits = 0;
  packet_data = replicate 6 0;
  last_packet = replicate 6 0;
  parse_state = parsing_preamble;
  previous_timing = 0;
  working_byte = 0;
  working_byte_bit = 0;
  packet_data_pos = 0;
  last_packet_valid = 0;
  last_packet_len = 0;
  user_data = 0;
  decoding_scheme = scheme;
  packet_parser = false;
  packet_cb = false;
  flags = u8 flags;
}

abbrev pub is_preamble : PacketParsingState → Bool
is_preamble parsing_preamble = true
is_preamble _ = false

abbrev pub is_data_byte : PacketParsingState → Bool
is_data_byte parsing_data_byte = true
is_data_byte _ = false

abbrev pub is_byte_start_bit : PacketParsingState → Bool
is_byte_start_bit parsing_byte_start_bit = true
is_byte_start_bit _ = false

abbrev pub is_done : PacketParsingState → Bool
is_done parsing_done = true
is_done _ = false

-- The two timings that are bits.
abbrev pub is_one : BitTiming → Bool
is_one one_bit = true
is_one _ = false

abbrev pub is_zero : BitTiming → Bool
is_zero zero_bit = true
is_zero _ = false

-- The end of a byte: it goes to the buffer, and a sixth one gives the packet up.
store_byte : Decoder → Decoder
store_byte d =
    let pos = u8 (d.packet_data_pos + 1) in
    record d {
      packet_data = set d.packet_data d.packet_data_pos d.working_byte;
      packet_data_pos = pos;
      working_byte = 0;
      working_byte_bit = 8;
      parse_state = if ltb 5 pos then parsing_preamble else parsing_byte_start_bit;
      num_1_bits = if ltb 5 pos then 0 else d.num_1_bits;
    }

-- A bit of a data byte.
data_bit : Decoder → BitTiming → Decoder
unfolding store_byte
data_bit d timing =
    let e =
      (if is_one timing
        then record d { working_byte = u8 (bit_or d.working_byte (2 ^ d.working_byte_bit)) }
        else d) in
    let stored = if e.working_byte_bit == 0 then store_byte e else e in
    record stored { working_byte_bit = u8 (stored.working_byte_bit + 255) }

-- The bit between two bytes.
start_bit : Decoder → BitTiming → Decoder
start_bit d timing =
    if is_zero timing
    then record d { parse_state = parsing_data_byte }
    else record d { parse_state = parsing_done; num_1_bits = 0 }

finish_packet : Decoder → Status × Decoder
finish_packet d =
    if is_done d.parse_state
    then (
      packet_ready,
      record d {
        last_packet = d.packet_data;
        packet_data = replicate 6 0;
        last_packet_valid = 1;
        parse_state = parsing_preamble;
        last_packet_len = d.packet_data_pos;
        num_1_bits = 0;
      },
    )
    else (ok, d)

process_bit : Decoder → BitTiming → Status × Decoder
unfolding data_bit start_bit finish_packet
process_bit d timing =
    if is_zero timing && leb 10 d.num_1_bits && is_preamble d.parse_state
    then (
      ok,
      record d {
        parse_state = parsing_data_byte;
        working_byte = 0;
        working_byte_bit = 7;
        packet_data_pos = 0;
      },
    )
    else if is_zero timing && ltb d.num_1_bits 10 && is_preamble d.parse_state
    then (ok, record d { num_1_bits = 0 })
    else if is_data_byte d.parse_state
    then finish_packet (data_bit d timing)
    else if is_byte_start_bit d.parse_state
    then finish_packet (start_bit d timing)
    else finish_packet d

pub process_whole_bit : Decoder → BitTiming → Status × Decoder
unfolding process_bit
process_whole_bit d timing =
    if is_one timing || is_zero timing
    then process_bit
        (if is_one timing && is_preamble d.parse_state
          then record d { num_1_bits = u8 (d.num_1_bits + 1) }
          else d)
        timing
    else (error_bit_timing, if is_preamble d.parse_state then record d { num_1_bits = 0 } else d)

abbrev pub expand_of : Decoder → ℕ
expand_of d = if has_bits d.flags 1 then 7 else 0

abbrev pub reset_parsing : Decoder → Decoder
reset_parsing d = record d { num_1_bits = 0; parse_state = parsing_preamble }

pub polarity_changed : Decoder → ℕ → Status × Decoder
polarity_changed d timediff =
    let timing = two_timing_to_bit_type d.previous_timing timediff (expand_of d) in
    if timediff == 0
    then (ok, reset_parsing d)
    else if d.previous_timing == 0
    then (ok, record d { previous_timing = timediff })
    else process_whole_bit
        (record d { previous_timing = if is_zero timing || is_one timing then 0 else timediff })
        timing

abbrev pub is_invalid : BitTiming → Bool
is_invalid invalid_bit = true
is_invalid _ = false

pub rising_or_falling : Decoder → ℕ → Status × Decoder
rising_or_falling d timediff =
    let timing = whole_bit_timing_to_bittiming timediff (expand_of d) in
    if timediff == 0
    then (ok, reset_parsing d)
    else if is_invalid timing
    then (error_bit_timing, d)
    else process_whole_bit d timing

-- The packet callback is called with the last packet, and then the parser if there is one.
pub pump_packet : PacketParser → Option Decoder → Status × Option Decoder × List Event
pump_packet parser none = (error_generic, none, [])
pump_packet parser (some d) =
    let e = record d { last_packet_valid = 0 } in
    let cb = if d.packet_cb then incoming_packet d.last_packet d.last_packet_len ∷ [] else [] in
    let (status, events) = parse parser d.last_packet d.last_packet_len in
    if d.last_packet_valid == 0
    then (ok, some d, [])
    else if is_packet_valid d.last_packet d.last_packet_len
    then (if d.packet_parser then (status, some e, cb ++ events) else (packet_ready, some e, cb))
    else (error_invalid_packet, some e, [])

pub free : Option Decoder → Option Decoder
unfolding new_decoder
free none = none
free (some d) = some (new_decoder irq_both 0)

pub set_userdata : Option Decoder → ℕ → Status × Option Decoder
set_userdata none v = (error_invalid_arg, none)
set_userdata (some d) v = (ok, some (record d { user_data = v }))

pub set_packet_parser : Option Decoder → Bool → Status × Option Decoder
set_packet_parser none p = (error_invalid_arg, none)
set_packet_parser (some d) p = (ok, some (record d { packet_parser = p }))

pub set_packet_callback : Option Decoder → Bool → Status × Option Decoder
set_packet_callback none cb = (error_invalid_arg, none)
set_packet_callback (some d) cb = (ok, some (record d { packet_cb = cb }))
