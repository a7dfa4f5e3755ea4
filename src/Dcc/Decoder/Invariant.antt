-- ===== src/Dcc/Decoder/Invariant.antt =====
-- What holds of a decoder between two calls: the shift amounts and the indices of the code stay in
-- range, and a packet that waits to be pumped has one to five bytes.
use train_utils.Common.{
  ℕ, ◌≤◌, ◌<◌, ◌^◌, ◌≡◌, ◌≢◌, arith, Bool, ◌||◌, if◌then◌else◌, Option, none, some, List, [], ◌∷◌,
  length, length-set, u8, bit_or,
}
use train_utils.Dcc.Parser.{PacketParser}
use train_utils.Dcc.Decoder.{
  Decoder, parsing_data_byte, parsing_byte_start_bit, parsing_done, BitTiming, process_whole_bit,
  polarity_changed, rising_or_falling, pump_packet, new_decoder, DecodingScheme, set_userdata,
  set_packet_parser, set_packet_callback, free, two_timing_to_bit_type,
  whole_bit_timing_to_bittiming, expand_of, is_zero, is_one,
}

pub record IsValid (d : Decoder) : Type 0 where
  pub data_size : length d.packet_data ≡ 6
  pub last_size : length d.last_packet ≡ 6
  pub ones_fit : d.num_1_bits < 256
  pub byte_fits : d.working_byte < 256
  pub bit_in_byte : d.parse_state ≡ parsing_data_byte → d.working_byte_bit ≤ 7
  pub pos_in_data : d.parse_state ≡ parsing_data_byte → d.packet_data_pos ≤ 5
  pub bit_restarted :
      d.parse_state ≡ parsing_byte_start_bit → (d.working_byte_bit ≡ 7) × (d.working_byte ≡ 0)
  pub pos_between :
      d.parse_state ≡ parsing_byte_start_bit → (1 ≤ d.packet_data_pos) × (d.packet_data_pos ≤ 5)
  pub settled : d.parse_state ≢ parsing_done
  pub last_len : d.last_packet_valid ≢ 0 → (1 ≤ d.last_packet_len) × (d.last_packet_len ≤ 5)

pub new_decoder-IsValid : (s : DecodingScheme) (flags : ℕ) → IsValid (new_decoder s flags)
unfolding new_decoder
new_decoder-IsValid s flags = ground arith

pub process_whole_bit-IsValid :
    (d : Decoder) (t : BitTiming) → IsValid d → IsValid (process_whole_bit d t).1
unfolding process_whole_bit
process_whole_bit-IsValid d t v = ground (
  arith,
  length-set d.packet_data d.packet_data_pos d.working_byte,
  length-set d.packet_data d.packet_data_pos (u8 (bit_or d.working_byte (2 ^ d.working_byte_bit))),
)

pub polarity_changed-IsValid : (d : Decoder) (t : ℕ) → IsValid d → IsValid (polarity_changed d t).1
unfolding polarity_changed
polarity_changed-IsValid d t v =
    let timing = two_timing_to_bit_type d.previous_timing t (expand_of d) in
    ground (
      arith,
      process_whole_bit-IsValid
          (record d { previous_timing = if is_zero timing || is_one timing then 0 else t }) timing
          (assumption v),
    )

pub rising_or_falling-IsValid :
    (d : Decoder) (t : ℕ) → IsValid d → IsValid (rising_or_falling d t).1
unfolding rising_or_falling
rising_or_falling-IsValid d t v =
    ground (arith, process_whole_bit-IsValid d (whole_bit_timing_to_bittiming t (expand_of d)) v)

-- The calls that a client may make on its decoder.
pub data Call : Type 0 where
  edge pulse : ℕ → Call
  pump : PacketParser → Call
  sets_userdata : ℕ → Call
  sets_parser sets_callback : Bool → Call
  frees : Call

pub call : Option Decoder → Call → Option Decoder
call (some d) (edge t) = some (polarity_changed d t).1
call (some d) (pulse t) = some (rising_or_falling d t).1
call none (edge t) = none
call none (pulse t) = none
call d (pump p) = (pump_packet p d).1
call d (sets_userdata v) = (set_userdata d v).1
call d (sets_parser b) = (set_packet_parser d b).1
call d (sets_callback b) = (set_packet_callback d b).1
call d frees = free d

pub calls : Option Decoder → List Call → Option Decoder
calls d [] = d
calls d (c ∷ cs) = calls (call d c) cs

abbrev pub IsValid? : Option Decoder → Type 0
IsValid? none = Unit
IsValid? (some d) = IsValid d

pub call-IsValid : (d : Option Decoder) (c : Call) → IsValid? d → IsValid? (call d c)
unfolding call pump_packet set_userdata set_packet_parser set_packet_callback free new_decoder
call-IsValid (some d) (edge t) v = polarity_changed-IsValid d t v
call-IsValid (some d) (pulse t) v = rising_or_falling-IsValid d t v
call-IsValid none (edge t) v = tt
call-IsValid none (pulse t) v = tt
call-IsValid none (pump p) v = tt
call-IsValid (some d) (pump p) v = ground arith
call-IsValid none (sets_userdata u) v = tt
call-IsValid (some d) (sets_userdata u) v = ground arith
call-IsValid none (sets_parser b) v = tt
call-IsValid (some d) (sets_parser b) v = ground arith
call-IsValid none (sets_callback b) v = tt
call-IsValid (some d) (sets_callback b) v = ground arith
call-IsValid none frees v = tt
call-IsValid (some d) frees v = ground arith

-- Whatever calls a client makes on a decoder that is valid, or on NULL, what it holds afterwards is
-- valid: byte and bit indices in range, no state between two calls that the code does not name,
-- and a packet that waits for `dcc_decoder_pump_packet` of one to five bytes.
pub calls-IsValid : (d : Option Decoder) (cs : List Call) → IsValid? d → IsValid? (calls d cs)
unfolding calls
calls-IsValid d [] v = v
calls-IsValid d (c ∷ cs) v = calls-IsValid (call d c) cs (call-IsValid d c v)
