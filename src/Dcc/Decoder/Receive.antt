-- ===== src/Dcc/Decoder/Receive.antt =====
-- What the decoder makes of the bits of a packet: a zero before each byte, eight bits a byte, the
-- highest first, and a one at the end.
use native.Mathlib.Nat.{pow-suc, one-le-pow, div-div-eq-div-mul}
use train_utils.Common.{
  ℕ, zero, suc, ◌+◌, ◌*◌, ◌/◌, ◌%◌, ◌≤◌, ◌<◌, ◌^◌, ◌≡◌, refl, sym, ap, ◌∙◌, arith, List, [], ◌∷◌,
  ◌++◌, set, replicate, u8, bit_or, if◌then◌else◌, ltb, ◌==◌,
}
use train_utils.Common.Bits.{bit_or_sum}
use train_utils.Dcc.Parser.{Status, ok, packet_ready}
use train_utils.Dcc.Decoder.{
  Decoder, parsing_preamble, parsing_data_byte, parsing_byte_start_bit, BitTiming, zero_bit,
  one_bit, process_whole_bit, is_one,
}

-- The statuses that the calls return, and the decoder after them.
unfoldable pub receive : Decoder → List BitTiming → List Status × Decoder
receive d [] = ([], d)
receive d (t ∷ ts) =
    let (s, d') = process_whole_bit d t in let (ss, d'') = receive d' ts in (s ∷ ss, d'')

pub receive-cons :
    (d : Decoder) (t : BitTiming) (ts : List BitTiming) {s : Status} {d' : Decoder}
    → process_whole_bit d t ≡ (s, d')
    → receive d (t ∷ ts) ≡ (s ∷ (receive d' ts).0, (receive d' ts).1)
unfolding receive
receive-cons d t ts p =
    ap (λ (r : Status × Decoder). (r.0 ∷ (receive r.1 ts).0, (receive r.1 ts).1)) p

abbrev pub bit_of : ℕ → BitTiming
bit_of n = if n % 2 == 1 then one_bit else zero_bit

-- The `k` low bits of `b`, the highest first.
pub low_bits : ℕ → ℕ → List BitTiming
low_bits zero b = []
low_bits (suc k) b = bit_of (b / 2 ^ k) ∷ low_bits k b

-- A packet on the rails, after its preamble.
unfoldable pub packet_bits : List ℕ → List BitTiming
packet_bits [] = one_bit ∷ []
packet_bits (b ∷ bs) = zero_bit ∷ (low_bits 8 b ++ packet_bits bs)

middle_bit :
    (d : Decoder) (k : ℕ) (t : BitTiming) (bit : ℕ)
    → d.parse_state ≡ parsing_data_byte
    → d.working_byte_bit ≡ suc k
    → k < 7
    → t ≡ bit_of bit
    → process_whole_bit d t ≡ (
      ok,
      record d {
        working_byte_bit = k;
        working_byte = if is_one t then u8 (bit_or d.working_byte (2 ^ suc k)) else d.working_byte;
      },
    )
unfolding process_whole_bit
middle_bit d k t bit s e h p = ground arith

-- `d` with `b` put at the end of its buffer.
abbrev pub stored : Decoder → ℕ → Decoder
stored d b =
    let pos = u8 (d.packet_data_pos + 1) in
    record d {
      packet_data = set d.packet_data d.packet_data_pos b;
      packet_data_pos = pos;
      working_byte = 0;
      working_byte_bit = 7;
      parse_state = if ltb 5 pos then parsing_preamble else parsing_byte_start_bit;
      num_1_bits = if ltb 5 pos then 0 else d.num_1_bits;
    }

last_bit :
    (d : Decoder) (t : BitTiming) (bit : ℕ)
    → d.parse_state ≡ parsing_data_byte
    → d.working_byte_bit ≡ 0
    → t ≡ bit_of bit
    → process_whole_bit d t
      ≡ (ok, stored d (if is_one t then u8 (bit_or d.working_byte (2 ^ 0)) else d.working_byte))
unfolding process_whole_bit
last_bit d t bit s e p = ground arith

-- The bits of `b` from `j` up, once those above `j` are there.
next_bits :
    (j b : ℕ)
    → b < 256
    → (if is_one (bit_of (b / 2 ^ j))
        then u8 (bit_or (b / 2 ^ suc j * 2 ^ suc j) (2 ^ j))
        else b / 2 ^ suc j * 2 ^ suc j)
      ≡ b / 2 ^ j * 2 ^ j
next_bits j b h =
    let q : ℕ = b / 2 ^ j in
    let half : b / 2 ^ suc j ≡ q / 2 =
      ap (λ t. b / t) (pow-suc 2 j) ∙ sym (div-div-eq-div-mul b (2 ^ j) 2) in
    let split : q * 2 ^ j ≡ (q / 2 * 2 + q % 2) * 2 ^ j = ap (λ t. t * 2 ^ j) (omega arith) in
    let small : q * 2 ^ j ≤ b = grind (arith, one-le-pow j 2) in
    rw half (
      ground (
        arith,
        ap (λ t. q / 2 * t) (pow-suc 2 j),
        split,
        small,
        bit_or_sum (suc j) (q / 2) (2 ^ j) (omega (arith, pow-suc 2 j, one-le-pow j 2)),
      ))

pub low_bits_lem :
    (k b : ℕ) (d : Decoder) (rest : List BitTiming)
    → b < 256
    → k < 8
    → d.parse_state ≡ parsing_data_byte
    → d.working_byte_bit ≡ k
    → d.working_byte ≡ b / 2 ^ suc k * 2 ^ suc k
    → receive d (low_bits (suc k) b ++ rest)
      ≡ (let (ss, e) = receive (stored d b) rest in (replicate (suc k) ok ++ ss, e))
unfolding receive low_bits
low_bits_lem zero b d rest fits kb s e w = receive-cons d (bit_of (b / 2 ^ 0)) rest (
    last_bit d (bit_of (b / 2 ^ 0)) (b / 2 ^ 0) s e refl
    ∙ ap (λ t. (ok, stored d t)) (rw w (next_bits 0 b fits ∙ omega arith)))
low_bits_lem (suc k) b d rest fits kb s e w =
    let c = record d { working_byte = b / 2 ^ suc k * 2 ^ suc k; working_byte_bit = k } in
    receive-cons d (bit_of (b / 2 ^ suc k)) (low_bits (suc k) b ++ rest) {s = ok} {d' = c} (
      middle_bit d k (bit_of (b / 2 ^ suc k)) (b / 2 ^ suc k) s e (omega arith) refl
      ∙ ap (λ t. (ok, record d { working_byte = t; working_byte_bit = k }))
          (rw w (next_bits (suc k) b fits)))
    ∙ ap (λ (r : List Status × Decoder). (ok ∷ r.0, r.1))
        (low_bits_lem k b c rest fits (omega arith) s refl refl)

-- A zero where a byte starts.
abbrev pub opened : Decoder → Decoder
opened d = record d { parse_state = parsing_data_byte }

pub between_bytes :
    (d : Decoder)
    → d.parse_state ≡ parsing_byte_start_bit
    → process_whole_bit d zero_bit ≡ (ok, opened d)
unfolding process_whole_bit
between_bytes d s = ground arith

pub end_of_packet :
    (d : Decoder)
    → d.parse_state ≡ parsing_byte_start_bit
    → process_whole_bit d one_bit ≡ (
      packet_ready,
      record d {
        last_packet = d.packet_data;
        packet_data = replicate 6 0;
        last_packet_valid = 1;
        parse_state = parsing_preamble;
        last_packet_len = d.packet_data_pos;
        num_1_bits = 0;
      },
    )
unfolding process_whole_bit
end_of_packet d s = ground arith
