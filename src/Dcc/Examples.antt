-- ===== src/Dcc/Examples.antt =====
-- Runs of the DCC library, and its theorems at concrete inputs.
use train_utils.Common.{
  ℕ, ◌+◌, ◌-◌, ◌*◌, ◌≤◌, ◌<◌, ◌≡◌, refl, arith, true, false, some, List, [], ◌∷◌, ◌++◌, replicate,
  take, inr,
}
use train_utils.Dcc.Parser.{
  ok, packet_ready, incoming_speed_dir, forward, PacketParser, new_parser, parse,
}
use train_utils.Dcc.Parser.Accessory.{first_byte, second_byte, reported, parse_accessory}
use train_utils.Dcc.Parser.Speed.{parse_speed, speed_byte}
use train_utils.Dcc.Decoder.{Decoder, parsing_preamble, one_bit, zero_bit, irq_both, new_decoder}
use train_utils.Dcc.Decoder.Invariant.{
  IsValid?, calls, edge, pump, frees, calls-IsValid, new_decoder-IsValid,
}
use train_utils.Dcc.Decoder.Receive.{receive, packet_bits}
use train_utils.Dcc.Decoder.Packet.{receive-packet}
use train_utils.Dcc.Decoder.Signal.{SentBit, edges, at_second_edges, edges-eq-receive}

abbrev fresh : Decoder
unfolding new_decoder
fresh = new_decoder irq_both 0

-- A speed packet to locomotive 3, with its checksum byte.
abbrev speed_packet : List ℕ
speed_packet = 3 ∷ 0x68 ∷ 0x6B ∷ []

receive-packet_example :
    let (ss, e) = receive fresh (replicate 12 one_bit ++ packet_bits speed_packet) in
    (ss ≡ replicate (12 + 9 * 3) ok ++ (packet_ready ∷ []))
    × (take e.last_packet_len e.last_packet ≡ speed_packet)
    × (e.last_packet_len ≡ 3)
    × (e.last_packet_valid ≡ 1)
    × (e.parse_state ≡ parsing_preamble)
    × (e.num_1_bits ≡ 0)
unfolding new_decoder
receive-packet_example =
    receive-packet 12 fresh 3 (0x68 ∷ 0x6B ∷ []) refl refl (omega arith) (omega arith) (omega arith)
      (omega arith)

calls-IsValid_example : IsValid? (
    calls
      (some (new_decoder irq_both 1))
      (edge 0 ∷ edge 58 ∷ edge 57 ∷ pump new_parser ∷ frees ∷ []))
calls-IsValid_example =
    calls-IsValid (some (new_decoder irq_both 1)) _ (new_decoder-IsValid irq_both 1)

-- A decoder that holds the speed packet, with both of its consumers.
abbrev loaded : Decoder
loaded = record fresh {
  last_packet = 3 ∷ 0x68 ∷ 0x6B ∷ 0 ∷ 0 ∷ 0 ∷ [];
  last_packet_len = 3;
  last_packet_valid = 1;
  packet_cb = true;
  packet_parser = true;
}

-- A one, then a zero.
abbrev signal : List SentBit
signal =
    record { bit = one_bit; first = 58; second = 60 }
    ∷ record { bit = zero_bit; first = 100; second = 9000 }
    ∷ []

edges-eq-receive_example :
    let (ss, e) = receive fresh (one_bit ∷ zero_bit ∷ []) in
    edges fresh signal ≡ (at_second_edges ss, e)
unfolding new_decoder
edges-eq-receive_example = edges-eq-receive fresh signal refl (omega arith)

-- A parser with every callback that has a setter, at address 3.
abbrev full : PacketParser
full = record {
  short_addr = 3;
  user_data = 0;
  speed_dir_set = true;
  estop_set = false;
  accy_set = true;
}

parse_speed_example :
    parse full (3 ∷ speed_byte forward 0 ∷ 0 ∷ []) 3 ≡ (ok, incoming_speed_dir forward 253 ∷ [])
parse_speed_example = parse_speed full 3 forward 0 0 (inr (omega arith)) (omega arith)

parse_accessory_example :
    let bytes = first_byte 1030 ∷ second_byte 1030 true false ∷ 0 ∷ [] in
    (1030 < 1020 → parse full bytes 3 ≡ (ok, reported full (1030 + 1) false))
    × (1024 ≤ 1030 → 1030 < 2044 → parse full bytes 3 ≡ (ok, reported full (1030 + 1 - 1024) false))
parse_accessory_example = parse_accessory full 1030 0 true false
