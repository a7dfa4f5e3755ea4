-- ===== src/Dcc/Decoder/Packet.antt =====
-- A whole packet, preamble included, goes through the decoder unchanged.
use train_utils.Common.{
  ℕ, zero, suc, ◌+◌, ◌*◌, ◌≤◌, ◌<◌, ◌≡◌, refl, ap, sym, ◌∙◌, arith, List, [], ◌∷◌, ◌++◌,
  append_assoc, length, take, replicate, replicate-add, write_from, take-write_from, IsBytes,
  pair_eq,
}
use train_utils.Dcc.Parser.{Status, ok, packet_ready}
use train_utils.Dcc.Decoder.{
  Decoder, parsing_preamble, parsing_data_byte, BitTiming, one_bit, zero_bit, process_whole_bit,
}
use train_utils.Dcc.Decoder.Receive.{
  receive, receive-cons, packet_bits, low_bits, low_bits_lem, stored, opened, between_bytes,
  end_of_packet,
}

-- `d` after a packet that ends with the bytes `bs`.
abbrev delivered : Decoder → List ℕ → Decoder
delivered d bs = record d {
  last_packet = write_from d.packet_data d.packet_data_pos bs;
  packet_data = replicate 6 0;
  last_packet_valid = 1;
  parse_state = parsing_preamble;
  last_packet_len = d.packet_data_pos + length bs;
  packet_data_pos = d.packet_data_pos + length bs;
  num_1_bits = 0;
  working_byte = 0;
  working_byte_bit = 7;
}

abbrev ready : ℕ → List Status
ready n = replicate n ok ++ (packet_ready ∷ [])

ready-add : (m n : ℕ) → replicate m ok ++ ready n ≡ ready (m + n)
ready-add m n =
    sym (append_assoc (replicate m ok) (replicate n ok) (packet_ready ∷ []))
    ∙ ap (λ l. l ++ (packet_ready ∷ [])) (sym (replicate-add m n ok))

in_byte :
    (bs : List ℕ) (b : ℕ) (d : Decoder)
    → IsBytes (b ∷ bs)
    → d.parse_state ≡ parsing_data_byte
    → d.working_byte_bit ≡ 7
    → d.working_byte ≡ 0
    → d.packet_data_pos + suc (length bs) ≤ 5
    → receive d (low_bits 8 b ++ packet_bits bs) ≡ (ready (8 + 9 * length bs), delivered d (b ∷ bs))
unfolding packet_bits
in_byte [] b d h s e w p =
    low_bits_lem 7 b d (one_bit ∷ []) h.0 (omega arith) s e (omega arith)
    ∙ ap (λ (r : List Status × Decoder). (replicate 8 ok ++ r.0, r.1))
        (receive-cons (stored d b) one_bit [] (end_of_packet (stored d b) (ground arith)))
    ∙ unfold receive write_from in ground arith
in_byte (c ∷ cs) b d h s e w p =
    let f = stored d b in
    low_bits_lem 7 b d (packet_bits (c ∷ cs)) h.0 (omega arith) s e (omega arith)
    ∙ ap (λ (r : List Status × Decoder). (replicate 8 ok ++ r.0, r.1))
        (receive-cons f zero_bit (low_bits 8 c ++ packet_bits cs) (between_bytes f (ground arith))
          ∙ ap (λ (r : List Status × Decoder). (ok ∷ r.0, r.1))
              (in_byte cs c (opened f) h.1 refl refl refl (omega arith)))
    ∙ pair_eq (ready-add 8 (suc (8 + 9 * length cs)) ∙ ap ready (omega arith))
        (unfold write_from in ground arith)

-- The start bit after a preamble.
started :
    (d : Decoder)
    → d.parse_state ≡ parsing_preamble
    → 10 ≤ d.num_1_bits
    → process_whole_bit d zero_bit ≡ (
      ok,
      record d {
        parse_state = parsing_data_byte;
        working_byte = 0;
        working_byte_bit = 7;
        packet_data_pos = 0;
      },
    )
unfolding process_whole_bit
started d s n = ground arith

preamble_bit :
    (d : Decoder)
    → d.parse_state ≡ parsing_preamble
    → d.num_1_bits < 255
    → process_whole_bit d one_bit ≡ (ok, record d { num_1_bits = suc d.num_1_bits })
unfolding process_whole_bit
preamble_bit d s h = ground arith

preamble :
    (n : ℕ) (d : Decoder) (ts : List BitTiming)
    → d.parse_state ≡ parsing_preamble
    → n + d.num_1_bits < 256
    → receive d (replicate n one_bit ++ ts) ≡ (
        let (ss, e) = receive (record d { num_1_bits = n + d.num_1_bits }) ts in
        (replicate n ok ++ ss, e))
preamble zero d ts s h =
    ap (λ (e : Decoder). ((receive e ts).0, (receive e ts).1)) {x = d} (ground arith)
preamble (suc n) d ts s h =
    let e = record d { num_1_bits = suc d.num_1_bits } in
    receive-cons d one_bit (replicate n one_bit ++ ts) (preamble_bit d s (omega arith))
    ∙ ap (λ (r : List Status × Decoder). (ok ∷ r.0, r.1)) (preamble n e ts s (omega arith))
    ∙ ap
        (λ (k : ℕ).
          let r = receive (record d { num_1_bits = k }) ts in (ok ∷ (replicate n ok ++ r.0), r.1))
        {x = n + suc d.num_1_bits} {y = suc n + d.num_1_bits} (omega arith)

-- From the preamble on, a packet's one to five bytes.
packet_lem :
    (n : ℕ) (d : Decoder) (b : ℕ) (bs : List ℕ)
    → d.parse_state ≡ parsing_preamble
    → 10 ≤ n + d.num_1_bits
    → n + d.num_1_bits < 256
    → IsBytes (b ∷ bs)
    → length bs ≤ 4
    → receive d (replicate n one_bit ++ packet_bits (b ∷ bs))
      ≡ (ready (n + (9 + 9 * length bs)), delivered (record d { packet_data_pos = 0 }) (b ∷ bs))
unfolding packet_bits
packet_lem n d b bs s lo hi h l =
    let c = record d { num_1_bits = n + d.num_1_bits } in
    let e = record c {
      parse_state = parsing_data_byte;
      working_byte = 0;
      working_byte_bit = 7;
      packet_data_pos = 0;
    } in
    preamble n d (packet_bits (b ∷ bs)) s hi
    ∙ ap (λ (r : List Status × Decoder). (replicate n ok ++ r.0, r.1))
        (receive-cons c zero_bit (low_bits 8 b ++ packet_bits bs) (started c s lo)
          ∙ ap (λ (r : List Status × Decoder). (ok ∷ r.0, r.1))
              (in_byte bs b e h refl refl refl (omega arith)))
    ∙ pair_eq (ready-add n (suc (8 + 9 * length bs)) ∙ ap ready (omega arith)) refl

-- A decoder in the preamble that counts `n` more one bits, ten or more in all and fewer than 256,
-- and then gets the bits of a packet of one to five bytes, returns DCC_DECODER_OK for each bit but
-- the last, and 1 for that. It then holds a valid last packet, with that length and these bytes, and
-- is back in the preamble with no one bit counted.
pub receive-packet :
    (n : ℕ) (d : Decoder) (b : ℕ) (bs : List ℕ)
    → length d.packet_data ≡ 6
    → d.parse_state ≡ parsing_preamble
    → 10 ≤ n + d.num_1_bits
    → n + d.num_1_bits < 256
    → IsBytes (b ∷ bs)
    → length bs ≤ 4
    → let (ss, e) = receive d (replicate n one_bit ++ packet_bits (b ∷ bs)) in
      (ss ≡ replicate (n + 9 * length (b ∷ bs)) ok ++ (packet_ready ∷ []))
      × (take e.last_packet_len e.last_packet ≡ b ∷ bs)
      × (e.last_packet_len ≡ length (b ∷ bs))
      × (e.last_packet_valid ≡ 1)
      × (e.parse_state ≡ parsing_preamble)
      × (e.num_1_bits ≡ 0)
receive-packet n d b bs size s lo hi h l = rw (packet_lem n d b bs s lo hi h l) (
  ap ready (omega arith),
  take-write_from d.packet_data 0 (b ∷ bs) (omega arith),
  omega arith,
  refl,
  refl,
  refl,
)
