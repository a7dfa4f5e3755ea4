-- ===== src/Dcc/Decoder/Preamble.antt =====
-- The counter of one bits is a byte: what a preamble of any length leads to.
use train_utils.Common.{
  ℕ, zero, suc, ◌+◌, ◌%◌, ◌≤◌, ◌<◌, ◌≡◌, ap, ◌∙◌, arith, List, [], ◌∷◌, ◌++◌, replicate, u8,
}
use train_utils.Dcc.Parser.{Status, ok}
use train_utils.Dcc.Decoder.{
  Decoder, parsing_preamble, parsing_data_byte, BitTiming, one_bit, zero_bit, process_whole_bit,
}
use train_utils.Dcc.Decoder.Receive.{receive, receive-cons}

one_more :
    (d : Decoder)
    → d.parse_state ≡ parsing_preamble
    → process_whole_bit d one_bit ≡ (ok, record d { num_1_bits = u8 (d.num_1_bits + 1) })
unfolding process_whole_bit
one_more d s = ground arith

ones :
    (n : ℕ) (d : Decoder) (ts : List BitTiming)
    → d.parse_state ≡ parsing_preamble
    → d.num_1_bits < 256
    → (receive d (replicate n one_bit ++ ts)).1
      ≡ (receive (record d { num_1_bits = u8 (n + d.num_1_bits) }) ts).1
ones zero d ts s h = ap (λ (e : Decoder). (receive e ts).1) {x = d} (ground arith)
ones (suc n) d ts s h =
    let e = record d { num_1_bits = u8 (d.num_1_bits + 1) } in
    ap (λ (r : List Status × Decoder). r.1)
      (receive-cons d one_bit (replicate n one_bit ++ ts) (one_more d s))
    ∙ ones n e ts s (omega arith)
    ∙ ap (λ (k : ℕ). (receive (record d { num_1_bits = k }) ts).1)
        {x = u8 (n + u8 (d.num_1_bits + 1))} {y = u8 (suc n + d.num_1_bits)} (omega arith)

first_zero :
    (d : Decoder)
    → d.parse_state ≡ parsing_preamble
    → let e = (receive d (zero_bit ∷ [])).1 in
      (10 ≤ d.num_1_bits → e.parse_state ≡ parsing_data_byte)
      × (d.num_1_bits < 10 → (e.parse_state ≡ parsing_preamble) × (e.num_1_bits ≡ 0))
unfolding receive process_whole_bit
first_zero d s = ground arith

-- After `n` one bits, from a counter at 0, a zero bit starts a packet exactly when `n` is 10 or more
-- modulo 256; otherwise the decoder goes back to an empty preamble. So a preamble of 256 to 265 one
-- bits is not taken for one.
pub receive-preamble :
    (n : ℕ) (d : Decoder)
    → d.parse_state ≡ parsing_preamble
    → d.num_1_bits ≡ 0
    → let e = (receive d (replicate n one_bit ++ (zero_bit ∷ []))).1 in
      (10 ≤ n % 256 → e.parse_state ≡ parsing_data_byte)
      × (n % 256 < 10 → (e.parse_state ≡ parsing_preamble) × (e.num_1_bits ≡ 0))
receive-preamble n d s z = rw (ones n d (zero_bit ∷ []) s (omega arith)) (
    let e = record d { num_1_bits = u8 (n + d.num_1_bits) } in
    (λ h. (first_zero e s).0 (omega arith), λ h. (first_zero e s).1 (omega arith)))
