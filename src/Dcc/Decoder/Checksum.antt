-- ===== src/Dcc/Decoder/Checksum.antt =====
-- The error byte: which packets `dcc_decoder_pump_packet` hands on.
use train_utils.Common.{
  ℕ, zero, suc, ◌-◌, ◌≤◌, ◌<◌, ◌≡◌, ◌≢◌, ◌↔◌, ap, ap₂, sym, ◌∙◌, arith, bit_xor, true, false, some,
  List, [], ◌∷◌, ◌++◌, append-nil, length, length-take, take, take-suc, take-set_any, get_or,
  get_or-take, set, if◌then◌else◌, ◌==◌, ==_iff, Bool-cases, inl, inr, length-set,
}
use train_utils.Common.Xor.{
  xor_bytes, xor_bytes-cons, xor_bytes-append_last, bit_xor_comm, bit_xor_self, bit_xor_cancel,
  eq_of_bit_xor,
}
use train_utils.Dcc.Parser.{ok, error_invalid_packet, Event, incoming_packet, PacketParser, parse}
use train_utils.Dcc.Decoder.{Decoder, is_packet_valid, pump_packet}

-- `dcc_decoder_is_packet_valid` accepts exactly the packets whose bytes, the error byte among them,
-- have the exclusive or 0, for a length from one to the size of the buffer.
pub is_packet_valid_iff :
    (bytes : List ℕ) (len : ℕ)
    → 1 ≤ len
    → len ≤ length bytes
    → (is_packet_valid bytes len ≡ true) ↔ (xor_bytes 0 (take len bytes) ≡ 0)
unfolding is_packet_valid
is_packet_valid_iff bytes zero lo hi = absurd (omega arith)
is_packet_valid_iff bytes (suc n) lo hi =
    let body = xor_bytes 0 (take n bytes) in
    let last = get_or bytes n 0 in
    let whole : xor_bytes 0 (take (suc n) bytes) ≡ bit_xor body last =
      ap (xor_bytes 0) (take-suc bytes n 0 hi) ∙ xor_bytes-append_last 0 (take n bytes) last in
    let exact : suc n - 1 ≡ n = omega arith in
    (
      λ h.
          whole
          ∙ ap (λ t. bit_xor t last)
              ((==_iff body last).0
                (ap (λ k. xor_bytes 0 (take k bytes) == get_or bytes k 0) (sym exact) ∙ h))
          ∙ bit_xor_self last,
      λ h.
          ap (λ k. xor_bytes 0 (take k bytes) == get_or bytes k 0) exact
          ∙ (==_iff body last).1 (eq_of_bit_xor body last (sym whole ∙ h)),
    )

xor_bytes-set :
    (bs : List ℕ) (i v : ℕ)
    → i < length bs
    → bit_xor (xor_bytes 0 bs) (xor_bytes 0 (set bs i v)) ≡ bit_xor (get_or bs i 0) v
xor_bytes-set [] i v h = absurd (omega arith)
xor_bytes-set (b ∷ bs) zero v h =
    ap₂ bit_xor (xor_bytes-cons b bs ∙ bit_xor_comm b (xor_bytes 0 bs))
      (xor_bytes-cons v bs ∙ bit_xor_comm v (xor_bytes 0 bs))
    ∙ bit_xor_cancel b v (xor_bytes 0 bs)
xor_bytes-set (b ∷ bs) (suc i) v h =
    ap₂ bit_xor (xor_bytes-cons b bs) (xor_bytes-cons b (set bs i v))
    ∙ bit_xor_cancel (xor_bytes 0 bs) (xor_bytes 0 (set bs i v)) b
    ∙ xor_bytes-set bs i v (omega arith)

-- A packet that is accepted is refused as soon as any one of its bytes, the error byte included, is
-- another.
pub is_packet_valid-set :
    (bytes : List ℕ) (len i v : ℕ)
    → len ≤ length bytes
    → i < len
    → is_packet_valid bytes len ≡ true
    → v ≢ get_or bytes i 0
    → is_packet_valid (set bytes i v) len ≡ false
is_packet_valid-set bytes len i v hi below good other =
    elim (Bool-cases (is_packet_valid (set bytes i v) len)) [
      | inr e ↦ e
      | inl e ↦
          let before = (is_packet_valid_iff bytes len (omega arith) hi).0 good in
          let after =
            (is_packet_valid_iff (set bytes i v) len (omega arith)
                (omega (arith, length-set bytes i v))).0
              e in
          let moved = xor_bytes-set (take len bytes) i v (omega (arith, length-take len bytes)) in
          absurd (
            other (
              sym (
                eq_of_bit_xor (get_or bytes i 0) v (
                  ap (λ t. bit_xor t v) (sym (get_or-take bytes len i 0 below))
                  ∙ sym moved
                  ∙ ap₂ bit_xor before
                      (ap (xor_bytes 0) (sym (take-set_any bytes len i v)) ∙ after)))))
    ]

abbrev pub callback_events : Decoder → List Event
callback_events d = if d.packet_cb then incoming_packet d.last_packet d.last_packet_len ∷ [] else []

abbrev pub parser_events : PacketParser → Decoder → List Event
parser_events p d = if d.packet_parser then (parse p d.last_packet d.last_packet_len).1 else []

-- A last packet whose bytes have the exclusive or 0 is handed to the callback and then to the
-- parser, each if it is set; any other packet is reported by DCC_DECODER_ERROR_INVALID_PACKET and
-- nobody is called. Either way only the mark of a waiting packet is taken off, and the next pump
-- returns DCC_DECODER_OK and calls nobody.
pub pump_packet_lem :
    (p : PacketParser) (d : Decoder)
    → d.last_packet_valid ≢ 0
    → 1 ≤ d.last_packet_len
    → d.last_packet_len ≤ length d.last_packet
    → let sum = xor_bytes 0 (take d.last_packet_len d.last_packet) in
      let after = record d { last_packet_valid = 0 } in
      let (status, left, events) = pump_packet p (some d) in
      (left ≡ some after)
      × (sum ≡ 0 → events ≡ callback_events d ++ parser_events p d)
      × (sum ≢ 0 → (status ≡ error_invalid_packet) × (events ≡ []))
      × (pump_packet p left ≡ (ok, left, []))
unfolding pump_packet
pump_packet_lem p d waiting lo hi =
    let valid = is_packet_valid_iff d.last_packet d.last_packet_len lo hi in
    (
      ground arith,
      λ z. ground (arith, valid.1 z, append-nil (callback_events d)),
      λ n.
          ground
            (arith, λ (e : is_packet_valid d.last_packet d.last_packet_len ≡ true). n (valid.0 e)),
      ground arith,
    )
