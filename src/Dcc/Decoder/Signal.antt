-- ===== src/Dcc/Decoder/Signal.antt =====
-- From edges to bits: half-bit durations within the limits give the bits that they stand for.
use train_utils.Common.{
  ℕ, ◌+◌, ◌*◌, ◌≤◌, ◌≡◌, refl, ap, sym, ◌∙◌, arith, List, [], ◌∷◌, map, All, subst, if◌then◌else◌,
  has_bits,
}
use train_utils.Dcc.Parser.{Status, ok}
use train_utils.Dcc.Decoder.{
  Decoder, BitTiming, zero_bit, one_bit, invalid_bit, zero_to_one_bit, one_to_zero_bit, expand_of,
  two_timing_to_bit_type, whole_bit_timing_to_bittiming, process_whole_bit, polarity_changed,
  rising_or_falling,
}
use train_utils.Dcc.Decoder.Receive.{receive}

-- A half of a bit in microseconds: 52 to 64 for a one, `e` more on either side if the flag says so,
-- and 90 to 10000 for a zero.
abbrev pub IsHalf : ℕ → BitTiming → ℕ → Type 0
IsHalf e one_bit t = (52 ≤ t + e) × (t ≤ 64 + e)
IsHalf e zero_bit t = (90 ≤ t) × (t ≤ 10000)
IsHalf e invalid_bit t = ⊥
IsHalf e zero_to_one_bit t = ⊥
IsHalf e one_to_zero_bit t = ⊥

-- A bit with the durations of its two halves.
pub record SentBit : Type 0 where
  pub bit : BitTiming
  pub first : ℕ
  pub second : ℕ

abbrev pub IsSent : ℕ → SentBit → Type 0
IsSent e b = IsHalf e b.bit b.first × IsHalf e b.bit b.second

-- The calls of `dcc_decoder_polarity_changed` that a signal makes.
unfoldable pub edges : Decoder → List SentBit → List Status × Decoder
edges d [] = ([], d)
edges d (b ∷ bs) =
    let (s, d1) = polarity_changed d b.first in
    let (s', d2) = polarity_changed d1 b.second in let (ss, d3) = edges d2 bs in (s ∷ s' ∷ ss, d3)

-- Each bit is reported at its second edge.
unfoldable pub at_second_edges : List Status → List Status
at_second_edges [] = []
at_second_edges (s ∷ ss) = ok ∷ s ∷ at_second_edges ss

expand_cases : (d : Decoder) → expand_of d ≤ 7
expand_cases d = ground arith

two_halves :
    (e : ℕ) (bit : BitTiming) (t1 t2 : ℕ)
    → e ≤ 7
    → IsHalf e bit t1
    → IsHalf e bit t2
    → two_timing_to_bit_type t1 t2 e ≡ bit
unfolding two_timing_to_bit_type
two_halves e one_bit t1 t2 h p q = ground arith
two_halves e zero_bit t1 t2 h p q = ground arith
two_halves e invalid_bit t1 t2 h p q = elim p [ ]
two_halves e zero_to_one_bit t1 t2 h p q = elim p [ ]
two_halves e one_to_zero_bit t1 t2 h p q = elim p [ ]

half_positive : (e : ℕ) (bit : BitTiming) (t : ℕ) → e ≤ 7 → IsHalf e bit t → 1 ≤ t
half_positive e one_bit t h p = omega arith
half_positive e zero_bit t h p = omega arith
half_positive e invalid_bit t h p = elim p [ ]
half_positive e zero_to_one_bit t h p = elim p [ ]
half_positive e one_to_zero_bit t h p = elim p [ ]

first_edge :
    (d : Decoder) (t : ℕ)
    → d.previous_timing ≡ 0
    → 1 ≤ t
    → polarity_changed d t ≡ (ok, record d { previous_timing = t })
unfolding polarity_changed
first_edge d t z h = ground arith

second_edge :
    (d : Decoder) (bit : BitTiming) (t1 t2 : ℕ)
    → d.previous_timing ≡ 0
    → IsHalf (expand_of d) bit t1
    → IsHalf (expand_of d) bit t2
    → polarity_changed (record d { previous_timing = t1 }) t2 ≡ process_whole_bit d bit
unfolding polarity_changed
second_edge d one_bit t1 t2 z p q =
    ground (arith, two_halves (expand_of d) one_bit t1 t2 (expand_cases d) p q, expand_cases d)
second_edge d zero_bit t1 t2 z p q =
    ground (arith, two_halves (expand_of d) zero_bit t1 t2 (expand_cases d) p q, expand_cases d)
second_edge d invalid_bit t1 t2 z p q = elim p [ ]
second_edge d zero_to_one_bit t1 t2 z p q = elim p [ ]
second_edge d one_to_zero_bit t1 t2 z p q = elim p [ ]

-- The bit machine leaves the timing and the flags alone.
untouched :
    (d : Decoder) (t : BitTiming)
    → ((process_whole_bit d t).1.previous_timing ≡ d.previous_timing)
      × ((process_whole_bit d t).1.flags ≡ d.flags)
unfolding process_whole_bit
untouched d t = ground arith

-- A decoder that waits for the first half of a bit and gets bits whose halves last as long as the
-- standard (widened if the flag is set) allows, does with their edges just what its bit machine
-- does with the bits, and returns each bit's status at its second edge.
pub edges-eq-receive :
    (d : Decoder) (bs : List SentBit)
    → d.previous_timing ≡ 0
    → All (IsSent (expand_of d)) bs
    → let (ss, e) = receive d (map (λ b. b.bit) bs) in edges d bs ≡ (at_second_edges ss, e)
unfolding edges at_second_edges receive
edges-eq-receive d [] z h = refl
edges-eq-receive d (b ∷ bs) z h =
    let d' = (process_whole_bit d b.bit).1 in
    let same : expand_of d' ≡ expand_of d =
      ap (λ f. if has_bits f 1 then 7 else 0) (untouched d b.bit).1 in
    let rest =
      edges-eq-receive d' bs ((untouched d b.bit).0 ∙ z)
        (subst (λ e. All (IsSent e) bs) (sym same) h.1) in
    rw
      (
        first_edge d b.first z (half_positive (expand_of d) b.bit b.first (expand_cases d) h.0.0),
        second_edge d b.bit b.first b.second z h.0.0 h.0.1,
        rest,
      )
      refl

-- A whole period between 104 and 128 microseconds (14 more on either side if the flag is set) is a
-- one, and one of 180 or more is a zero: `dcc_decoder_rising_or_falling` hands those bits on.
pub rising_or_falling_lem :
    (d : Decoder) (t : ℕ)
    → ((104 ≤ t + expand_of d * 2)
        → (t ≤ 128 + expand_of d * 2)
        → rising_or_falling d t ≡ process_whole_bit d one_bit)
      × (180 ≤ t → rising_or_falling d t ≡ process_whole_bit d zero_bit)
unfolding rising_or_falling whole_bit_timing_to_bittiming
rising_or_falling_lem d t =
    (λ p q. ground (arith, expand_cases d), λ p. ground (arith, expand_cases d))
