-- ===== src/LocoNet/Process/Messages.antt =====
-- Messages of four bytes, the commonest, and what becomes of two that wait together.
use train_utils.Common.{
  ℕ, suc, ◌*◌, ◌/◌, ◌≤◌, ◌<◌, ◌≡◌, ◌≢◌, refl, ap, sym, ◌∙◌, arith, false, Option, none, some, List,
  [], ◌∷◌, ◌++◌, lt→ltb, append-nil, bit_and, bit_xor, write_from,
}
use train_utils.Common.Bits.{bit_and_high, bit_and_low}
use train_utils.Common.Xor.{
  xor_bytes, bit_xor-lt, bit_xor-ones, bit_xor_comm, bit_xor_cancel, eq_of_bit_xor, bit_xor_self,
}
use train_utils.LocoNet.Context.{Message, Event, Context, remove_bytes}
use train_utils.LocoNet.Process.{
  Loop, continues, round, four_bytes, discard, Outcome, returned, overflowed, running, invalid_arg,
  emit, after_round, process_loop, process, is_opcode, deliver,
}

-- A message of four bytes on the wire: an opcode from 0xA0 to 0xBF, two data bytes below 128, and
-- the checksum that makes the exclusive or of all 0xFF.
pub record FourBytes : Type 0 where
  pub opcode : ℕ
  pub first : ℕ
  pub second : ℕ

pub record IsFourBytes (m : FourBytes) : Type 0 where
  pub opcode_from : 0xA0 ≤ m.opcode
  pub opcode_to : m.opcode ≤ 0xBF
  pub first_fits : m.first < 128
  pub second_fits : m.second < 128

abbrev pub checksum_of : FourBytes → ℕ
checksum_of m = bit_xor (bit_xor (bit_xor 0xFF m.opcode) m.first) m.second

abbrev pub wire : FourBytes → List ℕ
wire m = m.opcode ∷ m.first ∷ m.second ∷ checksum_of m ∷ []

pub class : (b : ℕ) → b < 256 → bit_and b 0xE0 ≡ b / 32 * 32
class b h = bit_and_high 5 b 7 ∙ ap (λ t. t * 32) (bit_and_low 3 (b / 32)) ∙ omega arith

data_byte : (b : ℕ) → b < 128 → is_opcode b ≡ false
data_byte b h = ground (arith, class b (omega arith))

checksum_fits : (m : FourBytes) → IsFourBytes m → checksum_of m < 128
checksum_fits m v =
    bit_xor-lt 7 (bit_xor (bit_xor 0xFF m.opcode) m.first) m.second
      (bit_xor-lt 7 (bit_xor 0xFF m.opcode) m.first
        (omega (arith, bit_xor-ones 8 m.opcode (omega arith), v.opcode_from)) (v.first_fits))
      (v.second_fits)

-- A running sum that does not start from 0xFF does not meet the checksum.
other_start :
    (k : ℕ) (m : FourBytes)
    → k ≢ 0xFF
    → bit_xor (bit_xor (bit_xor k m.opcode) m.first) m.second ≢ checksum_of m
other_start k m h e = h (cancel k 0xFF m.opcode (cancel _ _ m.first (cancel _ _ m.second e)))
  where
    cancel : (a b c : ℕ) → bit_xor a c ≡ bit_xor b c → a ≡ b
    cancel a b c p = eq_of_bit_xor a b (
        sym (bit_xor_cancel a b c)
        ∙ ap (λ t. bit_xor t (bit_xor c b)) (bit_xor_comm c a ∙ p ∙ bit_xor_comm b c)
        ∙ bit_xor_self (bit_xor c b))

abbrev pub holding : Context → List ℕ → ℕ → Context
holding c bytes n = record c { ln_buffer = bytes; ln_buffer_location = n }

-- The message as the callback sees it: `s` is what stood in the rest of the variable.
abbrev pub seen : FourBytes → List ℕ → Message
seen m s = record { opcode = m.opcode; bytes = m.first ∷ m.second ∷ checksum_of m ∷ s }

module _ (c : Context) (o s0 s1 s2 : ℕ) (s : List ℕ) where
  abbrev loop : List ℕ → ℕ → ℕ → Loop
  loop bytes n k = record {
    ctx = holding c bytes n;
    message = record { opcode = o; bytes = s0 ∷ s1 ∷ s2 ∷ s };
    checksum = k;
  }

  accepted :
      (m : FourBytes) (rest : List ℕ) (n : ℕ)
      → IsFourBytes m
      → 4 ≤ n
      → round (loop (wire m ++ rest) n 0xFF)
        ≡ continues
            (record {
              ctx = remove_bytes (holding c (wire m ++ rest) n) 4;
              message = seen m s;
              checksum = checksum_of m;
            })
            (deliver c (seen m s))
  unfolding round four_bytes xor_bytes write_from
  accepted m rest n v h =
      ground (arith, class m.opcode (omega (arith, v.opcode_to)), v.opcode_from, v.opcode_to)

  refused :
      (m : FourBytes) (rest : List ℕ) (n k : ℕ)
      → IsFourBytes m
      → 4 ≤ n
      → k ≢ 0xFF
      → round (loop (wire m ++ rest) n k)
        ≡ continues
            (record {
              ctx = remove_bytes (holding c (wire m ++ rest) n) 1;
              message = seen m s;
              checksum = bit_xor (bit_xor (bit_xor k m.opcode) m.first) m.second;
            })
            []
  unfolding round four_bytes xor_bytes write_from
  refused m rest n k v h ne = ground (
    arith,
    class m.opcode (omega (arith, v.opcode_to)),
    v.opcode_from,
    v.opcode_to,
    other_start k m ne,
  )

  -- Three bytes that are no opcodes all go in one round.
  dropped :
      (a b d k : ℕ) (rest : List ℕ)
      → a < 128
      → b < 128
      → d < 128
      → (l : Loop) × (round (loop (a ∷ b ∷ d ∷ rest) 3 k) ≡ continues l [])
        × (l.ctx.ln_buffer_location ≡ 0)
  unfolding round discard remove_bytes
  dropped a b d k rest p q r = (
    record (loop (a ∷ b ∷ d ∷ rest) 3 k) { ctx = discard 3 (holding c (a ∷ b ∷ d ∷ rest) 3) },
    ground (arith, class a (omega arith)),
    ground (arith, data_byte a p, data_byte b q, data_byte d r),
  )

step :
    (fuel : ℕ) (l l' : Loop) (es : List Event)
    → 2 < l.ctx.ln_buffer_location
    → round l ≡ continues l' es
    → process_loop (suc fuel) l ≡ emit es (process_loop fuel l')
unfolding process_loop after_round
step fuel l l' es h e = rw (lt→ltb _ _ h, e) refl

finished :
    (fuel : ℕ) (l : Loop)
    → l.ctx.ln_buffer_location ≤ 2
    → process_loop (suc fuel) l ≡ returned l.ctx []
unfolding process_loop
finished fuel l h = ground arith

-- The bytes that a call which returns leaves in the buffer, and the callbacks that it makes.
abbrev pub result : Outcome → Option (ℕ × List Event)
result (returned c es) = some (c.ln_buffer_location, es)
result (overflowed es) = none
result (running es) = none
result invalid_arg = none

-- A message of four bytes alone in the buffer is handed to the callback, and the buffer is empty.
pub one_message :
    (m : FourBytes) (c : Context) (fuel o s0 s1 s2 : ℕ) (s rest : List ℕ)
    → IsFourBytes m
    → result (
        process
          (suc (suc fuel))
          (record { opcode = o; bytes = s0 ∷ s1 ∷ s2 ∷ s })
          (some (holding c (wire m ++ rest) 4)))
      ≡ some (0, deliver c (seen m s))
unfolding process remove_bytes emit
one_message m c fuel o s0 s1 s2 s rest v =
    rw
      (
        step (suc fuel) (loop c o s0 s1 s2 s (wire m ++ rest) 4 0xFF) _ _ (omega arith)
            (accepted c o s0 s1 s2 s m rest 4 v (omega arith)),
        finished fuel
            (record {
              ctx = remove_bytes (holding c (wire m ++ rest) 4) 4;
              message = seen m s;
              checksum = checksum_of m;
            })
            (omega arith),
      )
      (ground (arith, append-nil (deliver c (seen m s))))

-- Of two messages of four bytes that wait in the buffer when the function is called, only the first
-- is handed to the callback. The second is lost with the whole buffer: its checksum is taken up
-- where that of the first ended.
pub two_messages :
    (x y : FourBytes) (c : Context) (fuel o s0 s1 s2 : ℕ) (s rest : List ℕ)
    → IsFourBytes x
    → IsFourBytes y
    → result (
        process
          (suc (suc (suc (suc fuel))))
          (record { opcode = o; bytes = s0 ∷ s1 ∷ s2 ∷ s })
          (some (holding c (wire x ++ (wire y ++ rest)) 8)))
      ≡ some (0, deliver c (seen x s))
unfolding process remove_bytes emit
two_messages x y c fuel o s0 s1 s2 s rest v w =
    let l1 = loop c o s0 s1 s2 s (wire x ++ (wire y ++ rest)) 8 0xFF in
    let s2' = checksum_of x in
    let l2 = loop c x.opcode x.first x.second s2' s (wire y ++ (wire y ++ rest)) 4 s2' in
    let first = accepted c o s0 s1 s2 s x (wire y ++ rest) 8 v (omega arith) in
    let second =
      refused c x.opcode x.first x.second s2' s y (wire y ++ rest) 4 s2' w (omega arith)
        (omega (arith, checksum_fits x v)) in
    let third =
      dropped c y.opcode y.first y.second (checksum_of y) s y.first y.second (checksum_of y)
        (bit_xor (bit_xor (bit_xor s2' y.opcode) y.first) y.second)
        (checksum_of y ∷ (wire y ++ rest)) w.first_fits w.second_fits (checksum_fits y w) in
    let seen_x = deliver c (seen x s) in
    ap result (
      step (suc (suc (suc fuel))) l1 _ seen_x (omega arith) first
      ∙ ap (emit seen_x) (
          step (suc (suc fuel)) l2 _ [] (omega arith) second
          ∙ ap (emit []) (
              step (suc fuel) _ third.0 [] (omega arith) third.1
              ∙ ap (emit []) (finished fuel third.0 (omega (arith, third.2))))))
    ∙ rw (third.2, append-nil) refl
