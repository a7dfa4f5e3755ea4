-- ===== src/LocoNet/Process/Total.antt =====
-- A buffer in which no 0xFF stands before a 0 and no message is longer than `message` is always
-- processed to the end; one that starts with 0xFF and 0 is processed for ever.
use train_utils.Common.{
  ℕ, zero, suc, ◌+◌, ◌-◌, ◌≤◌, ◌<◌, ◌≡◌, ◌≢◌, refl, ap, sym, ◌∙◌, arith, true, some, [], ◌∷◌, ◌++◌,
  ltb, ◌!=◌, write_from, get_or-set_self, length-set, set-set, lt→ltb, Bool-cases, inl, inr, length,
  length-append, length-take, length-drop, get_or, get_or-append_left, get_or-take, get_or-drop,
  take, drop, take-append-drop, set, replicate,
}
use train_utils.Common.Xor.{xor_bytes}
use train_utils.LocoNet.Context.{
  Message, incoming_message, Context, remove_bytes, update_current_time, byte,
}
use train_utils.LocoNet.Process.{
  Loop, continues, round, variable_bytes, counted, running, emit, after_round, process_loop,
  process, at,
}
use train_utils.LocoNet.Process.Termination.{Ends, IsShortAt, process_loop-Ends}

-- The buffer of a context: 128 places, the used ones holding bytes, no 0xFF before a 0, and no other
-- opcode of a message of variable length but 0xEF and 0xE7 before a byte above 15.
pub record IsClean (c : Context) : Type 0 where
  pub size : length c.ln_buffer ≡ 128
  pub in_range : c.ln_buffer_location < 128
  pub fits : (i : ℕ) → i < c.ln_buffer_location → get_or c.ln_buffer i 0 < 256
  pub moves :
      (i : ℕ)
      → suc i < c.ln_buffer_location
      → get_or c.ln_buffer i 0 ≡ 0xFF
      → get_or c.ln_buffer (suc i) 0 ≢ 0
  pub short :
      (i : ℕ)
      → suc i < c.ln_buffer_location
      → IsShortAt (get_or c.ln_buffer i 0) (get_or c.ln_buffer (suc i) 0)

-- What stands in the buffer after bytes were taken from its front.
shifted :
    (c : Context) (n i : ℕ)
    → length c.ln_buffer ≡ 128
    → c.ln_buffer_location < 128
    → n ≤ c.ln_buffer_location
    → i < c.ln_buffer_location - n
    → get_or
        (take (c.ln_buffer_location - n) (drop n c.ln_buffer)
          ++ drop (c.ln_buffer_location - n) c.ln_buffer)
        i
        0
      ≡ get_or c.ln_buffer (n + i) 0
shifted c n i size range le h =
    get_or-append_left (take (c.ln_buffer_location - n) (drop n c.ln_buffer)) _ i 0 (
      omega (
        arith,
        length-take (c.ln_buffer_location - n) (drop n c.ln_buffer),
        length-drop n c.ln_buffer,
      ))
    ∙ get_or-take (drop n c.ln_buffer) (c.ln_buffer_location - n) i 0 h
    ∙ get_or-drop c.ln_buffer n i 0

remove_bytes-IsClean : (c : Context) (n : ℕ) → IsClean c → IsClean (remove_bytes c n)
unfolding remove_bytes
remove_bytes-IsClean c n v = elim (Bool-cases (ltb c.ln_buffer_location n)) [
  | inl e ↦ rw e (record {
    size = v.size;
    in_range = omega arith;
    fits = λ i h. elim h [ ];
    moves = λ i h. elim h [ ];
    short = λ i h. elim h [ ];
  })
  | inr e ↦
      let le : n ≤ c.ln_buffer_location = ground arith in
      let left = c.ln_buffer_location - n in
      rw e (record {
        size = omega (
          arith,
          v.size,
          length-append {0} (take left (drop n c.ln_buffer)) (drop left c.ln_buffer),
          length-take {0} left (drop n c.ln_buffer),
          length-drop {0} n c.ln_buffer,
          length-drop {0} left c.ln_buffer,
          v.in_range,
        );
        in_range = omega (arith, v.in_range);
        fits = λ i h.
            omega (arith, shifted c n i v.size v.in_range le h, v.fits (n + i) (omega arith));
        moves = λ i h p z.
            let here = shifted c n i v.size v.in_range le (omega arith) in
            let there = shifted c n (suc i) v.size v.in_range le (omega arith) in
            v.moves (n + i) (omega arith) (sym here ∙ p) (
              ap (λ k. get_or c.ln_buffer k 0) {x = suc (n + i)} {y = n + suc i} (omega arith)
              ∙ sym there
              ∙ z);
        short = λ i h.
            let here = shifted c n i v.size v.in_range le (omega arith) in
            let there = shifted c n (suc i) v.size v.in_range le (omega arith) in
            let step =
              ap (λ k. get_or c.ln_buffer k 0) {x = suc (n + i)} {y = n + suc i} (omega arith) in
            rw (here, there ∙ sym step) (v.short (n + i) (omega arith));
      })
]

update_current_time-IsClean :
    (c : Context) (m : Message) → IsClean c → IsClean (update_current_time c m)
unfolding update_current_time
update_current_time-IsClean c m v = elim (Bool-cases (byte m 1 != 123)) [
  | inl e ↦ rw e v
  | inr e ↦ rw e (record {
    size = v.size;
    in_range = v.in_range;
    fits = v.fits;
    moves = v.moves;
    short = v.short;
  })
]

live :
    (c : Context)
    → IsClean c
    → 2 < c.ln_buffer_location
    → (at c 0 ≡ 0xFF → at c 1 ≢ 0) × (at c 0 < 256) × IsShortAt (at c 0) (at c 1)
live c v h = (v.moves 0 (omega arith), v.fits 0 (omega arith), v.short 0 (omega arith))

-- On a buffer in which no 0xFF stands before a 0, and no opcode of a message of variable length but
-- 0xEF and 0xE7 before a length above 15, `loconet_context_process` returns, with a buffer that is
-- again such: it neither loops nor writes past `message`. The fuel that is enough is the number of
-- bytes in the buffer, and one more.
pub process-Ends :
    (fuel : ℕ) (stack : Message) (c : Context)
    → length stack.bytes ≡ 16
    → IsClean c
    → c.ln_buffer_location < fuel
    → Ends IsClean (process fuel stack (some c))
unfolding process
process-Ends fuel stack c size v h = elim (Bool-cases (ltb c.ln_buffer_location 2)) [
  | inl e ↦ rw e v
  | inr e ↦ rw e (
      process_loop-Ends IsClean remove_bytes-IsClean update_current_time-IsClean live fuel
        (record { ctx = c; message = stack; checksum = 0xFF }) h v size)
]

nothing_removed : (c : Context) → remove_bytes c 0 ≡ c
unfolding remove_bytes
nothing_removed c = ground (arith, take-append-drop (c.ln_buffer_location - 0) c.ln_buffer)

module _ (l : Loop) (big : 2 < l.ctx.ln_buffer_location) (first : at l.ctx 0 ≡ 0xFF)
    (second : at l.ctx 1 ≡ 0) (calls : l.ctx.message_callback_set ≡ true)
    (size : length l.message.bytes ≡ 16) where
  stalled : Loop
  stalled = record l { message = record { opcode = 0xFF; bytes = set l.message.bytes 0 0 } }

  round-stalled : round l ≡ continues stalled (incoming_message stalled.message ∷ [])
  unfolding stalled round variable_bytes counted xor_bytes write_from
  round-stalled =
      rw (first, second, nothing_removed)
        (ground (arith, get_or-set_self l.message.bytes 0 0 0 (omega arith)))

-- A buffer of three or more bytes that starts with 0xFF and 0 is never left: for every amount of
-- fuel the loop is still running, has called the callback in each round with the same message, and
-- so does not end.
pub process_loop_stalls :
    (fuel : ℕ) (l : Loop)
    → 2 < l.ctx.ln_buffer_location
    → at l.ctx 0 ≡ 0xFF
    → at l.ctx 1 ≡ 0
    → l.ctx.message_callback_set ≡ true
    → length l.message.bytes ≡ 16
    → process_loop fuel l
      ≡ running (
          replicate fuel
            (incoming_message (record { opcode = 0xFF; bytes = set l.message.bytes 0 0 })))
unfolding process_loop after_round emit stalled
process_loop_stalls zero l big first second calls size = refl
process_loop_stalls (suc fuel) l big first second calls size =
    rw
      (
        lt→ltb _ _ big,
        round-stalled l big first second calls size,
        process_loop_stalls fuel (stalled l big first second calls size) big first second calls
            (length-set l.message.bytes 0 0 ∙ size),
        set-set l.message.bytes 0 0 0,
      )
      refl
