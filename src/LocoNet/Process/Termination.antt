-- ===== src/LocoNet/Process/Termination.antt =====
-- How long `loconet_context_process` runs, and that it stays inside `message`.
use train_utils.Common.{
  ℕ, zero, suc, ◌-◌, ◌≤◌, ◌<◌, ◌≡◌, ◌≢◌, arith, false, List, inl, inr, Bool-cases, ltb, ltb→lt,
  ◌==◌, bit_and, length, length-set, get_or-set_self, length-write_from, write_from, take, get_or,
  bit_xor, sym, ◌∙◌, set,
}
use train_utils.Common.Xor.{xor_bytes, eq_of_bit_xor}
use train_utils.LocoNet.Context.{Message, Event, Context, remove_bytes, update_current_time, byte}
use train_utils.LocoNet.Process.{
  Loop, Round, returns, continues, overflows, round, discard, Outcome, returned, overflowed,
  running, invalid_arg, emit, after_round, process_loop, at, is_opcode, slice, two_bytes,
  four_bytes, six_bytes, slot_data, counted, variable_bytes,
}

remove_bytes-location :
    (c : Context) (n : ℕ) → (remove_bytes c n).ln_buffer_location ≡ c.ln_buffer_location - n
unfolding remove_bytes
remove_bytes-location c n = ground arith

update-location :
    (c : Context) (m : Message)
    → (update_current_time c m).ln_buffer_location ≡ c.ln_buffer_location
unfolding update_current_time
update-location c m = ground arith

discard-le : (n : ℕ) (c : Context) → (discard n c).ln_buffer_location ≤ c.ln_buffer_location
unfolding discard
discard-le zero c = omega arith
discard-le (suc n) c = ground (arith, remove_bytes-location c 1, discard-le n (remove_bytes c 1))

discard-lt :
    (n : ℕ) (c : Context)
    → is_opcode (at c 0) ≡ false
    → 0 < c.ln_buffer_location
    → (discard (suc n) c).ln_buffer_location < c.ln_buffer_location
unfolding discard
discard-lt n c h p = ground (arith, h, remove_bytes-location c 1, discard-le n (remove_bytes c 1))

-- The test of a message of length 0.
zero_length :
    (l : Loop) (n : ℕ)
    → n ≡ 0
    → l.message.opcode < 256
    → byte l.message 0 ≡ n
    → xor_bytes
        (bit_xor 0xFF l.message.opcode)
        (take n (write_from l.message.bytes 1 (slice l.ctx 2 n)))
      ≡ get_or (write_from l.message.bytes 1 (slice l.ctx 2 n)) n 0
    → l.message.opcode ≡ 0xFF
unfolding xor_bytes write_from
zero_length l zero z h e p = sym (eq_of_bit_xor 0xFF l.message.opcode (p ∙ e))
zero_length l (suc n) z h e p = absurd (omega arith)

-- The function has returned, with a context that has the property.
abbrev pub Ends : (Context → Type 0) → Outcome → Type 0
Ends P (returned c es) = P c
Ends P (overflowed es) = ⊥
Ends P (running es) = ⊥
Ends P invalid_arg = ⊥

emit-Ends : (P : Context → Type 0) (es : List Event) (o : Outcome) → Ends P o → Ends P (emit es o)
unfolding emit
emit-Ends P es (returned c fs) h = h
emit-Ends P es (overflowed fs) h = h
emit-Ends P es (running fs) h = h
emit-Ends P es invalid_arg h = h

-- The first byte announces no more than the 15 bytes that `message` has room for behind the second.
abbrev pub IsShortAt : ℕ → ℕ → Type 0
IsShortAt first second = bit_and first 0xE0 ≡ 0xE0 → first ≢ 0xEF → first ≢ 0xE7 → second ≤ 15

-- A property that every change of the buffer keeps.
module _ (P : Context → Type 0) (remove : (c : Context) (n : ℕ) → P c → P (remove_bytes c n))
    (time : (c : Context) (m : Message) → P c → P (update_current_time c m))
    (live : (c : Context)
      → P c
      → 2 < c.ln_buffer_location
      → (at c 0 ≡ 0xFF → at c 1 ≢ 0) × (at c 0 < 256) × IsShortAt (at c 0) (at c 1)) where
  discard-keeps : (n : ℕ) (c : Context) → P c → P (discard n c)
  unfolding discard
  discard-keeps zero c v = v
  discard-keeps (suc n) c v =
      let first = remove c 1 v in
      let rest = discard-keeps n (remove_bytes c 1) first in
      elim (Bool-cases (is_opcode (at c 0))) [
        | inl e ↦ rw e v
        | inr e ↦ rw e (elim (Bool-cases ((remove_bytes c 1).ln_buffer_location == 0)) [
          | inl z ↦ rw z first
          | inr z ↦ rw z rest
        ])
      ]

  -- If the loop goes on, the buffer is shorter and the property holds of it.
  abbrev Next : ℕ → Round → Type 0
  Next n (returns l) = P l.ctx
  Next n (continues l es) = (l.ctx.ln_buffer_location < n) × P l.ctx × (length l.message.bytes ≡ 16)
  Next n overflows = ⊥

  module _ (l : Loop) (big : 2 < l.ctx.ln_buffer_location) (v : P l.ctx)
      (size : length l.message.bytes ≡ 16) where
    two_bytes-Next : Next l.ctx.ln_buffer_location (two_bytes l)
    unfolding two_bytes
    two_bytes-Next = ground (
      arith,
      remove_bytes-location l.ctx 1,
      remove_bytes-location l.ctx 2,
      remove l.ctx 1 v,
      remove l.ctx 2 v,
      length-set l.message.bytes 0 (at l.ctx 1),
    )

    four_bytes-Next : Next l.ctx.ln_buffer_location (four_bytes l)
    unfolding four_bytes
    four_bytes-Next = ground (
      arith,
      remove_bytes-location l.ctx 1,
      remove_bytes-location l.ctx 4,
      remove l.ctx 1 v,
      remove l.ctx 4 v,
      length-write_from l.message.bytes 0 (slice l.ctx 1 3),
    )

    six_bytes-Next : Next l.ctx.ln_buffer_location (six_bytes l)
    unfolding six_bytes
    six_bytes-Next = ground (
      arith,
      remove_bytes-location l.ctx 1,
      remove_bytes-location l.ctx 6,
      remove l.ctx 1 v,
      remove l.ctx 6 v,
      length-write_from l.message.bytes 0 (slice l.ctx 1 5),
    )

    slot_data-Next : Next l.ctx.ln_buffer_location (slot_data l)
    unfolding slot_data
    slot_data-Next =
        let m : Message = record {
          opcode = l.message.opcode;
          bytes = write_from l.message.bytes 1 (slice l.ctx 2 12);
        } in
        ground (
          arith,
          remove_bytes-location l.ctx 1,
          remove_bytes-location l.ctx 14,
          update-location (remove_bytes l.ctx 14) m,
          remove l.ctx 1 v,
          remove l.ctx 14 v,
          time (remove_bytes l.ctx 14) m (remove l.ctx 14 v),
          length-write_from l.message.bytes 1 (slice l.ctx 2 12),
        )

    -- A message of length 0 leaves the buffer as it is, if it is accepted.
    counted-Next :
        (l.message.opcode ≡ 0xFF → at l.ctx 1 ≢ 0)
        → l.message.opcode < 256
        → byte l.message 0 ≡ at l.ctx 1
        → at l.ctx 1 ≤ 15
        → Next l.ctx.ln_buffer_location (counted l)
    unfolding counted
    counted-Next live fits second short =
        let n = at l.ctx 1 in
        ground (
          arith,
          remove_bytes-location l.ctx 1,
          remove_bytes-location l.ctx n,
          remove l.ctx 1 v,
          remove l.ctx n v,
          length-write_from l.message.bytes 1 (slice l.ctx 2 n),
          zero_length l n,
        )

  variable_bytes-Next :
      (l : Loop)
      → 2 < l.ctx.ln_buffer_location
      → P l.ctx
      → length l.message.bytes ≡ 16
      → bit_and (at l.ctx 0) 0xE0 ≡ 0xE0
      → Next l.ctx.ln_buffer_location (variable_bytes l)
  unfolding variable_bytes
  variable_bytes-Next l big v size type =
      let m : Message = record {
        opcode = at l.ctx 0;
        bytes = set l.message.bytes 0 (at l.ctx 1);
      } in
      let l' = record l { message = m } in
      let sized = length-set l.message.bytes 0 (at l.ctx 1) ∙ size in
      let second = get_or-set_self l.message.bytes 0 (at l.ctx 1) 0 (omega arith) in
      ground (
        arith,
        slot_data-Next l' big v sized,
        counted-Next l' big v sized (live l.ctx v big).0 (live l.ctx v big).1 second,
        (live l.ctx v big).2,
      )

  discard-Next :
      (k : ℕ) (c : Context)
      → 0 < k
      → 0 < c.ln_buffer_location
      → is_opcode (at c 0) ≡ false
      → P c
      → ((discard k c).ln_buffer_location < c.ln_buffer_location) × P (discard k c)
  discard-Next zero c p q h v = absurd (omega arith)
  discard-Next (suc n) c p q h v = (discard-lt n c h q, discard-keeps (suc n) c v)

  round-Next :
      (l : Loop)
      → 2 < l.ctx.ln_buffer_location
      → P l.ctx
      → length l.message.bytes ≡ 16
      → Next l.ctx.ln_buffer_location (round l)
  unfolding round
  round-Next l big v size = ground (
    arith,
    two_bytes-Next l big v size,
    four_bytes-Next l big v size,
    six_bytes-Next l big v size,
    variable_bytes-Next l big v size,
    discard-Next l.ctx.ln_buffer_location l.ctx (omega arith) (omega arith),
  )

  after_round-Ends :
      (n : ℕ) (rest : Loop → Outcome) (r : Round)
      → Next n r
      → ((l' : Loop)
          → l'.ctx.ln_buffer_location < n
          → P l'.ctx
          → length l'.message.bytes ≡ 16
          → Ends P (rest l'))
      → Ends P (after_round rest r)
  unfolding after_round
  after_round-Ends n rest (returns l) h all = h
  after_round-Ends n rest (continues l es) h all = emit-Ends P es (rest l) (all l h.0 h.1 h.2)
  after_round-Ends n rest overflows h all = h

  pub process_loop-Ends :
      (fuel : ℕ) (l : Loop)
      → l.ctx.ln_buffer_location < fuel
      → P l.ctx
      → length l.message.bytes ≡ 16
      → Ends P (process_loop fuel l)
  unfolding process_loop
  process_loop-Ends zero l h v size = elim h [ ]
  process_loop-Ends (suc fuel) l h v size = elim (Bool-cases (ltb 2 l.ctx.ln_buffer_location)) [
    | inr e ↦ rw e v
    | inl e ↦ rw e (
        after_round-Ends l.ctx.ln_buffer_location (process_loop fuel) (round l)
          (round-Next l (ltb→lt _ _ e) v size)
          (λ l' shorter v' size'. process_loop-Ends fuel l' (omega arith) v' size'))
  ]
