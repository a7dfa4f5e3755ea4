-- ===== src/CabBus/Answer.antt =====
-- CabBusCommunications/CabBus.c: the answer of a cab whose second byte comes late, or not at all.
use train_utils.Common.{
  ℕ, zero, suc, ◌≡◌, refl, ap, ◌∙◌, inl, inr, true, false, arith, none, List, [], ◌∷◌,
  if◌then◌else◌, ltb, ◌==◌, has_bits, Bool-cases,
}
use train_utils.CabBus.Bus.{
  BusContext, incoming_byte, await_second, answer, mark_unseen, clear_command, ping_step2,
}

-- The interrupt brings one byte, when `m` looks are left of the thousand and one.
abbrev pub late : ℕ → ℕ → ℕ → List ℕ
late m byte k = if k == m then byte ∷ [] else []

there :
    (n : ℕ) (arrivals : ℕ → List ℕ) (c : BusContext)
    → c.byte_status ≡ 3
    → await_second arrivals n c ≡ (true, c)
unfolding await_second
there zero arrivals c e = rw e refl
there (suc n) arrivals c e = rw e refl

second : (c : BusContext) (byte : ℕ) → c.byte_status ≡ 1 → (incoming_byte c byte).byte_status ≡ 3
unfolding incoming_byte
second c byte e = ground (arith, e)

waiting :
    (n m byte : ℕ) (c : BusContext)
    → c.byte_status ≡ 1
    → await_second (late m byte) n c
      ≡ (if ltb m n then (true, incoming_byte c byte) else (false, c))
unfolding await_second
waiting zero m byte c e =
    let one : has_bits c.byte_status 2 ≡ false = ap (λ s. has_bits s 2) e in
    let none_left : ltb m 0 ≡ false = ground arith in rw (one, none_left) refl
waiting (suc n) m byte c e =
    let one : has_bits c.byte_status 2 ≡ false = ap (λ s. has_bits s 2) e in
    elim (Bool-cases (n == m)) [
      | inl q ↦
          (let now : ltb m (suc n) ≡ true = ground (arith, q) in
            rw (one, q, now) (there n (late m byte) (incoming_byte c byte) (second c byte e)))
      | inr q ↦
          (let same_test : ltb m (suc n) ≡ ltb m n = ground (arith, q) in
            rw (one, q, same_test) (waiting n m byte c e))
    ]

kept_status : (c : BusContext) → (clear_command (mark_unseen c)).byte_status ≡ c.byte_status
unfolding clear_command mark_unseen
kept_status c = ground arith

-- After the first byte of an answer, `cabbus_ping_step2` serves the cab that was polled, with both
-- bytes, when the second byte comes before the last of its thousand and one looks. When the second byte
-- comes later or never, it returns no cab, writes nothing, and forgets the first byte; the cab has lost
-- its command.
pub late_lem :
    (c : BusContext) (m byte : ℕ)
    → c.byte_status ≡ 1
    → ping_step2 (late m byte) c ≡ (
        let d = clear_command (mark_unseen c) in
        if ltb m 1000
        then answer (true, incoming_byte d byte)
        else record { context = record d { byte_status = 0 }; answered = none; events = [] })
unfolding ping_step2
late_lem c m byte e =
    let d = clear_command (mark_unseen c) in
    let first : has_bits c.byte_status 1 ≡ true = ap (λ s. has_bits s 1) e in
    let w = waiting 1000 m byte d (kept_status c ∙ e) in
    elim (Bool-cases (ltb m 1000)) [ inl l ↦ rw (first, w, l) refl | inr l ↦ rw (first, w, l) refl ]
