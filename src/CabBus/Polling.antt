-- ===== src/CabBus/Polling.antt =====
-- CabBusCommunications/CabBus.c: every cab is polled again.
use train_utils.Common.{
  ℕ, zero, suc, ◌+◌, ◌-◌, ◌*◌, ◌%◌, ◌^◌, ◌≤◌, ◌<◌, ◌≡◌, refl, sym, ap, subst, ◌∙◌, ◌⊎◌, inl, inr,
  true, false, arith, some, List, if◌then◌else◌, ltb, ◌==◌, Bool-cases, ltb→lt, u32, sub32,
}
use train_utils.Common.Table.{le_split}
use train_utils.CabBus.Bus.{
  BusContext, BusEvent, cab_at, is_due, step_address, next_from, next_ping_address, send_ping,
  ping_step1,
}

-- Pings one after another, each with what `cabbus_ping_step1` leaves, when no cab answers.
pub data Pings : ℕ → BusContext → BusContext → Type 0 where
  here : {c : BusContext} → Pings 0 c c
  ping :
      {n : ℕ} {c d e : BusContext} (evs : List BusEvent)
      → ping_step1 c ≡ some (d, evs)
      → Pings n d e
      → Pings (suc n) c e

Pings-trans : {m n : ℕ} {c d e : BusContext} → Pings m c d → Pings n d e → Pings (m + n) c e
Pings-trans {n = n} {c = c} {e = e} here q = subst (λ k. Pings k c e) (omega arith) q
Pings-trans {n = n} {c = c} {e = e} (ping {n = k} evs s p) q =
    subst (λ j. Pings j c e) (omega arith) (ping {n = k + n} evs s (Pings-trans p q))

abbrev pub at : BusContext → ℕ → ℕ → BusContext
at c address pings = record c { current_cab_addr = address; ping_num = pings }

step_forward : (a : ℕ) → a < 64 → (a < step_address a) × (step_address a ≤ 64)
step_forward a h = ground arith

step_within : (a t : ℕ) → a < t → t < 64 → 3 ≤ t → step_address a ≤ t
step_within a t h l b = ground arith

before : (c : BusContext) (s t : ℕ) → s ≤ t → is_due c t ≡ true → is_due c s ≡ false → s < t
before c s t w e f = elim (le_split s t w) [
  | inl l ↦ l
  | inr p ↦ (let q : true ≡ false = sym e ∙ ap (is_due c) (sym p) ∙ f in absurd cc)
]

-- A due address ahead: the next ping goes there or to one before it.
next_before :
    (fuel : ℕ) (c : BusContext) (a t : ℕ)
    → a < t
    → t < 64
    → 3 ≤ t
    → is_due c t ≡ true
    → 64 ≤ fuel + a
    → (b : ℕ) × (next_from fuel c a ≡ some (b, c.ping_num)) × (a < b) × (b ≤ t)
unfolding next_from
next_before zero c a t h l low due enough = absurd (omega arith)
next_before (suc fuel) c a t h l low due enough =
    let s = step_forward a (omega arith) in
    let w = step_within a t h l low in
    let n : (step_address a == 64) ≡ false = ground (arith, w) in
    elim (Bool-cases (is_due c (step_address a))) [
      | inl d ↦ (step_address a, rw (n, d) refl, s.0, w)
      | inr d ↦
          (let ahead : step_address a < t = before c (step_address a) t w due d in
            let (b, e, lt, le) =
              next_before fuel c (step_address a) t ahead l low due (omega (arith, s.0)) in
            (b, rw (n, d) e, omega (arith, s.0), le))
    ]

-- The next ping goes to an address ahead, or to address 0 with one ping more counted.
pub next_any :
    (fuel : ℕ) (c : BusContext) (a : ℕ)
    → a < 64
    → 64 ≤ fuel + a
    → ((b : ℕ) × (next_from fuel c a ≡ some (b, c.ping_num)) × (a < b) × (b < 64))
      ⊎ (next_from fuel c a ≡ some (0, u32 (c.ping_num + 1)))
unfolding next_from
next_any zero c a h enough = absurd (omega arith)
next_any (suc fuel) c a h enough =
    let s = step_forward a h in
    elim (Bool-cases (step_address a == 64)) [
      | inl n ↦ inr (rw n refl)
      | inr n ↦ elim (Bool-cases (is_due c (step_address a))) [
        | inl d ↦ inl (step_address a, rw (n, d) refl, s.0, ground (arith, n, s.1))
        | inr d ↦
            elim (next_any fuel c (step_address a) (ground (arith, n, s.1)) (omega (arith, s.0))) [
              | inl r ↦ inl (r.0, rw (n, d) r.1, omega (arith, r.2, s.0), r.3)
              | inr r ↦ inr (rw (n, d) r)
            ]
      ]
    ]

pub step_of :
    (c : BusContext) (b p : ℕ)
    → next_from 64 c c.current_cab_addr ≡ some (b, p)
    → (evs : List BusEvent) × (ping_step1 c ≡ some (at c b p, evs))
unfolding ping_step1 next_ping_address
step_of c b p e = (_, ap (send_ping c) e)

-- A due address ahead is reached, and nothing but the address has changed on the way.
reach_ahead :
    (m : ℕ) (c : BusContext) (t : ℕ)
    → c.current_cab_addr < t
    → t < 64
    → 3 ≤ t
    → is_due c t ≡ true
    → t ≤ m + c.current_cab_addr
    → (k : ℕ) × (e : BusContext) × (k ≤ m) × Pings k c e × (e.current_cab_addr ≡ t)
unfolding is_due cab_at
reach_ahead zero c t h l low due enough = absurd (omega arith)
reach_ahead (suc m) c t h l low due enough =
    let (b, e, gt, le) = next_before 64 c c.current_cab_addr t h l low due (omega arith) in
    let (evs, s) = step_of c b c.ping_num e in
    elim (le_split b t le) [
      | inr q ↦ (1, at c b c.ping_num, omega arith, ping evs s here, q)
      | inl lt ↦
          (let (k, f, small, p, q) =
              reach_ahead m (at c b c.ping_num) t lt l low due (omega arith) in
            (suc k, f, omega arith, ping evs s p, q))
    ]

-- A round ends at address 0, and counts.
one_round :
    (m : ℕ) (c : BusContext)
    → c.current_cab_addr < 64
    → 64 ≤ m + c.current_cab_addr
    → (k : ℕ) × (1 ≤ k) × (k ≤ m) × Pings k c (at c 0 (u32 (c.ping_num + 1)))
one_round zero c h enough = absurd (omega arith)
one_round (suc m) c h enough = elim (next_any 64 c c.current_cab_addr h (omega arith)) [
  | inl (b, e, gt, lt) ↦
      (let (evs, s) = step_of c b c.ping_num e in
        let (k, some_pings, small, p) = one_round m (at c b c.ping_num) lt (omega arith) in
        (suc k, omega arith, omega arith, ping evs s p))
  | inr e ↦
      (let (evs, s) = step_of c 0 (u32 (c.ping_num + 1)) e in
        (1, omega arith, omega arith, ping evs s here))
]

rounds :
    (j : ℕ) (c : BusContext)
    → c.current_cab_addr < 64
    → (k : ℕ) × (1 ≤ k) × (k ≤ 64 * suc j) × Pings k c (at c 0 (u32 (c.ping_num + suc j)))
rounds zero c h =
    let (k, some_pings, small, p) = one_round 64 c h (omega arith) in
    (k, some_pings, omega arith, p)
rounds (suc j) c h =
    let (k, some_pings, small, p) = one_round 64 c h (omega arith) in
    let (i, more, few, q) = rounds j (at c 0 (u32 (c.ping_num + 1))) (omega arith) in
    (
      k + i,
      omega arith,
      omega arith,
      subst (λ z. Pings (k + i) c (at c 0 z)) (omega arith) (Pings-trans p q),
    )

-- How many pings ago the cab at an address answered.
abbrev pub unseen : BusContext → ℕ → ℕ
unseen c t = sub32 c.ping_num (cab_at c t).last_ping

rest_of_four : (n : ℕ) → (n % 4 ≡ 0) ⊎ ((n % 4 ≡ 1) ⊎ ((n % 4 ≡ 2) ⊎ (n % 4 ≡ 3)))
rest_of_four n = ground arith

module _ (c : BusContext) (t : ℕ) (byte : c.ping_num < 2 ^ 32)
    (seen : (cab_at c t).last_ping < 2 ^ 32) where
  due_recent : unseen c t < 29 → is_due (at c 0 (u32 (c.ping_num + 1))) t ≡ true
  unfolding is_due cab_at
  due_recent h = ground (arith, h, byte, seen)

  due_at :
      (j : ℕ)
      → 31 ≤ unseen c t + j
      → unseen c t + j < 2 ^ 32
      → (c.ping_num + j + (cab_at c t).number) % 4 ≡ 0
      → is_due (at c 0 (u32 (c.ping_num + j))) t ≡ true
  unfolding is_due cab_at
  due_at j h l e = ground (arith, h, l, e, byte, seen)

  due_rare :
      29 ≤ unseen c t
      → unseen c t < 2 ^ 32 - 5
      → (j : ℕ) × (j ≤ 4) × (is_due (at c 0 (u32 (c.ping_num + suc j))) t ≡ true)
  due_rare h l = elim (rest_of_four (c.ping_num + (cab_at c t).number)) [
    | inl e ↦ (3, omega arith, due_at 4 (omega arith) (omega arith) (omega arith))
    | inr (inl e) ↦ (2, omega arith, due_at 3 (omega arith) (omega arith) (omega arith))
    | inr (inr (inl e)) ↦ (1, omega arith, due_at 2 (omega arith) (omega arith) (omega arith))
    | inr (inr (inr e)) ↦ (4, omega arith, due_at 5 (omega arith) (omega arith) (omega arith))
  ]

-- While no cab answers, address 0 and each address from 3 to 63 is polled again, also the one that was
-- polled last, unless the address's cab answered nearly 2 ^ 32 rounds ago: after 1 to 128 pings where
-- it answered in one of the last 28 rounds, and after 1 to 384 pings otherwise.
pub poll_lem :
    (c : BusContext) (t : ℕ)
    → c.current_cab_addr < 64
    → c.ping_num < 2 ^ 32
    → (cab_at c t).last_ping < 2 ^ 32
    → unseen c t < 2 ^ 32 - 5
    → (t ≡ 0) ⊎ (3 ≤ t)
    → t < 64
    → (k : ℕ) × (e : BusContext) × (1 ≤ k)
      × (k ≤ (if ltb (unseen c t) 29 then 128 else 384))
      × Pings k c e
      × (e.current_cab_addr ≡ t)
poll_lem c t h byte seen far (inl zero_address) high =
    let (k, some_pings, small, p) = one_round 64 c h (omega arith) in
    (k, at c 0 (u32 (c.ping_num + 1)), some_pings, ground (arith, small), p, sym zero_address)
poll_lem c t h byte seen far (inr low) high = elim (Bool-cases (ltb (unseen c t) 29)) [
  | inl r ↦
      (let (i, some_pings, few, p) = rounds 0 c h in
        let due = due_recent c t byte seen (ltb→lt _ _ r) in
        let (k, e, small, q, at_t) =
          reach_ahead 64 (at c 0 (u32 (c.ping_num + 1))) t (omega arith) high low due
            (omega arith) in
        (i + k, e, omega arith, rw r (omega arith), Pings-trans p q, at_t))
  | inr r ↦
      (let (j, round, due) = due_rare c t byte seen (ground (arith, r)) far in
        let (i, some_pings, few, p) = rounds j c h in
        let (k, e, small, q, at_t) =
          reach_ahead 64 (at c 0 (u32 (c.ping_num + suc j))) t (omega arith) high low due
            (omega arith) in
        (i + k, e, omega arith, rw r (omega arith), Pings-trans p q, at_t))
]
