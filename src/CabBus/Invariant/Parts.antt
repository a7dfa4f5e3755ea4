-- ===== src/CabBus/Invariant/Parts.antt =====
-- CabBusCommunications/CabBus.c: the invariant of a bus, under its own operations.
use train_utils.Common.{
  ℕ, zero, suc, ◌+◌, ◌^◌, ◌<◌, ◌≡◌, refl, ap, ◌∙◌, inl, inr, Bool, true, false, arith, List, [],
  ◌∷◌, ltb, ◌==◌, has_bits, Bool-cases, All, length, length-set, set, get_or, sub32,
}
use train_utils.CabBus.Cab.{Cab, set_direction}
use train_utils.CabBus.Flags.{all_dirty-lt}
use train_utils.CabBus.Bus.{
  BusContext, zeroed_cab, default_cab, default_cabs, new_bus, cab_at, ping_step2, incoming_byte,
  incoming_bytes, await_second, put_cab, answer, mark_unseen, clear_command,
}
use train_utils.CabBus.Polling.{at}
use train_utils.CabBus.Invariant.{
  IsValid, no_cursor_fits, set_time-IsValid, set_loco_number-IsValid, speed-IsValid,
  set_functions-IsValid, command-IsValid, dirty-IsValid, changed,
}
use train_utils.CabBus.Invariant.Pressed.{serve_cab-IsValid}

-- The number of bytes of an answer that came.
pub data ByteStatus : ℕ → Type 0 where
  no_byte : ByteStatus 0
  one_byte : ByteStatus 1
  two_bytes : ByteStatus 3

pub record IsBus (c : BusContext) : Type 0 where
  pub count : length c.all_cabs ≡ 64
  pub cabs : All IsValid c.all_cabs
  pub current : c.current_cab_addr < 64
  pub pings : c.ping_num < 2 ^ 32
  pub status : ByteStatus c.byte_status

All-set : (cs : List Cab) (i : ℕ) (d : Cab) → All IsValid cs → IsValid d → All IsValid (set cs i d)
All-set [] i d v w = tt
All-set (c ∷ cs) zero d v w = (w, v.1)
All-set (c ∷ cs) (suc i) d v w = (v.0, All-set cs i d v.1 w)

All-get_or :
    (cs : List Cab) (i : ℕ) (d : Cab) → All IsValid cs → IsValid d → IsValid (get_or cs i d)
All-get_or [] i d v w = w
All-get_or (c ∷ cs) zero d v w = v.0
All-get_or (c ∷ cs) (suc i) d v w = All-get_or cs i d v.1 w

zeroed_cab-IsValid : (number : ℕ) → IsValid (zeroed_cab number)
unfolding zeroed_cab
zeroed_cab-IsValid number = record {
  top = refl;
  bottom = refl;
  dirty = omega arith;
  speed = omega arith;
  loco = omega arith;
  selecting = omega arith;
  functions = omega arith;
  cursor = no_cursor_fits;
}

default_cab-IsValid : (number : ℕ) → IsValid (default_cab number)
unfolding default_cab set_direction
default_cab-IsValid number =
    let a = set_loco_number-IsValid (zeroed_cab number) (zeroed_cab-IsValid number) 44 in
    let b = speed-IsValid _ a _ 0 in
    let c = set_functions-IsValid _ (set_time-IsValid _ b 5 55 true) 1 true in
    let d = speed-IsValid _ c _ _ in changed _ d refl refl (omega arith) d.selecting d.cursor

default_cabs-IsValid : (x n : ℕ) → (length (default_cabs x n) ≡ n) × All IsValid (default_cabs x n)
unfolding default_cabs
default_cabs-IsValid x zero = (refl, tt)
default_cabs-IsValid x (suc n) =
    let r = default_cabs-IsValid (x + 1) n in (ap suc r.0, (default_cab-IsValid x, r.1))

pub new_bus-IsBus : IsBus new_bus
unfolding new_bus
new_bus-IsBus =
    let r = default_cabs-IsValid 0 64 in
    record { count = r.0; cabs = r.1; current = omega arith; pings = omega arith; status = no_byte }

module _ (c : BusContext) (v : IsBus c) where
  pub cab_at-IsValid : (a : ℕ) → IsValid (cab_at c a)
  unfolding cab_at
  cab_at-IsValid a = All-get_or c.all_cabs a (zeroed_cab a) v.cabs (zeroed_cab-IsValid a)

  pub put_cab-IsBus : (a : ℕ) (d : Cab) → IsValid d → IsBus (put_cab c a d)
  put_cab-IsBus a d w = record {
    count = length-set c.all_cabs a d ∙ v.count;
    cabs = All-set c.all_cabs a d v.cabs w;
    current = v.current;
    pings = v.pings;
    status = v.status;
  }

  pub incoming_byte-IsBus : (byte : ℕ) → IsBus (incoming_byte c byte)
  unfolding incoming_byte
  incoming_byte-IsBus byte = elim (Bool-cases (c.byte_status == 0)) [
    | inl e ↦ rw e (status_is 1 one_byte)
    | inr e ↦ elim (Bool-cases (c.byte_status == 1)) [
      | inl f ↦ rw (e, f) (status_is 3 two_bytes)
      | inr f ↦ rw (e, f) (status_is 0 no_byte)
    ]
  ]
    where
      status_is :
          {x y : ℕ} (s : ℕ)
          → ByteStatus s
          → IsBus (record c { first_byte = x; second_byte = y; byte_status = s })
      status_is s w = record {
        count = v.count;
        cabs = v.cabs;
        current = v.current;
        pings = v.pings;
        status = w;
      }

  pub at-IsBus : (a p : ℕ) → a < 64 → p < 2 ^ 32 → IsBus (at c a p)
  at-IsBus a p h l = record {
    count = v.count;
    cabs = v.cabs;
    current = h;
    pings = l;
    status = v.status;
  }

  mark_unseen-IsBus : IsBus (mark_unseen c)
  unfolding mark_unseen
  mark_unseen-IsBus =
      let d = cab_at c c.current_cab_addr in
      let w = cab_at-IsValid c.current_cab_addr in
      elim (Bool-cases (ltb 1 (sub32 c.ping_num d.last_ping))) [
        | inl e ↦ rw e (
            put_cab-IsBus c.current_cab_addr _
              (dirty-IsValid d w _ (all_dirty-lt d.dirty_screens w.dirty)))
        | inr e ↦ rw e v
      ]

  clear_command-IsBus : IsBus (clear_command c)
  unfolding clear_command
  clear_command-IsBus =
      put_cab-IsBus c.current_cab_addr _ (command-IsValid _ (cab_at-IsValid c.current_cab_addr) _)

incoming_bytes-IsBus : (c : BusContext) (bs : List ℕ) → IsBus c → IsBus (incoming_bytes c bs)
incoming_bytes-IsBus c [] v = v
incoming_bytes-IsBus c (b ∷ bs) v =
    incoming_bytes-IsBus (incoming_byte c b) bs (incoming_byte-IsBus c v b)

await_second-IsBus :
    (arrivals : ℕ → List ℕ) (n : ℕ) (c : BusContext) → IsBus c → IsBus (await_second arrivals n c).1
unfolding await_second
await_second-IsBus arrivals zero c v = v
await_second-IsBus arrivals (suc n) c v =
    let w =
      await_second-IsBus arrivals n (incoming_bytes c (arrivals n))
        (incoming_bytes-IsBus c (arrivals n) v) in
    elim (Bool-cases (has_bits c.byte_status 2)) [ inl e ↦ rw e v | inr e ↦ rw e w ]

taken-IsBus : (c : BusContext) → IsBus c → IsBus (record c { byte_status = 0 })
taken-IsBus c v = record {
  count = v.count;
  cabs = v.cabs;
  current = v.current;
  pings = v.pings;
  status = no_byte;
}

answer-IsBus : (b : Bool) (c : BusContext) → IsBus c → IsBus (answer (b, c)).context
answer-IsBus false c v = taken-IsBus c v
answer-IsBus true c v =
    let a = cab_at-IsValid c v c.current_cab_addr in
    let seen = record (cab_at c c.current_cab_addr) { last_ping = c.ping_num } in
    let w : IsValid seen = record {
      top = a.top;
      bottom = a.bottom;
      dirty = a.dirty;
      speed = a.speed;
      loco = a.loco;
      selecting = a.selecting;
      functions = a.functions;
      cursor = a.cursor;
    } in
    put_cab-IsBus (record c { byte_status = 0 }) (taken-IsBus c v) c.current_cab_addr _
      (serve_cab-IsValid seen c.first_byte w)

pub step2-IsBus :
    (arrivals : ℕ → List ℕ) (c : BusContext) → IsBus c → IsBus (ping_step2 arrivals c).context
unfolding ping_step2
step2-IsBus arrivals c v =
    let m = mark_unseen-IsBus c v in
    let k = clear_command-IsBus (mark_unseen c) m in
    elim (Bool-cases (has_bits c.byte_status 1)) [
      | inl e ↦ rw e (
          answer-IsBus (await_second arrivals 1000 (clear_command (mark_unseen c))).0 _
            (await_second-IsBus arrivals 1000 (clear_command (mark_unseen c)) k))
      | inr e ↦ rw e m
    ]
