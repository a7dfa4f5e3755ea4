-- ===== src/CabBus/Typing.antt =====
-- CabBusCommunications/cabbus_cab.c: the digits of the number of a locomotive.
use train_utils.Common.{
  ℕ, zero, suc, ◌+◌, ◌*◌, ◌^◌, ◌≤◌, ◌<◌, ◌≡◌, refl, ap, subst, ◌∙◌, Bool, true, false, ◌&&◌, arith,
  Option, none, some, List, [], ◌∷◌, map, if◌then◌else◌, ◌==◌, All,
}
use train_utils.CabBus.Cab.{Cab, Rest, check_bit}
use train_utils.CabBus.Keys.{handle_select_loco, is_pending, digit_key, loco_digit, loco_key}
use train_utils.CabBus.Poll.{poll, polls, Idled, uncommanded, poll-Idled, idle_poll, loco_takes}

-- The keys of an input: a digit, or no key.
abbrev pub key_of : Option ℕ → ℕ
key_of none = 0x7D
key_of (some digit) = 0x50 + digit

abbrev pub IsDigit : Option ℕ → Type 0
IsDigit none = Unit
IsDigit (some digit) = digit < 10

-- The number that the digits stand for, after `n`.
abbrev pub value_from : ℕ → List (Option ℕ) → ℕ
value_from n [] = n
value_from n (none ∷ os) = value_from n os
value_from n (some digit ∷ os) = value_from (n * 10 + digit) os

-- A number that starts with a zero is a short address.
abbrev pub is_short : List (Option ℕ) → Bool
is_short [] = false
is_short (none ∷ os) = is_short os
is_short (some zero ∷ os) = true
is_short (some (suc d) ∷ os) = false

abbrev pub flag_from : ℕ → ℕ → List (Option ℕ) → ℕ
flag_from n f os = if n == 0 && is_short os then 0 else f

-- The cab takes digits of a number, so far `n`, with the flags `f`.
pub record Selecting (n f : ℕ) (r : Rest) (c : Cab) : Type 0 where
  pub byte : c.dirty_screens < 256
  pub flag : check_bit c.dirty_screens 6 ≡ true
  pub cursor : is_pending c.new_cursor_position ≡ false
  pub number : c.current_selecting_number ≡ n
  pub flags : c.command.first ≡ f
  pub rest : c.command.rest ≡ r

module _ {n f : ℕ} {r : Rest} where
  pub Idled-Selecting : {c e : Cab} → Idled c e → Selecting n f r c → Selecting n f r e
  Idled-Selecting i s = record {
    byte = i.byte;
    flag = i.flags 6 (omega arith) (omega arith) ∙ s.flag;
    cursor = i.cursor s.cursor;
    number = i.number ∙ s.number;
    flags = ap (λ k. k.first) i.command ∙ s.flags;
    rest = ap (λ k. k.rest) i.command ∙ s.rest;
  }

  pub uncommanded-Selecting : {c : Cab} → Selecting n f r c → Selecting n f r (uncommanded c)
  uncommanded-Selecting s = record {
    byte = s.byte;
    flag = s.flag;
    cursor = s.cursor;
    number = s.number;
    flags = s.flags;
    rest = s.rest;
  }

  -- While a number is typed, the handler of the selection takes every key of a digit and ENTER.
  pub taken_key :
      (c : Cab) (key : ℕ)
      → Selecting n f r c
      → (key == 0x48) ≡ false
      → handle_select_loco c key ≡ loco_key c key (digit_key key)
  unfolding handle_select_loco
  taken_key c key s e = rw (e, s.flag, s.cursor) refl

  idle_poll-Selecting : (c : Cab) → Selecting n f r c → Selecting n f r (poll c 0x7D)
  idle_poll-Selecting c s = Idled-Selecting (idle_poll c s.byte) (uncommanded-Selecting s)

pub digit_key_digit : (d : ℕ) → d < 10 → digit_key (0x50 + d) ≡ some d
digit_key_digit d h = ground arith

loco_digit-Selecting :
    (n f d : ℕ) (r : Rest) (c : Cab)
    → d < 10
    → n * 10 + d < 2 ^ 16
    → Selecting n f r c
    → Selecting (n * 10 + d) (flag_from n f (some d ∷ [])) r (loco_digit c d)
unfolding loco_digit
loco_digit-Selecting zero f zero r c h small s = rw s.number record {
  byte = s.byte;
  flag = s.flag;
  cursor = s.cursor;
  number = refl;
  flags = refl;
  rest = s.rest;
}
loco_digit-Selecting zero f (suc d) r c h small s =
    let e : (suc d == 0 && c.current_selecting_number == 0) ≡ false = ground arith in
    rw e record {
      byte = s.byte;
      flag = s.flag;
      cursor = s.cursor;
      number = omega (arith, s.number);
      flags = s.flags;
      rest = s.rest;
    }
loco_digit-Selecting (suc n) f d r c h small s =
    let e : (d == 0 && c.current_selecting_number == 0) ≡ false = ground (arith, s.number) in
    rw e record {
      byte = s.byte;
      flag = s.flag;
      cursor = s.cursor;
      number = omega (arith, s.number);
      flags = ground (arith, s.flags);
      rest = s.rest;
    }

digit_poll :
    (n f d : ℕ) (r : Rest) (c : Cab)
    → d < 10
    → n * 10 + d < 2 ^ 16
    → Selecting n f r c
    → Selecting (n * 10 + d) (flag_from n f (some d ∷ [])) r (poll c (0x50 + d))
digit_poll n f d r c h small s =
    let u = uncommanded-Selecting s in
    let done = loco_digit-Selecting n f d r (uncommanded c) h small u in
    Idled-Selecting
      (poll-Idled c (loco_digit (uncommanded c) d) (0x50 + d) done.byte (
        loco_takes (uncommanded c) (0x50 + d) (loco_key (uncommanded c) (0x50 + d) (some d))
          (ground arith) (ground arith)
          (taken_key (uncommanded c) (0x50 + d) u (ground arith)
            ∙ ap (loco_key (uncommanded c) (0x50 + d)) (digit_key_digit d h))
          refl))
      done

pub le-value_from : (n : ℕ) (os : List (Option ℕ)) → n ≤ value_from n os
le-value_from n [] = omega arith
le-value_from n (none ∷ os) = le-value_from n os
le-value_from n (some d ∷ os) = omega (arith, le-value_from (n * 10 + d) os)

flag_from_step :
    (n f d : ℕ) (os : List (Option ℕ))
    → flag_from (n * 10 + d) (flag_from n f (some d ∷ [])) os ≡ flag_from n f (some d ∷ os)
flag_from_step zero f zero os = ground arith
flag_from_step zero f (suc d) os = ground arith
flag_from_step (suc n) f zero os = ground arith
flag_from_step (suc n) f (suc d) os = ground arith

pub typed :
    (n f : ℕ) (r : Rest) (c : Cab) (os : List (Option ℕ))
    → All IsDigit os
    → value_from n os < 2 ^ 16
    → Selecting n f r c
    → Selecting (value_from n os) (flag_from n f os) r (polls c (map key_of os))
typed n f r c [] ds small s = subst (λ z. Selecting n z r c) (ground arith) s
typed n f r c (none ∷ os) ds small s =
    typed n f r (poll c 0x7D) os ds.1 small (idle_poll-Selecting c s)
typed n f r c (some d ∷ os) ds small s =
    let now = digit_poll n f d r c ds.0 (omega (arith, le-value_from (n * 10 + d) os)) s in
    subst
      (λ z. Selecting (value_from (n * 10 + d) os) z r (polls (poll c (0x50 + d)) (map key_of os)))
      (flag_from_step n f d os)
      (typed (n * 10 + d) (flag_from n f (some d ∷ [])) r (poll c (0x50 + d)) os ds.1 small now)
