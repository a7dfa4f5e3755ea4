-- ===== src/CabBus/Accessory.antt =====
-- CabBusCommunications/cabbus_cab.c: the number of an accessory.
use train_utils.Common.{
  ℕ, ◌+◌, ◌*◌, ◌^◌, ◌<◌, ◌≡◌, refl, ap, ◌∙◌, Bool, true, false, arith, Option, none, some, List, [],
  ◌∷◌, map, ◌==◌, ◌!=◌, All,
}
use train_utils.CabBus.Cab.{Cab, check_bit, clear_bit, set_bit}
use train_utils.CabBus.Keys.{
  handled, handle_select_loco, handle_speed, handle_select_accy, digit_key, accy_key, append_digit,
  start_select_accy, end_select_accy,
}
use train_utils.CabBus.Flags.{
  check_bit-set_bit, check_bit-clear_bit, clear_bit-lt, set_bit-lt, three_set-lt,
  check_bit-three_set,
}
use train_utils.CabBus.Poll.{
  poll, polls, Idled, uncommanded, poll-Idled, idle_poll, Leaves, accy_takes,
}
use train_utils.CabBus.Typing.{key_of, IsDigit, value_from, le-value_from, digit_key_digit}

-- The flags 6, 7 and 4 of a cab, and the number so far: it takes a locomotive, an accessory, or the
-- way to throw one.
pub record Stage (n : ℕ) (accy way : Bool) (c : Cab) : Type 0 where
  pub byte : c.dirty_screens < 256
  pub loco : check_bit c.dirty_screens 6 ≡ false
  pub asks_number : check_bit c.dirty_screens 7 ≡ accy
  pub asks_way : check_bit c.dirty_screens 4 ≡ way
  pub number : c.current_selecting_number ≡ n

module _ {n : ℕ} {accy way : Bool} where
  Idled-Stage : {c e : Cab} → Idled c e → Stage n accy way c → Stage n accy way e
  Idled-Stage i s = record {
    byte = i.byte;
    loco = i.flags 6 (omega arith) (omega arith) ∙ s.loco;
    asks_number = i.flags 7 (omega arith) (omega arith) ∙ s.asks_number;
    asks_way = i.flags 4 (omega arith) (omega arith) ∙ s.asks_way;
    number = i.number ∙ s.number;
  }

  pub uncommanded-Stage : {c : Cab} → Stage n accy way c → Stage n accy way (uncommanded c)
  uncommanded-Stage s = record {
    byte = s.byte;
    loco = s.loco;
    asks_number = s.asks_number;
    asks_way = s.asks_way;
    number = s.number;
  }

  pub idle_poll-Stage : (c : Cab) → Stage n accy way c → Stage n accy way (poll c 0x7D)
  idle_poll-Stage c s = Idled-Stage (idle_poll c s.byte) (uncommanded-Stage s)

  -- Keys of digits, ENTER and SEL_ACCY are left by the selection of a locomotive and by the speed.
  pub key-Leaves :
      (c : Cab) (key : ℕ)
      → Stage n accy way c
      → (key == 0x41) ≡ false
      → (key == 0x48) ≡ false
      → (key != 0x7D) ≡ true
      → (key == 0x4A) ≡ false
      → (key == 0x4B) ≡ false
      → (key == 0x5A) ≡ false
      → (key == 0x5B) ≡ false
      → Leaves c key
  unfolding handle_select_loco handle_speed
  key-Leaves c key s e a b f g h i = record {
    not_escape = e;
    some_key = b;
    not_loco = rw (a, s.loco) refl;
    not_speed = rw (f, g, h, i) refl;
  }

  digit-Leaves : (c : Cab) (d : ℕ) → Stage n accy way c → d < 10 → Leaves c (0x50 + d)
  digit-Leaves c d s h =
      key-Leaves c (0x50 + d) s (ground arith) (ground arith) (ground arith) (ground arith)
        (ground arith) (ground arith) (ground arith)

accy_key_taken :
    {n : ℕ} {way : Bool} (c : Cab) (key : ℕ)
    → Stage n true way c
    → handle_select_accy c key ≡ accy_key c key (digit_key key)
unfolding handle_select_accy
accy_key_taken c key s = rw s.asks_number (ground arith)

digit_poll :
    (n d : ℕ) (way : Bool) (c : Cab)
    → d < 10
    → n * 10 + d < 2 ^ 16
    → Stage n true way c
    → Stage (n * 10 + d) true way (poll c (0x50 + d))
digit_poll n d way c h small s =
    let u = uncommanded c in
    let v = uncommanded-Stage s in
    let e : Cab = record u {
      current_selecting_number = append_digit u.current_selecting_number d;
    } in
    Idled-Stage
      (poll-Idled c e (0x50 + d) v.byte (
        accy_takes u (0x50 + d) (accy_key u (0x50 + d) (some d)) (digit-Leaves u d v h)
          (accy_key_taken u (0x50 + d) v ∙ ap (accy_key u (0x50 + d)) (digit_key_digit d h)) refl))
      record {
        byte = v.byte;
        loco = v.loco;
        asks_number = v.asks_number;
        asks_way = v.asks_way;
        number = omega (arith, s.number);
      }

pub accy_typed :
    (n : ℕ) (way : Bool) (c : Cab) (os : List (Option ℕ))
    → All IsDigit os
    → value_from n os < 2 ^ 16
    → Stage n true way c
    → Stage (value_from n os) true way (polls c (map key_of os))
accy_typed n way c [] ds small s = s
accy_typed n way c (none ∷ os) ds small s =
    accy_typed n way (poll c 0x7D) os ds.1 small (idle_poll-Stage c s)
accy_typed n way c (some d ∷ os) ds small s =
    accy_typed (n * 10 + d) way (poll c (0x50 + d)) os ds.1 small
      (digit_poll n d way c ds.0 (omega (arith, le-value_from (n * 10 + d) os)) s)

start-Stage :
    (c : Cab) {way : Bool}
    → c.dirty_screens < 256
    → check_bit c.dirty_screens 6 ≡ false
    → check_bit c.dirty_screens 4 ≡ way
    → Stage 0 true way (start_select_accy c)
unfolding start_select_accy
start-Stage c h e w =
    let d = set_bit c.dirty_screens 7 in
    let h7 = set_bit-lt c.dirty_screens 7 h (omega arith) in
    let up = check_bit-three_set d 2 3 0 h7 (omega arith) (omega arith) (omega arith) in
    record {
      byte = three_set-lt d 2 3 0 h7 (omega arith) (omega arith) (omega arith);
      loco =
          up 6 (omega arith) (omega arith)
          ∙ check_bit-set_bit c.dirty_screens 7 6 h (omega arith) (omega arith)
          ∙ e;
      asks_number =
          up 7 (omega arith) (omega arith)
          ∙ check_bit-set_bit c.dirty_screens 7 7 h (omega arith) (omega arith);
      asks_way =
          up 4 (omega arith) (omega arith)
          ∙ check_bit-set_bit c.dirty_screens 7 4 h (omega arith) (omega arith)
          ∙ w;
      number = refl;
    }

end-Stage :
    (n : ℕ) (way : Bool) (c : Cab) → Stage n true way c → Stage n false true (end_select_accy c)
unfolding end_select_accy
end-Stage n way c s =
    let d = clear_bit c.dirty_screens 7 in
    let e = set_bit d 4 in
    let h7 = clear_bit-lt c.dirty_screens 7 s.byte (omega arith) in
    let h4 = set_bit-lt d 4 h7 (omega arith) in
    let up = check_bit-three_set e 2 3 0 h4 (omega arith) (omega arith) (omega arith) in
    record {
      byte = three_set-lt e 2 3 0 h4 (omega arith) (omega arith) (omega arith);
      loco =
          up 6 (omega arith) (omega arith)
          ∙ check_bit-set_bit d 4 6 h7 (omega arith) (omega arith)
          ∙ check_bit-clear_bit c.dirty_screens 7 6 s.byte (omega arith) (omega arith)
          ∙ s.loco;
      asks_number =
          up 7 (omega arith) (omega arith)
          ∙ check_bit-set_bit d 4 7 h7 (omega arith) (omega arith)
          ∙ check_bit-clear_bit c.dirty_screens 7 7 s.byte (omega arith) (omega arith);
      asks_way =
          up 4 (omega arith) (omega arith) ∙ check_bit-set_bit d 4 4 h7 (omega arith) (omega arith);
      number = s.number;
    }

pub start_poll :
    (c : Cab) {way : Bool}
    → Stage c.current_selecting_number false way c
    → Stage 0 true way (poll c 0x4E)
unfolding handle_select_accy
start_poll c s =
    let u = uncommanded c in
    let v = start-Stage u s.byte s.loco s.asks_way in
    let t : handle_select_accy u 0x4E ≡ handled (start_select_accy u) = rw s.asks_number refl in
    let l = key-Leaves u 0x4E (uncommanded-Stage s) refl refl refl refl refl refl refl in
    Idled-Stage
      (poll-Idled c (start_select_accy u) 0x4E v.byte
        (accy_takes u 0x4E (handled (start_select_accy u)) l t refl))
      v

pub end_poll :
    (n : ℕ) (way : Bool) (c : Cab) → Stage n true way c → Stage n false true (poll c 0x40)
end_poll n way c s =
    let u = uncommanded c in
    let v = uncommanded-Stage s in
    let w = end-Stage n way u v in
    let l = key-Leaves u 0x40 v refl refl refl refl refl refl refl in
    Idled-Stage
      (poll-Idled c (end_select_accy u) 0x40 w.byte
        (accy_takes u 0x40 (handled (end_select_accy u)) l (accy_key_taken u 0x40 v) refl))
      w
