-- ===== src/CabBus/Switch.antt =====
-- CabBusCommunications/cabbus_cab.c: a switch thrown by its number.
use train_utils.Common.{
  ℕ, zero, suc, ◌/◌, ◌^◌, ◌<◌, ◌≡◌, refl, ap, ◌∙◌, Bool, true, false, arith, Option, List, [], ◌∷◌,
  ◌++◌, map, if◌then◌else◌, All, replicate, u8,
}
use train_utils.CabBus.Cab.{Cab, Command, cmd_switch, switch_rest, check_bit, clear_bit, reset}
use train_utils.CabBus.Keys.{handled, handle_select_accy, handle_select_accy_dir, throw_switch}
use train_utils.CabBus.Flags.{clear_bit-lt, three_set-lt}
use train_utils.CabBus.Poll.{poll, polls, uncommanded, poll-Idled, accy_dir_takes, polls-append}
use train_utils.CabBus.Typing.{key_of, IsDigit, value_from}
use train_utils.CabBus.Accessory.{
  Stage, idle_poll-Stage, uncommanded-Stage, key-Leaves, start_poll, end_poll, accy_typed,
}

-- The command that throws switch `n`, normal or reverse.
abbrev pub switch_command : ℕ → Bool → Command
switch_command n normal = record {
  command = cmd_switch;
  first = u8 n;
  rest = switch_rest (n / 2 ^ 8) (if normal then 1 else 2);
}

abbrev pub way_key : Bool → ℕ
way_key true = 0x51
way_key false = 0x52

throw-byte : (c : Cab) (k : ℕ) → c.dirty_screens < 256 → (throw_switch c k).dirty_screens < 256
unfolding throw_switch reset
throw-byte c k h =
    three_set-lt (clear_bit c.dirty_screens 4) 2 0 3
      (clear_bit-lt c.dirty_screens 4 h (omega arith)) (omega arith) (omega arith) (omega arith)

way_poll :
    (n : ℕ) (normal : Bool) (c : Cab)
    → Stage n false true c
    → (poll c (way_key normal)).command ≡ switch_command n normal
unfolding throw_switch reset handle_select_accy handle_select_accy_dir
way_poll n true c s =
    let u = uncommanded c in
    let l = key-Leaves u 0x51 (uncommanded-Stage s) refl refl refl refl refl refl refl in
    (poll-Idled c (throw_switch u 1) 0x51 (throw-byte u 1 s.byte) (
      accy_dir_takes u 0x51 (handled (throw_switch u 1)) l (rw s.asks_number refl)
        (rw s.asks_way refl) refl)).command
    ∙ ap (λ k. switch_command k true) s.number
way_poll n false c s =
    let u = uncommanded c in
    let l = key-Leaves u 0x52 (uncommanded-Stage s) refl refl refl refl refl refl refl in
    (poll-Idled c (throw_switch u 2) 0x52 (throw-byte u 2 s.byte) (
      accy_dir_takes u 0x52 (handled (throw_switch u 2)) l (rw s.asks_number refl)
        (rw s.asks_way refl) refl)).command
    ∙ ap (λ k. switch_command k false) s.number

idles :
    (n : ℕ) (accy way : Bool) (k : ℕ) (c : Cab)
    → Stage n accy way c
    → Stage n accy way (polls c (replicate k 0x7D))
idles n accy way zero c s = s
idles n accy way (suc k) c s = idles n accy way k (poll c 0x7D) (idle_poll-Stage c s)

-- On a cab that takes neither the number of a locomotive nor that of an accessory, the key that
-- selects an accessory, the keys of the digits of a number below 65536 with any polls with no key
-- between them, ENTER, any polls with no key, and then 1 or 2, give the command that throws the
-- switch of that number, normal for 1 and reverse for 2.
pub switch_lem :
    (c : Cab) (os : List (Option ℕ)) (k : ℕ) (normal : Bool)
    → c.dirty_screens < 256
    → check_bit c.dirty_screens 6 ≡ false
    → check_bit c.dirty_screens 7 ≡ false
    → All IsDigit os
    → value_from 0 os < 2 ^ 16
    → (polls c (0x4E ∷ (map key_of os ++ 0x40 ∷ (replicate k 0x7D ++ way_key normal ∷ [])))).command
      ≡ switch_command (value_from 0 os) normal
switch_lem c os k normal h e f ds small =
    let a =
      start_poll c record { byte = h; loco = e; asks_number = f; asks_way = refl; number = refl } in
    let n = value_from 0 os in
    let d = polls (poll c 0x4E) (map key_of os) in
    let b = end_poll n _ d (accy_typed 0 _ (poll c 0x4E) os ds small a) in
    ap (λ z. z.command)
      (polls-append (poll c 0x4E) (map key_of os) (0x40 ∷ (replicate k 0x7D ++ way_key normal ∷ []))
        ∙ polls-append (poll d 0x40) (replicate k 0x7D) (way_key normal ∷ []))
    ∙ way_poll n normal (polls (poll d 0x40) (replicate k 0x7D)) (idles n _ _ k (poll d 0x40) b)
