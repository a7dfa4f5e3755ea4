-- ===== src/CabBus/Select.antt =====
-- CabBusCommunications/cabbus_cab.c: the selection of a locomotive by its number.
use train_utils.Common.{
  ℕ, zero, suc, ◌-◌, ◌^◌, ◌≤◌, ◌<◌, ◌≡◌, refl, ap, ◌∙◌, true, arith, Option, List, [], ◌∷◌, ◌++◌,
  map, if◌then◌else◌, ◌==◌, All, replicate,
}
use train_utils.CabBus.Cab.{
  Cab, Command, cmd_sel_loco, cmd_unselect_loco, Rest, address, check_bit, set_bit, reset,
}
use train_utils.CabBus.Keys.{
  handled, handle_select_loco, loco_command, start_select_loco, end_select_loco,
}
use train_utils.CabBus.Bus.{press}
use train_utils.CabBus.Flags.{check_bit-set_bit, clear_bit-lt, set_bit-lt}
use train_utils.CabBus.Poll.{
  poll, polls, Idled, uncommanded, poll-Idled, idle_poll, work, poll-work, idle_poll-work,
  loco_takes, polls-append,
}
use train_utils.CabBus.Typing.{
  key_of, IsDigit, value_from, is_short, Selecting, uncommanded-Selecting, taken_key, typed,
}

-- The cab asks for a number, and its cursor is placed after `w` outputs at most.
record Waiting (w : ℕ) (r : Rest) (c : Cab) : Type 0 where
  byte : c.dirty_screens < 256
  flag : check_bit c.dirty_screens 6 ≡ true
  left : work c ≤ w
  number : c.current_selecting_number ≡ 0
  flags : c.command.first ≡ 1
  rest : c.command.rest ≡ r

Idled-Waiting :
    {w v : ℕ} {r : Rest} {c e : Cab} → Idled c e → Waiting w r c → work e ≤ v → Waiting v r e
Idled-Waiting i s h = record {
  byte = i.byte;
  flag = i.flags 6 (omega arith) (omega arith) ∙ s.flag;
  left = h;
  number = i.number ∙ s.number;
  flags = ap (λ k. k.first) i.command ∙ s.flags;
  rest = ap (λ k. k.rest) i.command ∙ s.rest;
}

start-Waiting : (c : Cab) → c.dirty_screens < 256 → Waiting 5 c.command.rest (start_select_loco c)
unfolding start_select_loco
start-Waiting c h =
    let h2 = set_bit-lt c.dirty_screens 2 h (omega arith) in
    let h0 = set_bit-lt (set_bit c.dirty_screens 2) 0 h2 (omega arith) in
    record {
      byte = set_bit-lt _ 6 h0 (omega arith);
      flag = check_bit-set_bit _ 6 6 h0 (omega arith) (omega arith) ∙ refl;
      left = ground arith;
      number = refl;
      flags = refl;
      rest = refl;
    }

started : (c : Cab) → c.dirty_screens < 256 → Waiting 4 c.command.rest (poll c 0x48)
unfolding handle_select_loco
started c h =
    let u = uncommanded c in
    let s = start-Waiting u h in
    let p : (press u 0x48).0 ≡ start_select_loco u =
      loco_takes u 0x48 (handled (start_select_loco u)) refl refl refl refl in
    Idled-Waiting (poll-Idled c (start_select_loco u) 0x48 s.byte p) s
      (omega (arith, s.left, poll-work c (start_select_loco u) 0x48 s.byte p))

waited :
    (k : ℕ) (w : ℕ) (r : Rest) (c : Cab)
    → w ≤ k
    → Waiting w r c
    → Waiting 0 r (polls c (replicate k 0x7D))
waited zero w r c h s = record {
  byte = s.byte;
  flag = s.flag;
  left = omega (arith, s.left);
  number = s.number;
  flags = s.flags;
  rest = s.rest;
}
waited (suc k) w r c h s =
    let u : Waiting w r (uncommanded c) = record {
      byte = s.byte;
      flag = s.flag;
      left = s.left;
      number = s.number;
      flags = s.flags;
      rest = s.rest;
    } in
    waited k (w - 1) r (poll c 0x7D) (omega arith)
      (Idled-Waiting (idle_poll c s.byte) u (omega (arith, s.left, idle_poll-work c s.byte)))

Waiting-Selecting : {r : Rest} {c : Cab} → Waiting 0 r c → Selecting 0 1 r c
Waiting-Selecting s = record {
  byte = s.byte;
  flag = s.flag;
  cursor = ground (arith, s.left);
  number = s.number;
  flags = s.flags;
  rest = s.rest;
}

-- The command that the number stands for: zero releases the locomotive.
abbrev pub chosen : Rest → List (Option ℕ) → Command
chosen r os =
    let f = if is_short os then 0 else 1 in
    let n = value_from 0 os in
    if n == 0
    then record { command = cmd_unselect_loco; first = f; rest = r }
    else record { command = cmd_sel_loco; first = f; rest = address n }

end-byte : (c : Cab) → c.dirty_screens < 256 → (end_select_loco c).dirty_screens < 256
unfolding end_select_loco reset
end-byte c h =
    let h6 = clear_bit-lt c.dirty_screens 6 h (omega arith) in
    let h2 = set_bit-lt _ 2 h6 (omega arith) in
    let h0 = set_bit-lt _ 0 h2 (omega arith) in set_bit-lt _ 3 h0 (omega arith)

end-command :
    (n f : ℕ) (r : Rest) (c : Cab)
    → Selecting n f r c
    → (end_select_loco c).command ≡ (
        if n == 0
        then record { command = cmd_unselect_loco; first = f; rest = r }
        else record { command = cmd_sel_loco; first = f; rest = address n })
unfolding end_select_loco reset loco_command
end-command zero f r c s = rw (s.number, s.flags, s.rest) refl
end-command (suc n) f r c s = rw (s.number, s.flags, s.rest) (ground arith)

enter_poll :
    (n f : ℕ) (r : Rest) (c : Cab)
    → Selecting n f r c
    → (poll c 0x40).command ≡ (
        if n == 0
        then record { command = cmd_unselect_loco; first = f; rest = r }
        else record { command = cmd_sel_loco; first = f; rest = address n })
enter_poll n f r c s =
    let u = uncommanded c in
    let v = uncommanded-Selecting s in
    let p : (press u 0x40).0 ≡ end_select_loco u =
      loco_takes u 0x40 (handled (end_select_loco u)) refl refl (taken_key u 0x40 v refl) refl in
    (poll-Idled c (end_select_loco u) 0x40 (end-byte u v.byte) p).command ∙ end-command n f r u v

-- After the key that selects a locomotive, four polls or more with no key, the keys of the digits
-- of a number below 65536 with any polls with no key between them, and ENTER, the command of the cab selects the
-- locomotive of that number, with a short address when the number was typed with a zero in front and
-- a long address otherwise; with the number zero it releases the locomotive.
pub select_lem :
    (c : Cab) (k : ℕ) (os : List (Option ℕ))
    → c.dirty_screens < 256
    → 4 ≤ k
    → All IsDigit os
    → value_from 0 os < 2 ^ 16
    → (polls c (0x48 ∷ (replicate k 0x7D ++ (map key_of os ++ 0x40 ∷ [])))).command
      ≡ chosen c.command.rest os
select_lem c k os h enough ds small =
    let a = started c h in
    let b = Waiting-Selecting (waited k 4 c.command.rest (poll c 0x48) enough a) in
    let e = polls (poll c 0x48) (replicate k 0x7D) in
    let d = typed 0 1 c.command.rest e os ds small b in
    ap (λ z. z.command)
      (polls-append (poll c 0x48) (replicate k 0x7D) (map key_of os ++ 0x40 ∷ [])
        ∙ polls-append e (map key_of os) (0x40 ∷ []))
    ∙ enter_poll (value_from 0 os) _ c.command.rest (polls e (map key_of os)) d
    ∙ ground arith
