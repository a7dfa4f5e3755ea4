-- ===== src/LocoNet/Turnout/Cache.antt =====
-- What the cache of turnouts holds after a switch request.
use train_utils.Common.{
  ℕ, ◌+◌, ◌-◌, ◌/◌, ◌%◌, ◌<◌, ◌≡◌, refl, ap, arith, if◌then◌else◌, ltb, ◌==◌, ==_iff, get_or, set,
  length, IsBytes, get_or-IsBytes, bit_and, bit_or, has_bits, get_or-set_self, shl, ltb→lt, ◌∷◌, [],
  ◌∙◌, inl, inr, Bool-cases, length-set, set-IsBytes,
}
use train_utils.Common.Table.{all_below, all_below-lt}
use train_utils.Common.Bits.{bit_and_low}
use train_utils.LocoNet.Context.{Message, byte}
use train_utils.LocoNet.Turnout.{
  TurnoutManager, closed, thrown, turnout_message, cached_turnout_state, cached, put_status,
  status_bits, switch_num, old_status_bits, turnout_status, TurnoutStatus, changed,
}

-- A status that was put in a byte is read back, whatever the byte held.
pub status_bits-put_status :
    (b o v : ℕ) → b < 256 → o < 4 → v < 4 → status_bits (put_status b o v) o ≡ v
unfolding all_below put_status status_bits
status_bits-put_status b o v hb ho hv = (==_iff (status_bits (put_status b o v) o) v).0 (
    all_below-lt 4 (λ z. status_bits (put_status b o z) o == z)
      (all_below-lt 4 (λ y. all_below 4 (λ z. status_bits (put_status b y z) y == z))
        (all_below-lt 256
          (λ x. all_below 4 (λ y. all_below 4 (λ z. status_bits (put_status x y z) y == z))) refl b
          hb)
        o ho)
      v hv)

-- What the handler takes as the old status is without the two bits of the status.
pub old_status_bits_lem : (b o : ℕ) → b < 256 → o < 4 → old_status_bits b o % 4 ≡ 0
unfolding all_below old_status_bits
old_status_bits_lem b o hb ho = (==_iff (old_status_bits b o % 4) 0).0 (
    all_below-lt 4 (λ y. old_status_bits b y % 4 == 0)
      (all_below-lt 256 (λ x. all_below 4 (λ y. old_status_bits x y % 4 == 0)) refl b hb) o ho)

turnout_status_old : (v : ℕ) → v % 4 ≡ 0 → turnout_status v ≡ TurnoutStatus.unknown
turnout_status_old v h = ground arith

joined_fits : (a b : ℕ) → a < 16 → b < 256 → bit_or (shl a 7) b < 2048
unfolding all_below
joined_fits a b ha hb = ltb→lt (bit_or (shl a 7) b) 2048 (
    all_below-lt 256 (λ y. ltb (bit_or (shl a 7) y) 2048)
      (all_below-lt 16 (λ x. all_below 256 (λ y. ltb (bit_or (shl x 7) y) 2048)) refl a ha) b hb)

pub switch_num-lt : (m : Message) → IsBytes m.bytes → switch_num m < 2048
unfolding switch_num
switch_num-lt m h =
    joined_fits (bit_and (byte m 1) 0x0F) (byte m 0) (omega (arith, bit_and_low 4 (byte m 1)))
      (get_or-IsBytes m.bytes 0 h)

abbrev pub requested : Message → TurnoutStatus
requested m = if has_bits (byte m 1) 0x20 then closed else thrown

-- The cache of a manager: 512 bytes.
pub record IsTurnouts (t : TurnoutManager) : Type 0 where
  pub size : length t.cached_switch_status ≡ 512
  pub fits : IsBytes t.cached_switch_status

pub put_status-lt : (b o v : ℕ) → b < 256 → o < 4 → v < 4 → put_status b o v < 256
unfolding all_below put_status
put_status-lt b o v hb ho hv = ltb→lt (put_status b o v) 256 (
    all_below-lt 4 (λ z. ltb (put_status b o z) 256)
      (all_below-lt 4 (λ y. all_below 4 (λ z. ltb (put_status b y z) 256))
        (all_below-lt 256 (λ x. all_below 4 (λ y. all_below 4 (λ z. ltb (put_status x y z) 256)))
          refl b hb)
        o ho)
      v hv)

-- The cache with the status of the number `n` made `v`.
abbrev put : TurnoutManager → ℕ → ℕ → TurnoutManager
put t n v = record t {
  cached_switch_status =
      set t.cached_switch_status (n / 4)
        (put_status (get_or t.cached_switch_status (n / 4) 0) (n % 4) v);
}

put-IsTurnouts : (t : TurnoutManager) (n v : ℕ) → IsTurnouts t → v < 4 → IsTurnouts (put t n v)
put-IsTurnouts t n v i h = record {
  size = length-set t.cached_switch_status (n / 4) _ ∙ i.size;
  fits = set-IsBytes t.cached_switch_status (n / 4) _ i.fits (
      put_status-lt _ (n % 4) v (get_or-IsBytes t.cached_switch_status (n / 4) i.fits) (omega arith)
        h);
}

cached-put :
    (t : TurnoutManager) (n v : ℕ)
    → IsTurnouts t
    → n < 2048
    → v < 4
    → cached (put t n v).cached_switch_status (n + 1 - 1) ≡ v
unfolding cached
cached-put t n v i l h =
    ap (λ k. cached (put t n v).cached_switch_status k) (omega arith)
    ∙ ap (λ z. status_bits z (n % 4))
        (get_or-set_self t.cached_switch_status (n / 4) _ 0 (omega (arith, i.size)))
    ∙ status_bits-put_status _ (n % 4) v (get_or-IsBytes t.cached_switch_status (n / 4) i.fits)
        (omega arith) h

-- A switch request with any bytes, handled by a manager with a cache of 512 bytes: the cache is
-- again 512 bytes; the turnout of the message then reads as closed or thrown, the way the message
-- says, but turnout 1 as unknown; and a callback that is set is called with the status, whether or
-- not the status changed.
pub turnout_message_lem :
    (t : TurnoutManager) (m : Message)
    → IsTurnouts t
    → m.opcode ≡ 0xB0
    → IsBytes m.bytes
    → let (t', events) = turnout_message t m in
      IsTurnouts t'
      × (cached_turnout_state t' (switch_num m + 1)
          ≡ (if switch_num m == 0 then TurnoutStatus.unknown else requested m))
      × (events
          ≡ (if t.switch_changed_set then changed (switch_num m + 1) (requested m) ∷ [] else []))
unfolding turnout_message cached_turnout_state switch_num put_status old_status_bits
turnout_message_lem t m v op h =
    let n = switch_num m in
    let b = get_or t.cached_switch_status (n / 4) 0 in
    let fits = get_or-IsBytes t.cached_switch_status (n / 4) v.fits in
    let old = turnout_status_old _ (old_status_bits_lem b (n % 4) fits (omega arith)) in
    let small = switch_num-lt m h in
    elim (Bool-cases (has_bits (byte m 1) 0x20)) [
      | inl e ↦
          rw (op, e, old)
            (
              put-IsTurnouts t n 1 v (omega arith),
              ground (arith, small, cached-put t n 1 v small (omega arith)),
              ground arith,
            )
      | inr e ↦
          rw (op, e, old)
            (
              put-IsTurnouts t n 2 v (omega arith),
              ground (arith, small, cached-put t n 2 v small (omega arith)),
              ground arith,
            )
    ]
