-- ===== src/LocoNet/Turnout/Sensor.antt =====
-- What becomes of an input report.
use train_utils.Common.{
  ℕ, ◌+◌, ◌-◌, ◌/◌, ◌%◌, ◌≤◌, ◌<◌, ◌≡◌, ap, ◌∙◌, arith, false, List, [], ◌∷◌, if◌then◌else◌, ltb,
  leb, ◌==◌, ◌!=◌, get_or, set, length, IsBytes, get_or-IsBytes, get_or-set_self, has_bits,
  Bool-cases, inl, inr,
}
use train_utils.LocoNet.Context.{Message, byte}
use train_utils.LocoNet.Turnout.{
  SensorManager, SensorStatus, active, inactive, changed, Handled, handled, invalid_sensor_num,
  out_of_bounds, state, bad_sensor_num, sensor_message, cached_sensor_state, cached, sensor_num,
  sensor_status, put_status, status_bits,
}
use train_utils.LocoNet.Turnout.Cache.{status_bits-put_status, old_status_bits_lem}

abbrev pub reported : Message → SensorStatus
reported m = if has_bits (byte m 1) 0x10 then active else inactive

-- The outcomes that are right for a message.
abbrev pub Reports : SensorManager → Message → Handled → Type 0
Reports t m (handled t' es) =
    (sensor_num m < 2048)
    × (cached_sensor_state t' (sensor_num m + 1)
        ≡ (if sensor_num m == 0 then bad_sensor_num else state (reported m)))
    × (es ≡ (if t.sensor_changed_set then changed (sensor_num m + 1) (reported m) ∷ [] else []))
Reports t m invalid_sensor_num = 4095 < sensor_num m
Reports t m out_of_bounds = (2048 ≤ sensor_num m) × (sensor_num m ≤ 4095)

cached-set :
    (bytes : List ℕ) (n v : ℕ)
    → length bytes ≡ 512
    → IsBytes bytes
    → n < 2048
    → v < 4
    → cached (set bytes (n / 4) (put_status (get_or bytes (n / 4) 0) (n % 4) v)) n ≡ v
unfolding cached
cached-set bytes n v size fits l h =
    ap (λ z. status_bits z (n % 4)) (get_or-set_self bytes (n / 4) _ 0 (omega (arith, size)))
    ∙ status_bits-put_status _ (n % 4) v (get_or-IsBytes bytes (n / 4) fits) (omega arith) h

sensor_status_old : (v : ℕ) → v % 4 ≡ 0 → sensor_status v ≡ SensorStatus.unknown
sensor_status_old v h = ground arith

-- An input report, handled with a cache of 512 bytes: a number above 4095 is an error, one from
-- 2048 to 4095 is a write past the cache, and any other sensor then reads as the message says, but
-- for sensor 1, whose reading is an error; a callback that is set is called with the status, whether
-- or not it changed.
pub sensor_message_lem :
    (t : SensorManager) (m : Message)
    → length t.cached_sensor_status ≡ 512
    → IsBytes t.cached_sensor_status
    → m.opcode ≡ 0xB2
    → Reports t m (sensor_message t m)
unfolding sensor_message cached_sensor_state
sensor_message_lem t m size fits op =
    let n = sensor_num m in
    let bytes = t.cached_sensor_status in
    let b = get_or bytes (n / 4) 0 in
    let old =
      sensor_status_old _
        (old_status_bits_lem b (n % 4) (get_or-IsBytes bytes (n / 4) fits) (omega arith)) in
    let guard : (m.opcode != 0xB2) ≡ false = ground (arith, op) in
    let back : n + 1 - 1 ≡ n = omega arith in
    elim (Bool-cases (ltb 4095 n)) [
      | inl e ↦ rw (guard, e) (ground (arith, e))
      | inr e ↦ elim (Bool-cases (leb 512 (n / 4))) [
        | inl k ↦ rw (guard, e, k) (ground (arith, k), ground (arith, e))
        | inr k ↦
            let small : n < 2048 = ground (arith, k) in
            elim (Bool-cases (has_bits (byte m 1) 0x10)) [
              | inl r ↦
                  rw (guard, e, k, old, r, back)
                    (
                      small,
                      ground (arith, small, cached-set bytes n 1 size fits small (omega arith)),
                      ground arith,
                    )
              | inr r ↦
                  rw (guard, e, k, old, r, back)
                    (
                      small,
                      ground (arith, small, cached-set bytes n 2 size fits small (omega arith)),
                      ground arith,
                    )
            ]
      ]
    ]
