-- ===== src/LocoNet/Turnout.antt =====
-- LocoNetCommunications/loconet_turnout.c and loconet_sensor.c: two caches of the last status of
-- each turnout and each sensor, four statuses of two bits to a byte.
pub mod Cache
pub mod Request
pub mod Sensor
use train_utils.Common.{
  ℕ, ◌+◌, ◌-◌, ◌*◌, ◌/◌, ◌%◌, ◌^◌, Bool, true, false, not, ◌&&◌, ◌||◌, Option, none, some, List, [],
  ◌∷◌, if◌then◌else◌, ltb, leb, ◌==◌, ◌!=◌, get_or, set, replicate, bit_and, bit_or, has_bits, shl,
  shr, u8,
}
use train_utils.LocoNet.Context.{Message, byte}

-- `enum loconet_turnout_status`; of the sensors, `closed` is ACTIVE and `thrown` is INACTIVE.
pub data TurnoutStatus : Type 0 where
  unknown closed thrown : TurnoutStatus

pub data SensorStatus : Type 0 where
  unknown active inactive : SensorStatus

pub data Changed (A : Type 0) : Type 0 where
  changed : ℕ → A → Changed A

pub record TurnoutManager : Type 0 where
  pub switch_changed_set : Bool
  pub user_data : ℕ
  pub cached_switch_status : List ℕ

pub record SensorManager : Type 0 where
  pub sensor_changed_set : Bool
  pub user_data : ℕ
  pub cached_sensor_status : List ℕ

unfoldable pub new_turnouts : TurnoutManager
new_turnouts = record {
  switch_changed_set = false;
  user_data = 0;
  cached_switch_status = replicate 512 0;
}

unfoldable pub new_sensors : SensorManager
new_sensors = record {
  sensor_changed_set = false;
  user_data = 0;
  cached_sensor_status = replicate 512 0;
}

-- ~(0x3 << o), as it acts on a byte.
abbrev pub others : ℕ → ℕ
others o = 0xFF - shl 3 o

-- The two bits from bit `o` on are made `v`.
unfoldable pub put_status : ℕ → ℕ → ℕ → ℕ
put_status b o v = bit_or (bit_and b (others o)) (shl v o)

-- The status as the getters read it, and as the message handlers take the old one.
unfoldable pub status_bits : ℕ → ℕ → ℕ
status_bits b o = shr (bit_and b (shl 3 o)) o

unfoldable pub old_status_bits : ℕ → ℕ → ℕ
old_status_bits b o = shr (bit_and b (others o)) o

abbrev pub turnout_status : ℕ → TurnoutStatus
turnout_status v = if v == 1 then closed else if v == 2 then thrown else TurnoutStatus.unknown

abbrev pub sensor_status : ℕ → SensorStatus
sensor_status v = if v == 1 then active else if v == 2 then inactive else SensorStatus.unknown

abbrev pub is_turnout : TurnoutStatus → TurnoutStatus → Bool
is_turnout closed closed = true
is_turnout thrown thrown = true
is_turnout unknown unknown = true
is_turnout _ _ = false

abbrev pub is_sensor : SensorStatus → SensorStatus → Bool
is_sensor active active = true
is_sensor inactive inactive = true
is_sensor unknown unknown = true
is_sensor _ _ = false

-- The number that a switch request names, from 0.
unfoldable pub switch_num : Message → ℕ
switch_num m = bit_or (shl (bit_and (byte m 1) 0x0F) 7) (byte m 0)

-- The numbers that the callbacks get count from 1.
unfoldable pub turnout_message :
    TurnoutManager → Message → TurnoutManager × List (Changed TurnoutStatus)
turnout_message t m =
    let n = switch_num m in
    let b = get_or t.cached_switch_status (n / 4) 0 in
    let old = turnout_status (old_status_bits b (n % 4)) in
    let new = if has_bits (byte m 1) 0x20 then closed else thrown in
    let v : ℕ = if has_bits (byte m 1) 0x20 then 1 else 2 in
    if m.opcode != 0xB0 then (t, []) else (
      record t {
        cached_switch_status = set t.cached_switch_status (n / 4) (put_status b (n % 4) v);
      },
      if t.switch_changed_set && not (is_turnout new old) then changed (n + 1) new ∷ [] else [],
    )

-- The status of a number, from 0, in a cache.
unfoldable pub cached : List ℕ → ℕ → ℕ
cached bytes n = status_bits (get_or bytes (n / 4) 0) (n % 4)

unfoldable pub cached_turnout_state : TurnoutManager → ℕ → TurnoutStatus
cached_turnout_state t num =
    let n = num - 1 in
    if leb num 1 || ltb 2048 num
    then TurnoutStatus.unknown
    else turnout_status (cached t.cached_switch_status n)

-- The message of `loconet_turnout_manager_throw` and of `…_close`, with the output on or off.
unfoldable pub switch_request : ℕ → Bool → Bool → Message
switch_request num close on =
    let n = num - 1 in
    let high = shr (bit_and n 0x1F00) 8 in
    let sw2 = if close then bit_or high 0x20 else high in
    record {
      opcode = 0xB0;
      bytes = bit_and n 0x007F ∷ (if on then bit_or sw2 0x10 else sw2) ∷ replicate 14 0;
    }

-- The messages that they write; `none` is LN_ERROR_INVALID_SWITCH_NUM. The last argument
-- is whether `flags` has LOCONET_TURNOUT_FLAG_OUTPUT_ON_ONLY; with it, the output is switched off too.
unfoldable pub set_turnout : ℕ → Bool → Bool → Option (List Message)
set_turnout num close output_on_only =
    if ltb 2048 num || ltb num 1
    then none
    else some (
        switch_request num close true
        ∷ (if output_on_only then switch_request num close false ∷ [] else []))

-- The number of an input report, from 0 to 4095.
unfoldable pub sensor_num : Message → ℕ
sensor_num m =
    let pairs = bit_and (byte m 1) 0x0F * 256 + byte m 0 * 2 in
    if has_bits (byte m 1) 0x20 then pairs + 1 else pairs

-- `out_of_bounds` is a write past the 512 bytes of the cache.
pub data Handled : Type 0 where
  handled : SensorManager → List (Changed SensorStatus) → Handled
  invalid_sensor_num : Handled
  out_of_bounds : Handled

unfoldable pub sensor_message : SensorManager → Message → Handled
sensor_message t m =
    let n = sensor_num m in
    let b = get_or t.cached_sensor_status (n / 4) 0 in
    let old = sensor_status (old_status_bits b (n % 4)) in
    let new = if has_bits (byte m 1) 0x10 then active else inactive in
    let v : ℕ = if has_bits (byte m 1) 0x10 then 1 else 2 in
    if m.opcode != 0xB2
    then handled t []
    else if ltb 4095 n
    then invalid_sensor_num
    else if leb 512 (n / 4)
    then out_of_bounds
    else handled
        (record t {
          cached_sensor_status = set t.cached_sensor_status (n / 4) (put_status b (n % 4) v);
        })
        (if t.sensor_changed_set && not (is_sensor new old) then changed (n + 1) new ∷ [] else [])

-- What `loconet_sensor_manager_get_cached_sensor_state` returns: a status, or an error code.
pub data SensorState : Type 0 where
  state : SensorStatus → SensorState
  bad_sensor_num : SensorState
  read_past_cache : SensorState

unfoldable pub cached_sensor_state : SensorManager → ℕ → SensorState
cached_sensor_state t num =
    let n = num - 1 in
    if leb num 1 || ltb 4095 num
    then bad_sensor_num
    else if leb 512 (n / 4)
    then read_past_cache
    else state (sensor_status (cached t.cached_sensor_status n))

-- The setters; `none` is LN_ERROR_INVALID_ARG, for a manager that is NULL.
unfoldable pub set_turnout_callback : Option TurnoutManager → Bool → Option TurnoutManager
set_turnout_callback none f = none
set_turnout_callback (some t) f = some (record t { switch_changed_set = f })

unfoldable pub set_sensor_callback : Option SensorManager → Bool → Option SensorManager
set_sensor_callback none f = none
set_sensor_callback (some t) f = some (record t { sensor_changed_set = f })

unfoldable pub set_turnout_user_data : Option TurnoutManager → ℕ → Option TurnoutManager
set_turnout_user_data none u = none
set_turnout_user_data (some t) u = some (record t { user_data = u })

unfoldable pub set_sensor_user_data : Option SensorManager → ℕ → Option SensorManager
set_sensor_user_data none u = none
set_sensor_user_data (some t) u = some (record t { user_data = u })
