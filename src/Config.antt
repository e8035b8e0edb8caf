-- ===== src/Config.antt =====
-- src/config.rs: the settings that Home Assistant can change, and what is derived from them.
-- An `f32` is its bit pattern (Base/Float).
pub mod Keys
pub mod Apply
pub mod Blob
pub mod NodeName
pub mod Credentials
mod Tests
use rs_smarthome_nodes.Base.{
  ℕ, ◌/◌, Bool, true, false, not, ◌&&◌, ◌||◌, [], Option, none, some, min, max, ltb, ◌==◌,
  if◌then◌else◌,
}
use rs_smarthome_nodes.Base.Bytes.{Bytes}
use rs_smarthome_nodes.Base.Float.{
  Float32, is_finite, is_positive, is_nonnegative, is_at_least_one, is_at_most_zero, f32_eq,
}
use rs_smarthome_nodes.Base.Int.{ℤ, pos, negsuc, ◌-ℤ◌}
use rs_smarthome_nodes.Base.Text.Decimal.{parse_u32, parse_i32}
use rs_smarthome_nodes.Base.Words.{i32_min, wrap_i32, clamp_ℤ}
use rs_smarthome_nodes.Config.Keys.{Key, key_of, switch, parse_hh_mm}
use rs_smarthome_nodes.Lamp.{Schedule, default_schedule}
use rs_smarthome_nodes.Solar

pub record Config : Type 0 where
  pub offset : ℤ
  pub scale_factor : ℕ  -- f32
  pub threshold_grams : ℕ  -- f32
  pub idle_secs : ℕ
  pub active_secs : ℕ
  pub tare_token : ℕ
  pub deep_sleep : Bool
  pub lamp_enabled : Bool
  pub lamp_brightness : ℕ  -- u8
  pub lamp_schedule : Schedule
  pub heartbeat_secs : ℕ
  pub scd41_offset_centi : ℤ
  pub sds011_kappa_centi : ℕ
  pub temp_coeff_centi : ℤ
  pub tare_temp_tenths : ℤ
  pub night_idle_secs : ℕ
  pub night_margin_min : ℕ

abbrev pub tare_temp_unknown : ℤ
tare_temp_unknown = i32_min

abbrev pub max_temp_coeff_centi : ℕ
max_temp_coeff_centi = 20_000

-- `scd41::MAX_OFFSET_CENTI`, `scd41::DEFAULT_OFFSET_CENTI`, `sds011::MAX_KAPPA_CENTI` and
-- `sds011::KAPPA_CENTI_DEFAULT`.
abbrev pub max_offset_centi : ℕ
max_offset_centi = 2000

abbrev pub default_offset_centi : ℕ
default_offset_centi = 400

abbrev pub max_kappa_centi : ℕ
max_kappa_centi = 100

abbrev pub kappa_centi_default : ℕ
kappa_centi_default = 25

-- `clamp(-MAX_TEMP_COEFF_CENTI, MAX_TEMP_COEFF_CENTI)`
abbrev pub clamp_coeff : ℤ → ℤ
clamp_coeff z = clamp_ℤ (negsuc 19_999) (pos max_temp_coeff_centi) z

-- 420.0 and 10.0 are 0x43d20000 and 0x41200000.
abbrev pub default_config : Config
default_config = record {
  offset = pos 8_388_608;
  scale_factor = 0x43d2_0000;
  threshold_grams = 0x4120_0000;
  idle_secs = 2;
  active_secs = 10;
  tare_token = 0;
  deep_sleep = true;
  lamp_enabled = true;
  lamp_brightness = 255;
  lamp_schedule = default_schedule;
  heartbeat_secs = 600;
  scd41_offset_centi = pos default_offset_centi;
  sds011_kappa_centi = kappa_centi_default;
  temp_coeff_centi = pos 0;
  tare_temp_tenths = tare_temp_unknown;
  night_idle_secs = 0;
  night_margin_min = 30;
}

-- The intervals are `Duration`s of whole seconds.
unfoldable pub idle_interval : Config → ℕ
idle_interval c = max c.idle_secs 1

unfoldable pub active_interval : Config → ℕ
active_interval c = max c.active_secs 1

unfoldable pub heartbeat_interval : Config → ℕ
heartbeat_interval c = max c.heartbeat_secs 1

unfoldable pub idle_interval_at : Config → Option ℕ → ℕ
idle_interval_at c none = idle_interval c
idle_interval_at c (some ms) =
    let night = Solar.is_night (Solar.minute_of_day ms) (Solar.day_of_year ms) c.night_margin_min in
    if ltb 0 c.night_idle_secs && night then max c.night_idle_secs 1 else idle_interval c

unfoldable pub heartbeat_wakes_at : Config → ℕ → ℕ
heartbeat_wakes_at c wake_secs = max (c.heartbeat_secs / max wake_secs 1) 1

unfoldable pub wake_secs_at : Config → Option ℕ → ℕ
wake_secs_at c now_ms = idle_interval_at c now_ms

or_zero : Option ℕ → ℕ
or_zero none = 0
or_zero (some n) = n

is_empty : Bytes → Bool
is_empty [] = true
is_empty _ = false

-- A method on `&mut self` returns the new record too.
unfoldable pub tare_press_is_new : Config → Bytes → Config × Bool
unfolding or_zero is_empty
tare_press_is_new c value =
    let token = or_zero (parse_u32 value) in
    if is_empty value
    then (c, false)
    else if not (token == 0) && token == c.tare_token
    then (c, false)
    else (record c { tare_token = token }, true)

-- `if let Ok(v) = …` and `if let Some(v) = …`: nothing changes without a value.
abbrev pub if_some {ℓ} : {A : Type ℓ} → Option A → (A → Config → Config) → Config → Config
if_some none f c = c
if_some (some v) f c = f v c

-- `PartialEq` of `Config`, as derived.
unfoldable pub int_eq : ℤ → ℤ → Bool
int_eq (pos a) (pos b) = a == b
int_eq (negsuc a) (negsuc b) = a == b
int_eq _ _ = false

unfoldable pub bool_eq : Bool → Bool → Bool
bool_eq true b = b
bool_eq false b = not b

unfoldable pub config_eq : Config → Config → Bool
config_eq a b =
    int_eq a.offset b.offset
    && f32_eq a.scale_factor b.scale_factor
    && f32_eq a.threshold_grams b.threshold_grams
    && a.idle_secs == b.idle_secs
    && a.active_secs == b.active_secs
    && a.tare_token == b.tare_token
    && bool_eq a.deep_sleep b.deep_sleep
    && bool_eq a.lamp_enabled b.lamp_enabled
    && a.lamp_brightness == b.lamp_brightness
    && a.lamp_schedule.start_after_sunset_min == b.lamp_schedule.start_after_sunset_min
    && a.lamp_schedule.cutoff_minute_utc == b.lamp_schedule.cutoff_minute_utc
    && a.heartbeat_secs == b.heartbeat_secs
    && int_eq a.scd41_offset_centi b.scd41_offset_centi
    && a.sds011_kappa_centi == b.sds011_kappa_centi
    && int_eq a.temp_coeff_centi b.temp_coeff_centi
    && int_eq a.tare_temp_tenths b.tare_temp_tenths
    && a.night_idle_secs == b.night_idle_secs
    && a.night_margin_min == b.night_margin_min

module _ (f32 : Float32) where
  open f32 use {parse, mul, add, sub, div, of_i32, to_i32, to_u32}

  -- 100.0 is 0x42c80000.
  abbrev hundredfold : ℕ → ℕ
  hundredfold v = mul v 0x42c8_0000

  -- One arm of the `match key` of `apply`.
  unfoldable pub apply_key : Key → Bytes → Config → Config
  apply_key Key.offset value = if_some (parse_i32 value) λ v c. record c { offset = v }
  apply_key Key.scale_factor value =
      if_some (parse value)
        λ v c. if is_finite v && is_positive v then record c { scale_factor = v } else c
  apply_key Key.threshold value =
      if_some (parse value)
        λ v c. if is_finite v && is_nonnegative v then record c { threshold_grams = v } else c
  apply_key Key.idle_interval value = if_some (parse_u32 value) λ v c. record c { idle_secs = v }
  apply_key Key.active_interval value =
      if_some (parse_u32 value) λ v c. record c { active_secs = v }
  apply_key Key.heartbeat_interval value =
      if_some (parse_u32 value) λ v c. record c { heartbeat_secs = v }
  apply_key Key.scd41_temp_offset value = if_some (parse value) λ v c.
      if is_finite v
      then record c {
        scd41_offset_centi = clamp_ℤ (pos 0) (pos max_offset_centi) (to_i32 (hundredfold v));
      }
      else c
  apply_key Key.sds011_kappa value = if_some (parse value) λ v c.
      if is_finite v && is_nonnegative v
      then record c { sds011_kappa_centi = min (to_u32 (hundredfold v)) max_kappa_centi }
      else c
  apply_key Key.temp_coeff value = if_some (parse value) λ v c.
      if is_finite v
      then record c { temp_coeff_centi = clamp_coeff (to_i32 (hundredfold v)) }
      else c
  apply_key Key.enabled value = if_some (switch value) λ v c. record c { lamp_enabled = v }
  apply_key Key.brightness value =
      if_some (parse_u32 value) λ v c. record c { lamp_brightness = min v 255 }
  apply_key Key.lamp_start value = if_some (parse_u32 value) λ v c. record c {
    lamp_schedule = record {
      start_after_sunset_min = min v 180;
      cutoff_minute_utc = c.lamp_schedule.cutoff_minute_utc;
    };
  }
  apply_key Key.lamp_off value = if_some (parse_hh_mm value) λ v c. record c {
    lamp_schedule = record {
      start_after_sunset_min = c.lamp_schedule.start_after_sunset_min;
      cutoff_minute_utc = v;
    };
  }
  apply_key Key.night_interval value =
      if_some (parse_u32 value) λ v c. record c { night_idle_secs = v }
  apply_key Key.night_margin value =
      if_some (parse_u32 value) λ v c. record c { night_margin_min = min v 180 }
  apply_key Key.deep_sleep value = if_some (switch value) λ v c. record c { deep_sleep = v }
  apply_key Key.unknown_key value = λ c. c

  unfoldable pub apply : Bytes → Bytes → Config → Config × Bool
  apply key value c = let after = apply_key (key_of key) value c in (after, not (config_eq after c))

  -- `ticks as i32`, at least 1.
  unfoldable pub threshold_ticks : Config → ℤ
  threshold_ticks c =
      let ticks = mul c.threshold_grams c.scale_factor in
      if is_finite ticks && is_at_least_one ticks then to_i32 ticks else pos 1

  -- 10.0, 100.0 and 0.5 are 0x41200000, 0x42c80000 and 0x3f000000.
  unfoldable pub drift_ticks : Config → Option ℤ → ℤ
  drift_ticks c none = pos 0
  drift_ticks c (some air) =
      let kelvin = div (of_i32 (wrap_i32 (air -ℤ c.tare_temp_tenths))) 0x4120_0000 in
      let grams = mul kelvin (div (of_i32 c.temp_coeff_centi) 0x42c8_0000) in
      let ticks = mul grams c.scale_factor in
      let rounded = if is_nonnegative ticks then add ticks 0x3f00_0000 else sub ticks 0x3f00_0000 in
      if int_eq c.temp_coeff_centi (pos 0) || int_eq c.tare_temp_tenths tare_temp_unknown
      then pos 0
      else if not (is_finite c.scale_factor) || is_at_most_zero c.scale_factor
      then pos 0
      else if not (is_finite ticks)
      then pos 0
      else to_i32 rounded
