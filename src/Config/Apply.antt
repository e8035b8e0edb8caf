-- ===== src/Config/Apply.antt =====
-- What a retained value from Home Assistant can do to the settings.
use rs_smarthome_nodes.Base.{
  eq_self, ℕ, ◌≤◌, ◌<◌, ◌≡◌, refl, Bool, true, false, none, Option-cases, inl, inr, arith, ◌⊎◌,
}
use rs_smarthome_nodes.Base.Bytes.{Bytes}
use rs_smarthome_nodes.Base.Float.{Float32, is_finite, is_positive, is_nonnegative, is_nan}
use rs_smarthome_nodes.Base.Int.{ℤ, pos, negsuc, ◌≤ℤ◌}
use rs_smarthome_nodes.Base.Text.Decimal.{parse_u32}
use rs_smarthome_nodes.Config.Keys.{Key, key_of, parse_hh_mm, parse_hh_mm-lt}
use rs_smarthome_nodes.Config.{
  Config, apply, apply_key, int_eq, bool_eq, default_config, config_eq, threshold_ticks,
  max_offset_centi, max_kappa_centi, max_temp_coeff_centi,
}

-- The ranges that the rest of the firmware relies on.
pub record InRange (c : Config) : Type 0 where
  pub scale_finite : is_finite c.scale_factor ≡ true
  pub scale_positive : is_positive c.scale_factor ≡ true
  pub threshold_finite : is_finite c.threshold_grams ≡ true
  pub threshold_nonnegative : is_nonnegative c.threshold_grams ≡ true
  pub brightness_byte : c.lamp_brightness ≤ 255
  pub start_capped : c.lamp_schedule.start_after_sunset_min ≤ 180
  pub cutoff_in_day : c.lamp_schedule.cutoff_minute_utc < 1440
  pub offset_low : pos 0 ≤ℤ c.scd41_offset_centi
  pub offset_high : c.scd41_offset_centi ≤ℤ pos max_offset_centi
  pub kappa_capped : c.sds011_kappa_centi ≤ max_kappa_centi
  pub coeff_low : negsuc 19_999 ≤ℤ c.temp_coeff_centi
  pub coeff_high : c.temp_coeff_centi ≤ℤ pos max_temp_coeff_centi
  pub margin_capped : c.night_margin_min ≤ 180

pub default_config-InRange : InRange default_config
default_config-InRange = ground arith

-- The settings with the one that a key stands for put back to its default.
unfoldable pub without : Key → Config → Config
without Key.offset c = record c { offset = default_config.offset }
without Key.scale_factor c = record c { scale_factor = default_config.scale_factor }
without Key.threshold c = record c { threshold_grams = default_config.threshold_grams }
without Key.idle_interval c = record c { idle_secs = default_config.idle_secs }
without Key.active_interval c = record c { active_secs = default_config.active_secs }
without Key.heartbeat_interval c = record c { heartbeat_secs = default_config.heartbeat_secs }
without Key.scd41_temp_offset c = record c {
  scd41_offset_centi = default_config.scd41_offset_centi;
}
without Key.sds011_kappa c = record c { sds011_kappa_centi = default_config.sds011_kappa_centi }
without Key.temp_coeff c = record c { temp_coeff_centi = default_config.temp_coeff_centi }
without Key.enabled c = record c { lamp_enabled = default_config.lamp_enabled }
without Key.brightness c = record c { lamp_brightness = default_config.lamp_brightness }
without Key.lamp_start c = record c {
  lamp_schedule = record {
    start_after_sunset_min = 45;
    cutoff_minute_utc = c.lamp_schedule.cutoff_minute_utc;
  };
}
without Key.lamp_off c = record c {
  lamp_schedule = record {
    start_after_sunset_min = c.lamp_schedule.start_after_sunset_min;
    cutoff_minute_utc = 1230;
  };
}
without Key.night_interval c = record c { night_idle_secs = default_config.night_idle_secs }
without Key.night_margin c = record c { night_margin_min = default_config.night_margin_min }
without Key.deep_sleep c = record c { deep_sleep = default_config.deep_sleep }
without Key.unknown_key c = c

int_eq_refl : (z : ℤ) → int_eq z z ≡ true
unfolding int_eq
int_eq_refl (pos n) = ground arith
int_eq_refl (negsuc n) = ground arith

bool_eq_refl : (b : Bool) → bool_eq b b ≡ true
unfolding bool_eq
bool_eq_refl true = refl
bool_eq_refl false = refl

not_nan : (v : ℕ) → is_finite v ≡ true → is_nan v ≡ false
not_nan v h = ground arith

config_eq_refl : (c : Config) → InRange c → config_eq c c ≡ true
unfolding config_eq
config_eq_refl c h = simp (
  eq_self,
  int_eq_refl,
  bool_eq_refl,
  not_nan c.scale_factor h.scale_finite,
  not_nan c.threshold_grams h.threshold_finite,
)

module _ (f32 : Float32) where
  apply_key-InRange :
      (k : Key) (value : Bytes) (c : Config) → InRange c → InRange (apply_key f32 k value c)
  unfolding apply_key
  apply_key-InRange Key.offset value c h = ground arith
  apply_key-InRange Key.lamp_off value c h = elim (Option-cases (parse_hh_mm value)) [
    | inl e ↦ rw e h
    | inr (m, e) ↦ let in_day = parse_hh_mm-lt value e in rw e (ground arith)
  ]
  apply_key-InRange _ value c h = ground arith

  -- Settings in range stay so under every value of every key, unparseable ones included.
  pub apply-InRange :
      (key value : Bytes) (c : Config) → InRange c → InRange (apply f32 key value c).0
  unfolding apply
  apply-InRange key value c h = apply_key-InRange (key_of key) value c h

  -- The threshold in ticks is at least 1, whatever the settings hold.
  pub threshold_ticks_positive : (c : Config) → pos 1 ≤ℤ threshold_ticks f32 c
  unfolding threshold_ticks
  threshold_ticks_positive c =
      ground (arith, f32.to_i32_positive (f32.mul c.threshold_grams c.scale_factor))

  apply_key-without :
      (k : Key) (value : Bytes) (c : Config) → without k (apply_key f32 k value c) ≡ without k c
  unfolding without apply_key
  apply_key-without Key.offset value c = ground arith
  apply_key-without _ value c = ground arith

  -- A value that is sent for a key changes the setting of that key and no other; one sent for a key
  -- that is not known changes nothing.
  pub apply-without :
      (key value : Bytes) (c : Config)
      → without (key_of key) (apply f32 key value c).0 ≡ without (key_of key) c
  unfolding apply
  apply-without key value c = apply_key-without (key_of key) value c

  -- With settings in range, a key that is not known, or an idle interval that is no number, changes
  -- nothing and is reported as no change.
  pub apply_ignored :
      (key value : Bytes) (c : Config)
      → InRange c
      → (key_of key ≡ Key.unknown_key)
        ⊎ ((key_of key ≡ Key.idle_interval) × (parse_u32 value ≡ none))
      → apply f32 key value c ≡ (c, false)
  unfolding apply apply_key
  apply_ignored key value c h (inl e) = rw (e, config_eq_refl c h)
  apply_ignored key value c h (inr (e, bad)) = rw (e, bad, config_eq_refl c h)
