-- ===== src/Config/Blob/RoundTrip.antt =====
-- What is written to flash is read back.
use rs_smarthome_nodes.Base.{
  eq_self, ℕ, ◌≤◌, ◌<◌, ◌≡◌, refl, Bool, true, false, not, some, take, min, ◌==◌, arith,
}
use rs_smarthome_nodes.Base.Bytes.{from_le_lem}
use rs_smarthome_nodes.Base.Int.{ℤ, pos, negsuc, ◌≤ℤ◌}
use rs_smarthome_nodes.Base.Words.{to_u32, InI32, u32_mod, of_u32-to_u32, to_u32-lt}
use rs_smarthome_nodes.Config.{Config, default_config, clamp_coeff, max_kappa_centi}
use rs_smarthome_nodes.Config.Apply.{InRange}
use rs_smarthome_nodes.Config.Blob.{body, to_bytes, from_bytes, bool_u32}
use rs_smarthome_nodes.Crc.{crc32}
use rs_smarthome_nodes.Crc.Bounds.{crc32-lt}

-- The values that are stored fit the words that they are stored in.
pub record Fits (c : Config) : Type 0 where
  pub offset_fits : InI32 c.offset
  pub scale_fits : c.scale_factor < u32_mod
  pub threshold_fits : c.threshold_grams < u32_mod
  pub idle_fits : c.idle_secs < u32_mod
  pub active_fits : c.active_secs < u32_mod
  pub tare_fits : c.tare_token < u32_mod
  pub heartbeat_fits : c.heartbeat_secs < u32_mod
  pub tare_temp_fits : InI32 c.tare_temp_tenths
  pub night_fits : c.night_idle_secs < u32_mod

-- The lamp's settings are not stored: they come back as their defaults.
unfoldable pub reloaded : Config → Config
reloaded c = record c {
  lamp_enabled = default_config.lamp_enabled;
  lamp_brightness = default_config.lamp_brightness;
  lamp_schedule = default_config.lamp_schedule;
}

pub bool_u32-lt : (b : Bool) → bool_u32 b < u32_mod
bool_u32-lt true = omega arith
bool_u32-lt false = omega arith

pub bool_back : (b : Bool) → not (bool_u32 b == 0) ≡ b
bool_back true = refl
bool_back false = refl

pub min_id : (x n : ℕ) → x ≤ n → min x n ≡ x
min_id x n h = omega arith

pub clamp_id : (z : ℤ) → negsuc 19_999 ≤ℤ z → z ≤ℤ pos 20_000 → clamp_coeff z ≡ z
clamp_id z lo hi = ground arith

-- Settings in range, of words that fit, are decoded from their blob, all but the lamp's, which are not
-- stored and come back as their defaults.
pub from_bytes-to_bytes :
    (c : Config) → InRange c → Fits c → from_bytes (to_bytes c) ≡ some (reloaded c)
unfolding from_bytes to_bytes reloaded
from_bytes-to_bytes c h f = simp (
  from_le_lem (crc32 (take 64 (body c))) (crc32-lt _),
  eq_self,
  from_le_lem (to_u32 c.offset) (to_u32-lt _),
  of_u32-to_u32 c.offset f.offset_fits,
  from_le_lem c.scale_factor f.scale_fits,
  from_le_lem c.threshold_grams f.threshold_fits,
  from_le_lem c.idle_secs f.idle_fits,
  from_le_lem c.active_secs f.active_fits,
  from_le_lem c.tare_token f.tare_fits,
  from_le_lem (bool_u32 c.deep_sleep) (bool_u32-lt c.deep_sleep),
  bool_back c.deep_sleep,
  from_le_lem c.heartbeat_secs f.heartbeat_fits,
  from_le_lem (to_u32 c.scd41_offset_centi) (to_u32-lt _),
  of_u32-to_u32 c.scd41_offset_centi (omega (arith, h)),
  from_le_lem c.sds011_kappa_centi (omega (arith, h)),
  min_id c.sds011_kappa_centi max_kappa_centi h.kappa_capped,
  from_le_lem (to_u32 c.temp_coeff_centi) (to_u32-lt _),
  of_u32-to_u32 c.temp_coeff_centi (omega (arith, h)),
  clamp_id c.temp_coeff_centi h.coeff_low h.coeff_high,
  from_le_lem (to_u32 c.tare_temp_tenths) (to_u32-lt _),
  of_u32-to_u32 c.tare_temp_tenths f.tare_temp_fits,
  from_le_lem c.night_idle_secs f.night_fits,
  from_le_lem c.night_margin_min (omega (arith, h)),
  min_id c.night_margin_min 180 h.margin_capped,
)
