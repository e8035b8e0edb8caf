-- ===== src/Config/Blob/Stored.antt =====
-- The settings on the chip, and the blobs that earlier releases left there.
use rs_smarthome_nodes.Base.{
  eq_self, ℕ, ◌≤◌, ◌≡◌, refl, ◌⊎◌, true, some, ◌++◌, take, set, length, arith, ◌+◌,
}
use rs_smarthome_nodes.Base.Bytes.{Bytes, le_bytes, from_le_lem}
use rs_smarthome_nodes.Base.Words.{to_u32, of_u32-to_u32, to_u32-lt}
use rs_smarthome_nodes.Config.{Config, default_config, max_kappa_centi}
use rs_smarthome_nodes.Config.Apply.{InRange}
use rs_smarthome_nodes.Config.Blob.RoundTrip.{
  Fits, reloaded, from_bytes-to_bytes, bool_u32-lt, bool_back, min_id, clamp_id,
}
use rs_smarthome_nodes.Config.Blob.{
  body, to_bytes, from_bytes, bool_u32, flash_offset, blob_len, load, store,
}
use rs_smarthome_nodes.Crc.{crc32}
use rs_smarthome_nodes.Crc.Bounds.{crc32-lt}
use rs_smarthome_nodes.Flash.{Storage}

length-to_bytes : (c : Config) → length (to_bytes c) ≡ blob_len
unfolding to_bytes
length-to_bytes c = refl

module _ (flash : Storage) where
  open flash use {Chip, write, read-write, read-write_apart}

  -- Settings in range, of words that fit, that `store` wrote without an error are what `load` returns at
  -- the next boot, the lamp's apart, which come back as their defaults.
  pub load-store :
      (c : Config) (chip : Chip)
      → InRange c
      → Fits c
      → (store flash c chip).1 ≡ true
      → load flash (store flash c chip).0 ≡ reloaded c
  unfolding load store
  load-store c chip h f done =
      rw (← length-to_bytes c)
        (rw (read-write chip flash_offset (to_bytes c) done) (rw (from_bytes-to_bytes c h f)))

  -- A write to any other block of the chip leaves the settings as they were.
  pub load-write_apart :
      (chip : Chip) (at : ℕ) (b : Bytes)
      → (write chip at b).1 ≡ true
      → (at + length b ≤ flash_offset) ⊎ (flash_offset + blob_len ≤ at)
      → load flash (write chip at b).0 ≡ load flash chip
  unfolding load
  load-write_apart chip at b done apart =
      rw (read-write_apart chip at b flash_offset blob_len done apart)

-- The blob of the release before: four bytes of header, version 6, the same words up to the
-- temperature of the tare, their checksum, and whatever the flash holds behind it.
unfoldable pub v6_blob : Config → Bytes → Bytes
v6_blob c rest = let b = take 56 (set (body c) 4 6) in b ++ (le_bytes (crc32 b) ++ rest)

-- Version 5 ended with the humidity correction.
unfoldable pub v5_blob : Config → Bytes → Bytes
v5_blob c rest = let b = take 48 (set (body c) 4 5) in b ++ (le_bytes (crc32 b) ++ rest)

-- The settings of a version 6 blob, in range and of words that fit, are taken over, whatever the flash
-- holds behind it; those that it does not have come back as their defaults.
pub from_bytes-v6_blob :
    (c : Config) (rest : Bytes)
    → InRange c
    → Fits c
    → from_bytes (v6_blob c rest)
      ≡ some (record (reloaded c) {
        night_idle_secs = default_config.night_idle_secs;
        night_margin_min = default_config.night_margin_min;
      })
unfolding from_bytes v6_blob body reloaded
from_bytes-v6_blob c rest h f = simp (
  from_le_lem (crc32 (take 56 (set (body c) 4 6))) (crc32-lt _),
  eq_self,
  from_le_lem (to_u32 c.offset) (to_u32-lt _),
  of_u32-to_u32 c.offset f.offset_fits,
  from_le_lem c.scale_factor f.scale_fits,
  from_le_lem c.threshold_grams f.threshold_fits,
  from_le_lem c.idle_secs f.idle_fits,
  from_le_lem c.active_secs f.active_fits,
  from_le_lem c.tare_token f.tare_fits,
  from_le_lem (bool_u32 c.deep_sleep) (bool_u32-lt c.deep_sleep),
  bool_back c.deep_sleep,
  from_le_lem c.heartbeat_secs f.heartbeat_fits,
  from_le_lem (to_u32 c.scd41_offset_centi) (to_u32-lt _),
  of_u32-to_u32 c.scd41_offset_centi (omega (arith, h)),
  from_le_lem c.sds011_kappa_centi (omega (arith, h)),
  min_id c.sds011_kappa_centi max_kappa_centi h.kappa_capped,
  from_le_lem (to_u32 c.temp_coeff_centi) (to_u32-lt _),
  of_u32-to_u32 c.temp_coeff_centi (omega (arith, h)),
  clamp_id c.temp_coeff_centi h.coeff_low h.coeff_high,
  from_le_lem (to_u32 c.tare_temp_tenths) (to_u32-lt _),
  of_u32-to_u32 c.tare_temp_tenths f.tare_temp_fits,
)

-- So too for version 5, which had no temperature correction either.
pub from_bytes-v5_blob :
    (c : Config) (rest : Bytes)
    → InRange c
    → Fits c
    → from_bytes (v5_blob c rest)
      ≡ some (record (reloaded c) {
        temp_coeff_centi = default_config.temp_coeff_centi;
        tare_temp_tenths = default_config.tare_temp_tenths;
        night_idle_secs = default_config.night_idle_secs;
        night_margin_min = default_config.night_margin_min;
      })
unfolding from_bytes v5_blob body reloaded
from_bytes-v5_blob c rest h f = simp (
  from_le_lem (crc32 (take 48 (set (body c) 4 5))) (crc32-lt _),
  eq_self,
  from_le_lem (to_u32 c.offset) (to_u32-lt _),
  of_u32-to_u32 c.offset f.offset_fits,
  from_le_lem c.scale_factor f.scale_fits,
  from_le_lem c.threshold_grams f.threshold_fits,
  from_le_lem c.idle_secs f.idle_fits,
  from_le_lem c.active_secs f.active_fits,
  from_le_lem c.tare_token f.tare_fits,
  from_le_lem (bool_u32 c.deep_sleep) (bool_u32-lt c.deep_sleep),
  bool_back c.deep_sleep,
  from_le_lem c.heartbeat_secs f.heartbeat_fits,
  from_le_lem (to_u32 c.scd41_offset_centi) (to_u32-lt _),
  of_u32-to_u32 c.scd41_offset_centi (omega (arith, h)),
  from_le_lem c.sds011_kappa_centi (omega (arith, h)),
  min_id c.sds011_kappa_centi max_kappa_centi h.kappa_capped,
)
