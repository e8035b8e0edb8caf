-- ===== src/Config/Blob.antt =====
-- The settings in flash: `to_bytes`, `from_bytes`, `load` and `store` of src/config.rs.
pub mod RoundTrip
pub mod Stored
use rs_smarthome_nodes.Base.{
  ℕ, ◌-◌, Bool, true, false, not, Option, none, some, ◌>>=◌, copy_at, replicate, set, take, min,
  ◌==◌, if◌then◌else◌,
}
use rs_smarthome_nodes.Base.Bytes.{Bytes, le_bytes, le_at, byte_at}
use rs_smarthome_nodes.Base.Words.{to_u32, of_u32}
use rs_smarthome_nodes.Config.{Config, default_config, clamp_coeff, max_kappa_centi}
use rs_smarthome_nodes.Crc.{crc32}
use rs_smarthome_nodes.Flash.{Storage}

abbrev pub flash_offset : ℕ
flash_offset = 0x9000

abbrev pub magic : ℕ
magic = 0x4449_5242

abbrev pub version : ℕ
version = 7

abbrev pub blob_len : ℕ
blob_len = 68

abbrev pub v6_len : ℕ
v6_len = 60

abbrev pub v5_len : ℕ
v5_len = 52

abbrev pub bool_u32 : Bool → ℕ
bool_u32 true = 1
bool_u32 false = 0

-- The blob without its checksum.
unfoldable pub body : Config → Bytes
body c =
    let b = copy_at (replicate blob_len 0) 0 (le_bytes magic) in
    let b = set b 4 version in
    let b = copy_at b 8 (le_bytes (to_u32 c.offset)) in
    let b = copy_at b 12 (le_bytes c.scale_factor) in
    let b = copy_at b 16 (le_bytes c.threshold_grams) in
    let b = copy_at b 20 (le_bytes c.idle_secs) in
    let b = copy_at b 24 (le_bytes c.active_secs) in
    let b = copy_at b 28 (le_bytes c.tare_token) in
    let b = copy_at b 32 (le_bytes (bool_u32 c.deep_sleep)) in
    let b = copy_at b 36 (le_bytes c.heartbeat_secs) in
    let b = copy_at b 40 (le_bytes (to_u32 c.scd41_offset_centi)) in
    let b = copy_at b 44 (le_bytes c.sds011_kappa_centi) in
    let b = copy_at b 48 (le_bytes (to_u32 c.temp_coeff_centi)) in
    let b = copy_at b 52 (le_bytes (to_u32 c.tare_temp_tenths)) in
    let b = copy_at b 56 (le_bytes c.night_idle_secs) in copy_at b 60 (le_bytes c.night_margin_min)

unfoldable pub to_bytes : Config → Bytes
unfolding body
to_bytes c = copy_at (body c) 64 (le_bytes (crc32 (take 64 (body c))))

unfoldable pub v6_extras : Bytes → Config → Config
v6_extras b rest = record rest {
  temp_coeff_centi = clamp_coeff (of_u32 (le_at b 48));
  tare_temp_tenths = of_u32 (le_at b 52);
}

unfoldable pub common_from_bytes : Bytes → Config → Config
common_from_bytes b rest = record rest {
  offset = of_u32 (le_at b 8);
  scale_factor = le_at b 12;
  threshold_grams = le_at b 16;
  idle_secs = le_at b 20;
  active_secs = le_at b 24;
  tare_token = le_at b 28;
  deep_sleep = not (le_at b 32 == 0);
  heartbeat_secs = le_at b 36;
  scd41_offset_centi = of_u32 (le_at b 40);
  sds011_kappa_centi = min (le_at b 44) max_kappa_centi;
}

-- The `try_into`s are on slices of four bytes and cannot fail.
unfoldable pub from_bytes : Bytes → Option Config
unfolding v6_extras common_from_bytes
from_bytes b =
    let rest = record default_config {
      night_idle_secs = le_at b 56;
      night_margin_min = min (le_at b 60) 180;
    } in
    if not (le_at b 0 == magic)
    then none
    else if byte_at b 4 == version
    then (if not (le_at b 64 == crc32 (take 64 b))
        then none
        else some (common_from_bytes b (v6_extras b rest)))
    else if byte_at b 4 == 6
    then (if not (le_at b (v6_len - 4) == crc32 (take (v6_len - 4) b))
        then none
        else some (common_from_bytes b (v6_extras b default_config)))
    else if byte_at b 4 == 5
    then (if not (le_at b (v5_len - 4) == crc32 (take (v5_len - 4) b))
        then none
        else some (common_from_bytes b default_config))
    else none

or_default : Option Config → Config
or_default none = default_config
or_default (some c) = c

module _ (flash : Storage) where
  open flash use {Chip, read, write}

  unfoldable pub load : Chip → Config
  unfolding or_default
  load chip = or_default (do b ← read chip flash_offset blob_len; from_bytes b)

  unfoldable pub store : Config → Chip → Chip × Bool
  store config chip = write chip flash_offset (to_bytes config)
