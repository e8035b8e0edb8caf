-- ===== src/ResetReason.antt =====
-- src/reset_reason.rs: why the board restarted and how often, in RTC RAM and in flash.
pub mod BootLog
mod Tests
use rs_smarthome_nodes.Base.{
  ℕ, ◌+◌, Bool, true, not, ◌||◌, ◌>>=◌, Option, none, some, replicate, copy_at, set, take, ltb, leb,
  ◌==◌, if◌then◌else◌,
}
use rs_smarthome_nodes.Base.Bytes.{Bytes, byte_at, le_bytes, le_at}
use rs_smarthome_nodes.Base.Words.{sat_add_u32}
use rs_smarthome_nodes.Crc.{crc32}
use rs_smarthome_nodes.Flash.{Storage}

abbrev pub state_offset : ℕ
state_offset = 0xc000

abbrev pub boot_log_offset : ℕ
boot_log_offset = state_offset + 0x100

abbrev pub boot_magic : ℕ
boot_magic = 0x544f_4f42

abbrev pub boot_version : ℕ
boot_version = 1

abbrev pub boot_log_len : ℕ
boot_log_len = 20

abbrev pub max_recorded_boots : ℕ
max_recorded_boots = 10_000

abbrev pub power_on : ℕ
power_on = 0x01

abbrev pub deep_sleep : ℕ
deep_sleep = 0x05

abbrev pub epoch_tag : ℕ
epoch_tag = 0x5245_5354

abbrev pub max_plausible_count : ℕ
max_plausible_count = 1_000_000

-- What one boot does to the tag, the count, the latched reason and the refused joins.
unfoldable pub latch : ℕ → ℕ → ℕ → ℕ → ℕ → ℕ × ℕ × ℕ × ℕ
latch tag count latched refusals code =
    let kept = if code == power_on then 0 else refusals in
    if not (tag == epoch_tag) || ltb max_plausible_count count
    then (if code == deep_sleep then (epoch_tag, 0, 0, 0) else (epoch_tag, 1, code, 0))
    else if code == deep_sleep
    then (tag, count, latched, kept)
    else (tag, sat_add_u32 count 1, code, kept)

-- The match of `record_boot` behind its guard.
next_record : Option (ℕ × ℕ) → ℕ → Option (ℕ × ℕ)
next_record none code = some (1, code)
next_record (some (count, reason)) code =
    if leb max_recorded_boots count then none else some (sat_add_u32 count 1, code)

unfoldable pub record_boot : Option (ℕ × ℕ) → ℕ → Option (ℕ × ℕ)
unfolding next_record
record_boot stored code = if code == deep_sleep then none else next_record stored code

unfoldable pub encode_boot_log : ℕ → ℕ → Bytes
encode_boot_log count reason =
    let b0 = copy_at (replicate boot_log_len 0) 0 (le_bytes boot_magic) in
    let b1 = set b0 4 boot_version in
    let b2 = copy_at b1 8 (le_bytes count) in
    let b3 = copy_at b2 12 (le_bytes reason) in copy_at b3 16 (le_bytes (crc32 (take 16 b3)))

unfoldable pub decode_boot_log : Bytes → Option (ℕ × ℕ)
decode_boot_log b =
    let crc = le_at b 16 in
    let count = le_at b 8 in
    if not (le_at b 0 == boot_magic) || not (byte_at b 4 == boot_version)
    then none
    else if not (crc == crc32 (take 16 b))
    then none
    else if count == 0 || ltb max_recorded_boots count
    then none
    else some (count, le_at b 12)

module _ (flash : Storage) where
  open flash use {Chip, read, write}

  unfoldable pub load_boot_log : Chip → Option (ℕ × ℕ)
  load_boot_log chip = do b ← read chip boot_log_offset boot_log_len; decode_boot_log b

  unfoldable pub store_record : Chip → Option (ℕ × ℕ) → Chip × Bool
  store_record chip none = (chip, true)
  store_record chip (some (count, reason)) =
      write chip boot_log_offset (encode_boot_log count reason)

  -- The flag tells that no write failed, where the code logs a warning if one did.
  unfoldable pub note_boot : Chip → ℕ → Chip × Bool
  unfolding store_record
  note_boot chip code = store_record chip (record_boot (load_boot_log chip) code)
