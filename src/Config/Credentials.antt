-- ===== src/Config/Credentials.antt =====
-- The network's credentials in flash: `encode_credentials`, `decode_credentials` and what loads,
-- stores and clears them (src/config.rs).
pub mod RoundTrip
use rs_smarthome_nodes.Base.{
  ℕ, Bool, false, not, ◌||◌, Option, none, some, ◌>>=◌, copy_at, replicate, set, take, drop, length,
  ltb, ◌==◌, if◌then◌else◌,
}
use rs_smarthome_nodes.Base.Bytes.{Bytes, le_bytes, le_at, byte_at}
use rs_smarthome_nodes.Base.Text.{from_utf8}
use rs_smarthome_nodes.Crc.{crc32}
use rs_smarthome_nodes.Flash.{Storage}

abbrev pub wifi_offset : ℕ
wifi_offset = 0xb000

abbrev pub wifi_magic : ℕ
wifi_magic = 0x4946_4957

abbrev pub wifi_version : ℕ
wifi_version = 1

abbrev pub ssid_max : ℕ
ssid_max = 32

abbrev pub psk_max : ℕ
psk_max = 64

abbrev pub wifi_blob_len : ℕ
wifi_blob_len = 108

abbrev pub wifi_ssid_at : ℕ
wifi_ssid_at = 8

abbrev pub wifi_psk_at : ℕ
wifi_psk_at = 40

abbrev pub wifi_crc_at : ℕ
wifi_crc_at = 104

-- `String::try_from` cannot fail behind the checks of the lengths.
unfoldable pub decode_credentials : Bytes → Option (Bytes × Bytes)
decode_credentials b =
    let ssid_len = byte_at b 5 in
    let psk_len = byte_at b 6 in
    if not (le_at b 0 == wifi_magic) || not (byte_at b 4 == wifi_version)
    then none
    else if not (le_at b wifi_crc_at == crc32 (take wifi_crc_at b))
    then none
    else if ssid_len == 0 || ltb ssid_max ssid_len || ltb psk_max psk_len
    then none
    else do
      ssid ← from_utf8 (take ssid_len (drop wifi_ssid_at b))
      psk ← from_utf8 (take psk_len (drop wifi_psk_at b))
      some (ssid, psk)

-- The blob without its checksum; `as u8` is exact behind the checks of the lengths.
unfoldable pub joined : Bytes → Bytes → Bytes
joined ssid psk =
    let b = copy_at (replicate wifi_blob_len 0) 0 (le_bytes wifi_magic) in
    let b = set b 4 wifi_version in
    let b = set b 5 (length ssid) in
    let b = set b 6 (length psk) in let b = copy_at b wifi_ssid_at ssid in copy_at b wifi_psk_at psk

-- `none` stands for the error.
unfoldable pub encode_credentials : Bytes → Bytes → Option Bytes
encode_credentials ssid psk =
    let b = joined ssid psk in
    if length ssid == 0 || ltb ssid_max (length ssid)
    then none
    else if ltb psk_max (length psk)
    then none
    else some (copy_at b wifi_crc_at (le_bytes (crc32 (take wifi_crc_at b))))

module _ (flash : Storage) where
  open flash use {Chip, read, write}

  unfoldable pub load_credentials : Chip → Option (Bytes × Bytes)
  load_credentials chip = do b ← read chip wifi_offset wifi_blob_len; decode_credentials b

  unfoldable pub write_credentials : Chip → Option Bytes → Chip × Bool
  write_credentials chip none = (chip, false)
  write_credentials chip (some b) = write chip wifi_offset b

  unfoldable pub store_credentials : Bytes → Bytes → Chip → Chip × Bool
  store_credentials ssid psk chip = write_credentials chip (encode_credentials ssid psk)

  unfoldable pub clear_credentials : Chip → Chip × Bool
  clear_credentials chip = write chip wifi_offset (replicate wifi_blob_len 0)
