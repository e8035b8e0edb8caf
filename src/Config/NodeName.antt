-- ===== src/Config/NodeName.antt =====
-- The node name in flash: `encode_node_name`, `decode_node_name` and what loads, stores and clears it
-- (src/config.rs).
pub mod RoundTrip
use rs_smarthome_nodes.Base.{
  ℕ, Bool, false, not, ◌||◌, Option, none, some, ◌>>=◌, copy_at, replicate, set, take, drop, length,
  ltb, ◌==◌, if◌then◌else◌,
}
use rs_smarthome_nodes.Base.Bytes.{Bytes, le_bytes, le_at, byte_at}
use rs_smarthome_nodes.Base.Text.{from_utf8}
use rs_smarthome_nodes.Crc.{crc32}
use rs_smarthome_nodes.Flash.{Storage}

abbrev pub node_offset : ℕ
node_offset = 0xa000

abbrev pub node_magic : ℕ
node_magic = 0x4544_4f4e

abbrev pub node_version : ℕ
node_version = 1

abbrev pub node_name_max : ℕ
node_name_max = 16

abbrev pub node_blob_len : ℕ
node_blob_len = 28

-- `String::try_from` cannot fail behind the check of the length.
unfoldable pub decode_node_name : Bytes → Option Bytes
decode_node_name b =
    let len = byte_at b 5 in
    if not (le_at b 0 == node_magic) || not (byte_at b 4 == node_version)
    then none
    else if not (le_at b 24 == crc32 (take 24 b))
    then none
    else if len == 0 || ltb node_name_max len
    then none
    else from_utf8 (take len (drop 8 b))

-- The blob without its checksum; `as u8` is exact behind the check of the length.
unfoldable pub named : Bytes → Bytes
named name =
    let b = copy_at (replicate node_blob_len 0) 0 (le_bytes node_magic) in
    let b = set b 4 node_version in let b = set b 5 (length name) in copy_at b 8 name

-- `none` stands for the error.
unfoldable pub encode_node_name : Bytes → Option Bytes
encode_node_name name =
    let b = named name in
    if length name == 0 || ltb node_name_max (length name)
    then none
    else some (copy_at b 24 (le_bytes (crc32 (take 24 b))))

module _ (flash : Storage) where
  open flash use {Chip, read, write}

  unfoldable pub load_node_name : Chip → Option Bytes
  load_node_name chip = do b ← read chip node_offset node_blob_len; decode_node_name b

  unfoldable pub write_named : Chip → Option Bytes → Chip × Bool
  write_named chip none = (chip, false)
  write_named chip (some b) = write chip node_offset b

  unfoldable pub store_node_name : Bytes → Chip → Chip × Bool
  unfolding write_named
  store_node_name name chip = write_named chip (encode_node_name name)

  unfoldable pub clear_node_name : Chip → Chip × Bool
  clear_node_name chip = write chip node_offset (replicate node_blob_len 0)
