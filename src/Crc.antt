-- ===== src/Crc.antt =====
-- The checksums: `crc32` of src/config.rs, `entry_crc` of src/ota.rs, `crc8_sensirion` and
-- `crc_word` of src/sensors/mod.rs, and `crc8` of src/ds18b20.rs.
pub mod Bounds
pub mod Sealing
mod Tests
use rs_smarthome_nodes.Base.{
  ℕ, zero, suc, ◌+◌, ◌-◌, ◌*◌, ◌/◌, ◌%◌, not, [], ◌∷◌, Option, none, some, bit_and, bit_xor, ◌==◌,
  if◌then◌else◌,
}
use rs_smarthome_nodes.Base.Bytes.{Bytes, le_bytes}
use rs_smarthome_nodes.Base.Words.{u32_max, u32_mod}

-- `!x` on `u32`, for a value below 2 ^ 32.
abbrev pub not_u32 : ℕ → ℕ
not_u32 x = u32_max - x

-- One turn of the inner loop; the mask is `(crc & 1).wrapping_neg()`.
unfoldable pub crc32_bit : ℕ → ℕ
crc32_bit crc =
    let mask = (u32_mod - bit_and crc 1) % u32_mod in bit_xor (crc / 2) (bit_and 0xedb8_8320 mask)

unfoldable pub crc32_bits : ℕ → ℕ → ℕ
crc32_bits zero crc = crc
crc32_bits (suc j) crc = crc32_bits j (crc32_bit crc)

unfoldable pub crc32_loop : ℕ → Bytes → ℕ
crc32_loop crc [] = crc
crc32_loop crc (x ∷ data_left) = crc32_loop (crc32_bits 8 (bit_xor crc x)) data_left

unfoldable pub crc32 : Bytes → ℕ
unfolding crc32_bit crc32_bits crc32_loop
crc32 bytes = not_u32 (crc32_loop 0xffff_ffff bytes)

-- The boot loader's variant starts from 0.
unfoldable pub entry_crc : ℕ → ℕ
unfolding crc32_bit crc32_bits crc32_loop
entry_crc seq = not_u32 (crc32_loop 0 (le_bytes seq))

-- `u8` shifts drop what leaves the byte.
unfoldable pub crc8_sensirion_bits : ℕ → ℕ → ℕ
crc8_sensirion_bits zero crc = crc
crc8_sensirion_bits (suc bit) crc =
    crc8_sensirion_bits bit
      (if bit_and crc 0x80 == 0 then crc * 2 % 256 else bit_xor (crc * 2 % 256) 0x31)

unfoldable pub crc8_sensirion_loop : ℕ → Bytes → ℕ
crc8_sensirion_loop crc [] = crc
crc8_sensirion_loop crc (x ∷ data_left) =
    crc8_sensirion_loop (crc8_sensirion_bits 8 (bit_xor crc x)) data_left

unfoldable pub crc8_sensirion : Bytes → ℕ
unfolding crc8_sensirion_bits crc8_sensirion_loop
crc8_sensirion bytes = crc8_sensirion_loop 0xff bytes

unfoldable pub crc_word : Bytes → Option ℕ
crc_word (msb ∷ lsb ∷ crc ∷ []) =
    if not (crc8_sensirion (msb ∷ lsb ∷ []) == crc) then none else some (256 * msb + lsb)
crc_word _ = none

-- The 1-Wire checksum; the loop shifts the byte beside the register.
unfoldable pub crc8_dallas_bits : ℕ → ℕ → ℕ → ℕ
crc8_dallas_bits zero crc byte = crc
crc8_dallas_bits (suc bit) crc byte =
    let mix = bit_and (bit_xor crc byte) 1 in
    crc8_dallas_bits bit (if mix == 0 then crc / 2 else bit_xor (crc / 2) 0x8c) (byte / 2)

unfoldable pub crc8_dallas_loop : ℕ → Bytes → ℕ
crc8_dallas_loop crc [] = crc
crc8_dallas_loop crc (x ∷ data_left) = crc8_dallas_loop (crc8_dallas_bits 8 crc x) data_left

unfoldable pub crc8_dallas : Bytes → ℕ
unfolding crc8_dallas_bits crc8_dallas_loop
crc8_dallas bytes = crc8_dallas_loop 0 bytes
