-- ===== src/Ds18b20.antt =====
-- The temperature sensor of the cell (src/ds18b20.rs). The pin and the delays are parameters.
mod Rounded
mod Tests
use rs_smarthome_nodes.Base.{
  ℕ, zero, suc, ◌+◌, ◌-◌, ◌*◌, ◌/◌, ◌%◌, Bool, true, false, not, Option, none, some, [], ◌∷◌, take,
  ◌==◌, ltb, if◌then◌else◌,
}
use rs_smarthome_nodes.Base.Bytes.{Bytes, byte_at}
use rs_smarthome_nodes.Base.Int.{ℤ, pos, negsuc, sub_ℕ}
use rs_smarthome_nodes.Sensors.{magnitude_text}
use rs_smarthome_nodes.Crc.{crc8_dallas}

-- `Flex` and `Delay` of `esp-hal`, and the wait for the conversion.
pub record Pin : Type 1 where
  pub Line : Type 0
  pub set_low : Line → Line
  pub set_high : Line → Line
  pub delay_micros : ℕ → Line → Line
  pub is_low : Line → Line × Bool
  pub is_high : Line → Line × Bool
  pub convert : Line → Line

abbrev pub cmd_skip_rom : ℕ
cmd_skip_rom = 0xcc

abbrev pub cmd_convert_t : ℕ
cmd_convert_t = 0x44

abbrev pub cmd_read_scratchpad : ℕ
cmd_read_scratchpad = 0xbe

-- `i16::from_le_bytes`
unfoldable pub i16_from_le : ℕ → ℕ → ℤ
i16_from_le low high =
    let w = low + 256 * high in if ltb w 0x8000 then pos w else negsuc (0xffff - w)

-- `/` rounds towards zero, so half a step is added away from it.
unfoldable pub temp_tenths : ℤ → ℤ
temp_tenths (pos n) = pos ((10 * n + 8) / 16)
temp_tenths (negsuc n) = sub_ℕ 0 ((10 * suc n + 8) / 16)

unfoldable pub write_temp : ℤ → Bytes
write_temp (pos n) = magnitude_text n
write_temp (negsuc n) = b'-' ∷ magnitude_text (suc n)

unfoldable pub write_temp_c : ℤ → Bytes
unfolding temp_tenths write_temp
write_temp_c raw = write_temp (temp_tenths raw)

abbrev pub bit_of : Bool → ℕ
bit_of true = 1
bit_of false = 0

module _ (pin : Pin) where
  open pin use {Line, set_low, set_high, delay_micros, is_low, is_high, convert}

  unfoldable pub reset : Line → Line × Bool
  reset l =
      let seen = is_low (delay_micros 70 (set_high (delay_micros 480 (set_low l)))) in
      (delay_micros 410 (seen.0), seen.1)

  -- Low for so long, then released for the rest of the slot.
  abbrev pub pulse : ℕ → ℕ → Line → Line
  pulse low rest l = delay_micros rest (set_high (delay_micros low (set_low l)))

  unfoldable pub write_bit : Bool → Line → Line
  write_bit true l = pulse 6 64 l
  write_bit false l = pulse 60 10 l

  unfoldable pub read_bit : Line → Line × Bool
  read_bit l = let seen = is_high (pulse 6 9 l) in (delay_micros 55 (seen.0), seen.1)

  -- The bits that are left of a byte, the lowest first.
  unfoldable pub write_bits : ℕ → ℕ → Line → Line
  write_bits zero byte l = l
  write_bits (suc left) byte l = write_bits left (byte / 2) (write_bit (byte % 2 == 1) l)

  abbrev pub write_byte : ℕ → Line → Line
  write_byte byte = write_bits 8 byte

  unfoldable pub read_bits : ℕ → ℕ → ℕ → Line → Line × ℕ
  read_bits zero weight byte l = (l, byte)
  read_bits (suc left) weight byte l =
      let seen = read_bit l in
      read_bits left (2 * weight) (byte + weight * bit_of (seen.1)) (seen.0)

  abbrev pub read_byte : Line → Line × ℕ
  read_byte = read_bits 8 1 0

  unfoldable pub read_bytes : ℕ → Line → Line × Bytes
  read_bytes zero l = (l, [])
  read_bytes (suc n) l =
      let first = read_byte l in let rest = read_bytes n (first.0) in (rest.0, first.1 ∷ rest.1)

  abbrev pub checked : Line × Bytes → Line × Option ℤ
  checked (l, scratchpad) =
      if not (crc8_dallas (take 8 scratchpad) == byte_at scratchpad 8)
      then (l, none)
      else (l, some (i16_from_le (byte_at scratchpad 0) (byte_at scratchpad 1)))

  abbrev pub converted : Line × Bool → Line × Option ℤ
  converted (l, false) = (l, none)
  converted (l, true) =
      checked (read_bytes 9 (write_byte cmd_read_scratchpad (write_byte cmd_skip_rom l)))

  abbrev pub started : Line × Bool → Line × Option ℤ
  started (l, false) = (l, none)
  started (l, true) =
      converted (reset (convert (write_byte cmd_convert_t (write_byte cmd_skip_rom l))))

  unfoldable pub ds18b20_read : Line → Line × Option ℤ
  unfolding write_bits read_bits read_bytes
  ds18b20_read l = started (reset l)
