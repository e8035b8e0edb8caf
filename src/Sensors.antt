-- ===== src/Sensors.antt =====
-- The sensors behind one interface: `Reading`, `write_tenths` and `write_int` (src/sensors/mod.rs).
pub mod Uart
pub mod I2c
pub mod Scd41
pub mod Sds011
pub mod Sgp41
pub mod Sht31
mod Tests
use rs_smarthome_nodes.Base.{ℕ, ◌+◌, ◌/◌, ◌%◌, ◌∷◌, ◌++◌}
use rs_smarthome_nodes.Base.Bytes.{Bytes}
use rs_smarthome_nodes.Base.Int.{ℤ, pos, negsuc}
use rs_smarthome_nodes.Base.Text.Decimal.{show}

pub record Reading : Type 0 where
  pub key : Bytes
  pub value : Bytes

abbrev pub magnitude_text : ℕ → Bytes
magnitude_text mag = show (mag / 10) ++ b'.' ∷ show (mag % 10)

-- The buffer of 16 bytes holds every i32 so.
unfoldable pub write_tenths : ℤ → Bytes
write_tenths (pos n) = magnitude_text n
write_tenths (negsuc n) = b'-' ∷ magnitude_text (n + 1)

-- `write_int`
unfoldable pub write_int : ℤ → Bytes
write_int (pos n) = show n
write_int (negsuc n) = b'-' ∷ show (n + 1)
