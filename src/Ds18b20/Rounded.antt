-- ===== src/Ds18b20/Rounded.antt =====
-- Tenths of a degree (src/ds18b20.rs).
use rs_smarthome_nodes.Base.{arith}
use rs_smarthome_nodes.Base.Int.{ℤ, pos, negsuc, ◌≤ℤ◌, ◌*ℤ◌, ◌+ℤ◌}
use rs_smarthome_nodes.Ds18b20.{temp_tenths}

-- A reading in sixteenths of a degree is rounded to the nearest tenth.
pub temp_tenths_nearest :
    (raw : ℤ)
    → (temp_tenths raw *ℤ pos 16 ≤ℤ raw *ℤ pos 10 +ℤ pos 8)
      × (raw *ℤ pos 10 ≤ℤ temp_tenths raw *ℤ pos 16 +ℤ pos 8)
unfolding temp_tenths ◌*ℤ◌ ◌+ℤ◌
temp_tenths_nearest (pos n) = ground arith
temp_tenths_nearest (negsuc n) = ground arith
