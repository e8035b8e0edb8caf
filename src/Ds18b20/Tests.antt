-- ===== src/Ds18b20/Tests.antt =====
-- The values that the source asserts at compile time.
use rs_smarthome_nodes.Base.{◌≡◌, refl}
use rs_smarthome_nodes.Base.Int.{pos, negsuc}
use rs_smarthome_nodes.Ds18b20.{temp_tenths}

rounded_up : temp_tenths (pos 0x191) ≡ pos 251
unfolding temp_tenths
rounded_up = refl

power_on : temp_tenths (pos 0x550) ≡ pos 850
unfolding temp_tenths
power_on = refl

half_below : temp_tenths (negsuc 7) ≡ negsuc 4
unfolding temp_tenths
half_below = refl
