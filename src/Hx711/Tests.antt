-- ===== src/Hx711/Tests.antt =====
-- The values that the source asserts at compile time.
use rs_smarthome_nodes.Base.{◌≡◌, refl}
use rs_smarthome_nodes.Base.Int.{pos, negsuc}
use rs_smarthome_nodes.Hx711.{sign_extend_24}

largest : sign_extend_24 0x7f_ffff ≡ pos 8_388_607
unfolding sign_extend_24
largest = refl

smallest : sign_extend_24 0x80_0000 ≡ negsuc 8_388_607
unfolding sign_extend_24
smallest = refl

minus_one : sign_extend_24 0xff_ffff ≡ negsuc 0
unfolding sign_extend_24
minus_one = refl
