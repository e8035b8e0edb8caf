-- ===== src/Crc/Tests.antt =====
-- The check values that the code asserts.
use rs_smarthome_nodes.Base.{◌≡◌, refl, [], ◌∷◌}
use rs_smarthome_nodes.Crc.{crc32, crc8_sensirion, crc8_dallas}

crc32_check :
    crc32 (0x31 ∷ 0x32 ∷ 0x33 ∷ 0x34 ∷ 0x35 ∷ 0x36 ∷ 0x37 ∷ 0x38 ∷ 0x39 ∷ []) ≡ 0xcbf4_3926
unfolding crc32
crc32_check = refl

crc8_check : crc8_sensirion (0xbe ∷ 0xef ∷ []) ≡ 0x92
unfolding crc8_sensirion
crc8_check = refl

dallas_check : crc8_dallas (0x91 ∷ 0x01 ∷ 0x4b ∷ 0x46 ∷ 0x7f ∷ 0xff ∷ 0x0c ∷ 0x10 ∷ []) ≡ 0x70
unfolding crc8_dallas
dallas_check = refl
