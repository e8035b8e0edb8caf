-- ===== src/Crc/Bounds.antt =====
-- The checksums fit their words, and what an error in one byte does to them.
use rs_smarthome_nodes.Base.{
  ℕ, zero, suc, ◌+◌, ◌<◌, ◌≡◌, refl, Bool, true, ◌&&◌, ltb, ◌==◌, bit_xor, arith, [], ◌∷◌, ◌++◌, ap,
  if◌then◌else◌, ◌/◌, ◌%◌,
}
use rs_smarthome_nodes.Base.Range.{all_below, all_below_sound}
use rs_smarthome_nodes.Base.Bytes.{Bytes, AreBytes}
use rs_smarthome_nodes.Base.Words.{u32_mod}
use rs_smarthome_nodes.Crc.{
  crc32, entry_crc, crc8_sensirion_bits, crc8_sensirion_loop, crc8_sensirion,
}

pub crc32-lt : (bytes : Bytes) → crc32 bytes < u32_mod
unfolding crc32
crc32-lt bytes = omega arith

pub entry_crc-lt : (seq : ℕ) → entry_crc seq < u32_mod
unfolding entry_crc
entry_crc-lt seq = omega arith

-- The inverse of one turn of the inner loop: the polynomial is odd, so the low bit says whether it
-- was added.
sensirion_back : ℕ → ℕ
sensirion_back y = if y % 2 == 1 then bit_xor y 0x31 / 2 + 128 else y / 2

sensirion_back_bits : ℕ → ℕ → ℕ
sensirion_back_bits zero y = y
sensirion_back_bits (suc bit) y = sensirion_back_bits bit (sensirion_back y)

abbrev sensirion_row : ℕ → Bool
sensirion_row x =
    sensirion_back_bits 8 (crc8_sensirion_bits 8 x) == x && ltb (crc8_sensirion_bits 8 x) 256

sensirion_table : all_below 256 sensirion_row ≡ true
unfolding all_below sensirion_back_bits sensirion_back crc8_sensirion
sensirion_table = refl

-- The exclusive or of two bytes is a byte, and gives either back from the other.
abbrev xor_row : ℕ → ℕ → Bool
xor_row c x = bit_xor c (bit_xor c x) == x && bit_xor (bit_xor c x) x == c && ltb (bit_xor c x) 256

xor_table : all_below 256 (λ c. all_below 256 (xor_row c)) ≡ true
unfolding all_below
xor_table = refl

pub record XorByte (c x : ℕ) : Type 0 where
  pub cancel_left : bit_xor c (bit_xor c x) ≡ x
  pub cancel_right : bit_xor (bit_xor c x) x ≡ c
  pub is_byte : bit_xor c x < 256

pub xor_byte : (c x : ℕ) → c < 256 → x < 256 → XorByte c x
xor_byte c x hc hx =
    let row = all_below_sound 256 (λ k. all_below 256 (xor_row k)) c xor_table hc in
    ground (arith, all_below_sound 256 (xor_row c) x row hx)

sensirion_round :
    (x : ℕ)
    → x < 256
    → (sensirion_back_bits 8 (crc8_sensirion_bits 8 x) ≡ x) × (crc8_sensirion_bits 8 x < 256)
sensirion_round x h = ground (arith, all_below_sound 256 sensirion_row x sensirion_table h)

sensirion_bits_inj :
    (x y : ℕ) → x < 256 → y < 256 → crc8_sensirion_bits 8 x ≡ crc8_sensirion_bits 8 y → x ≡ y
sensirion_bits_inj x y hx hy e =
    cc (ap (sensirion_back_bits 8) e, (sensirion_round x hx).0, (sensirion_round y hy).0)

-- Over the same bytes, two registers that end equal were equal.
sensirion_loop_inj :
    (rest : Bytes) (c d : ℕ)
    → AreBytes rest
    → c < 256
    → d < 256
    → crc8_sensirion_loop c rest ≡ crc8_sensirion_loop d rest
    → c ≡ d
unfolding crc8_sensirion_loop
sensirion_loop_inj [] c d bs hc hd e = e
sensirion_loop_inj (x ∷ rest) c d (hx, bs) hc hd e =
    let p = xor_byte c x hc hx in
    let q = xor_byte d x hd hx in
    let after =
      sensirion_loop_inj rest _ _ bs (sensirion_round _ p.is_byte).1 (sensirion_round _ q.is_byte).1
        e in
    let mixed = sensirion_bits_inj _ _ p.is_byte q.is_byte after in
    cc (ap (λ (t : ℕ). bit_xor t x) mixed, p.cancel_right, q.cancel_right)

sensirion_loop_detects :
    (before rest : Bytes) (c x y : ℕ)
    → AreBytes before
    → AreBytes rest
    → c < 256
    → x < 256
    → y < 256
    → crc8_sensirion_loop c (before ++ (x ∷ rest)) ≡ crc8_sensirion_loop c (before ++ (y ∷ rest))
    → x ≡ y
unfolding crc8_sensirion_loop
sensirion_loop_detects [] rest c x y ba br hc hx hy e =
    let p = xor_byte c x hc hx in
    let q = xor_byte c y hc hy in
    let after =
      sensirion_loop_inj rest _ _ br (sensirion_round _ p.is_byte).1 (sensirion_round _ q.is_byte).1
        e in
    let mixed = sensirion_bits_inj _ _ p.is_byte q.is_byte after in
    cc (ap (bit_xor c) mixed, p.cancel_left, q.cancel_left)
sensirion_loop_detects (b ∷ before) rest c x y (hb, ba) br hc hx hy e =
    sensirion_loop_detects before rest _ x y ba br
      (sensirion_round _ (xor_byte c b hc hb).is_byte).1 hx hy e

-- Between messages of bytes that differ in at most one byte, wherever it stands, Sensirion's checksum
-- is the same only if that byte is the same.
pub crc8_sensirion_detects :
    (before rest : Bytes) (x y : ℕ)
    → AreBytes before
    → AreBytes rest
    → x < 256
    → y < 256
    → crc8_sensirion (before ++ (x ∷ rest)) ≡ crc8_sensirion (before ++ (y ∷ rest))
    → x ≡ y
unfolding crc8_sensirion
crc8_sensirion_detects before rest x y ba br hx hy e =
    sensirion_loop_detects before rest 255 x y ba br (omega arith) hx hy e
