-- ===== src/Lamp/Bounds.antt =====
-- Every factor of the duty is a permille, the duty never passes its cap, and no step of the
-- computation leaves `u32`.
use rs_smarthome_nodes.Base.{
  ℕ, ◌+◌, ◌*◌, ◌/◌, ◌%◌, ◌≤◌, ◌<◌, ◌≡◌, refl, Bool, true, false, length, get_or, leb, arith,
}
use rs_smarthome_nodes.Base.Range.{all_below, all_below_sound}
use rs_smarthome_nodes.Battery.Curve.{percent_mono}
use rs_smarthome_nodes.Lamp.Breath.{breath}
use rs_smarthome_nodes.Lamp.{
  Schedule, slopes, twilight_permille, charge_permille, gate_permille, shaped, full_scale, max_duty,
}

pub slopes-le : (minute start cutoff : ℕ) → slopes minute start cutoff ≤ 1000
unfolding slopes
slopes-le minute start cutoff = ground arith

pub twilight_permille-le :
    (minute doy : ℕ) (schedule : Schedule) → twilight_permille minute doy schedule ≤ 1000
unfolding twilight_permille
twilight_permille-le minute doy schedule = slopes-le minute _ _

pub charge_permille-le : (cell_mv : ℕ) → charge_permille cell_mv ≤ 1000
unfolding charge_permille
charge_permille-le cell_mv = ground arith

-- A fuller cell never makes the lamp darker.
pub charge_permille_mono : (a b : ℕ) → a ≤ b → charge_permille a ≤ charge_permille b
unfolding charge_permille
charge_permille_mono a b h = ground (arith, percent_mono a b h)

scaled-le : (t c br : ℕ) → t ≤ 1000 → c ≤ 1000 → br ≤ 255 → t * c / 1000 * br / 255 ≤ 1000
scaled-le t c br ht hc hb =
    let p : t * c ≤ 1000 * 1000 = grind arith in
    let q : t * c / 1000 ≤ 1000 = omega arith in
    let r : t * c / 1000 * br ≤ 1000 * 255 = grind arith in omega arith

-- The gate is a permille for every time, day, cell, switch and brightness below 256.
pub gate_permille-le :
    (minute doy cell_mv : ℕ) (enabled : Bool) (brightness : ℕ) (schedule : Schedule)
    → brightness ≤ 255
    → gate_permille minute doy cell_mv enabled brightness schedule ≤ 1000
unfolding gate_permille
gate_permille-le minute doy cell_mv false brightness schedule h = omega arith
gate_permille-le minute doy cell_mv true brightness schedule h =
    scaled-le _ _ brightness (twilight_permille-le minute doy schedule) (charge_permille-le cell_mv)
      h

breath_table : all_below 256 (λ k. leb (get_or breath k 0) 4095) ≡ true
unfolding all_below breath
breath_table = refl

breath-le : (step : ℕ) → get_or breath (step % length breath) 0 ≤ full_scale
unfolding breath
breath-le step = ground (
  arith,
  all_below_sound 256 (λ k. leb (get_or breath k 0) 4095) (step % 256) breath_table (omega arith),
)

product-le : (shape gate : ℕ) → shape ≤ 4095 → gate ≤ 1000 → shape * 70 * gate ≤ 4095 * 70 * 1000
product-le shape gate p q = let r : shape * 70 ≤ 4095 * 70 = omega arith in grind arith

-- Under a gate of at most 1000 the duty never passes `MAX_DUTY`, and the product under it fits `u32`.
pub shaped-le :
    (step gate : ℕ)
    → gate ≤ 1000
    → (shaped step gate ≤ max_duty)
      × (get_or breath (step % length breath) 0 * 70 * gate + 50_000 < 0x1_0000_0000)
unfolding shaped
shaped-le step gate h =
    let p : get_or breath (step % length breath) 0 * 70 * gate ≤ 4095 * 70 * 1000 =
      product-le _ gate (breath-le step) h in
    (ground arith, omega (arith, p))
