-- ===== src/Lamp/Dark.antt =====
-- When the lamp is dark, and when it shows the whole breath.
use native.Mathlib.Nat.{mul-zero, zero-mul}
use rs_smarthome_nodes.Base.{
  ℕ, ◌+◌, ◌-◌, ◌*◌, ◌/◌, ◌≤◌, ◌<◌, ◌≡◌, refl, ◌⊎◌, Bool, true, false, min, arith, inl, inr,
}
use rs_smarthome_nodes.Battery
use rs_smarthome_nodes.Lamp.{
  Schedule, window, is_evening, slopes, twilight_permille, charge_permille, gate_permille, shaped,
  duty,
}

abbrev IsDark : ℕ → ℕ → ℕ → Bool → ℕ → Schedule → Type 0
IsDark minute doy cell_mv enabled brightness schedule =
    (enabled ≡ false)
    ⊎ ((is_evening minute doy schedule ≡ false)
        ⊎ ((Battery.percent cell_mv < 20) ⊎ (brightness ≡ 0)))

evening_zero :
    (minute doy : ℕ) (schedule : Schedule)
    → is_evening minute doy schedule ≡ false
    → twilight_permille minute doy schedule ≡ 0
unfolding is_evening twilight_permille slopes
evening_zero minute doy schedule h = ground arith

charge_zero : (cell_mv : ℕ) → Battery.percent cell_mv < 20 → charge_permille cell_mv ≡ 0
unfolding charge_permille
charge_zero cell_mv h = ground arith

scaled_zero : (t c br : ℕ) → (t ≡ 0) ⊎ ((c ≡ 0) ⊎ (br ≡ 0)) → t * c / 1000 * br / 255 ≡ 0
scaled_zero t c br (inl e) = rw (e, zero-mul c) (omega arith)
scaled_zero t c br (inr (inl e)) = rw (e, mul-zero t) (omega arith)
scaled_zero t c br (inr (inr e)) = rw e (omega arith)

gate_zero :
    (minute doy cell_mv : ℕ) (enabled : Bool) (brightness : ℕ) (schedule : Schedule)
    → IsDark minute doy cell_mv enabled brightness schedule
    → gate_permille minute doy cell_mv enabled brightness schedule ≡ 0
unfolding gate_permille
gate_zero minute doy cell_mv false brightness schedule h = refl
gate_zero minute doy cell_mv true brightness schedule (inl e) = cc
gate_zero minute doy cell_mv true brightness schedule (inr (inl e)) =
    scaled_zero _ _ brightness (inl (evening_zero minute doy schedule e))
gate_zero minute doy cell_mv true brightness schedule (inr (inr (inl e))) =
    scaled_zero _ _ brightness (inr (inl (charge_zero cell_mv e)))
gate_zero minute doy cell_mv true brightness schedule (inr (inr (inr e))) =
    scaled_zero _ _ brightness (inr (inr e))

-- The lamp is dark at every step of the breath when it is switched off, outside the evening's
-- window, with less than 20 percent in the cell, or at brightness 0.
pub duty_dark :
    (step minute doy cell_mv : ℕ) (enabled : Bool) (brightness : ℕ) (schedule : Schedule)
    → (enabled ≡ false)
      ⊎ ((is_evening minute doy schedule ≡ false)
          ⊎ ((Battery.percent cell_mv < 20) ⊎ (brightness ≡ 0)))
    → duty step minute doy cell_mv enabled brightness schedule ≡ 0
unfolding duty shaped
duty_dark step minute doy cell_mv enabled brightness schedule h =
    rw (gate_zero minute doy cell_mv enabled brightness schedule h)

slopes_shape :
    (minute start cutoff : ℕ)
    → start + 50 ≤ cutoff
    → slopes minute start cutoff
      ≡ min (min ((minute - start) * 25) 1000) (min ((cutoff - minute) * 100) 1000)
unfolding slopes
slopes_shape minute start cutoff h = ground arith

-- In a window of at least 50 minutes the light rises over 40 minutes and fades over the last 10: at
-- every minute, outside the window too, the factor is the smallest of 25 permille for each minute
-- since the start, 100 permille for each minute left, and 1000.
pub twilight_shape :
    (minute doy : ℕ) (schedule : Schedule)
    → (window doy schedule).0 + 50 ≤ (window doy schedule).1
    → twilight_permille minute doy schedule
      ≡ min
          (min ((minute - (window doy schedule).0) * 25) 1000)
          (min (((window doy schedule).1 - minute) * 100) 1000)
unfolding twilight_permille
twilight_shape minute doy schedule h = slopes_shape minute _ _ h
