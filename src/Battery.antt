-- ===== src/Battery.antt =====
-- src/battery.rs: the charge of the cell from its voltage, and the parking of an empty board.
-- The values are `u32`; every product below stays under 2 ^ 32 for a cell below 40,000 mV.
pub mod Curve
pub mod Parking
mod Tests
use rs_smarthome_nodes.Base.{
  ℕ, ◌+◌, ◌-◌, ◌*◌, ◌/◌, Bool, false, List, [], ◌∷◌, ltb, leb, if◌then◌else◌,
}

-- `CURVE`: voltage in millivolts and charge in percent.
abbrev pub curve : List (ℕ × ℕ)
curve =
    (3270, 0)
    ∷ (3610, 5)
    ∷ (3690, 10)
    ∷ (3710, 15)
    ∷ (3730, 20)
    ∷ (3750, 25)
    ∷ (3770, 30)
    ∷ (3790, 35)
    ∷ (3800, 40)
    ∷ (3820, 45)
    ∷ (3840, 50)
    ∷ (3850, 55)
    ∷ (3870, 60)
    ∷ (3910, 65)
    ∷ (3950, 70)
    ∷ (3980, 75)
    ∷ (4020, 80)
    ∷ (4080, 85)
    ∷ (4110, 90)
    ∷ (4150, 95)
    ∷ (4200, 100)
    ∷ []

-- The `while` loop over the segments; `lo` is `CURVE[i - 1]`, and past the end it is the last point.
unfoldable pub segment : ℕ → ℕ × ℕ → List (ℕ × ℕ) → ℕ
segment cell_mv (mv_lo, pct_lo) [] = pct_lo
segment cell_mv (mv_lo, pct_lo) ((mv_hi, pct_hi) ∷ rest) =
    let later = segment cell_mv (mv_hi, pct_hi) rest in
    let span_mv = mv_hi - mv_lo in
    let span_pct = pct_hi - pct_lo in
    if leb cell_mv mv_hi
    then pct_lo + ((cell_mv - mv_lo) * span_pct + span_mv / 2) / span_mv
    else later

last_point : ℕ × ℕ → List (ℕ × ℕ) → ℕ × ℕ
last_point p [] = p
last_point p (q ∷ rest) = last_point q rest

percent_of : ℕ → List (ℕ × ℕ) → ℕ
percent_of cell_mv [] = 0
percent_of cell_mv (first ∷ rest) =
    let last = last_point first rest in
    let inside = segment cell_mv first rest in
    if leb cell_mv first.0 then first.1 else if leb last.0 cell_mv then last.1 else inside

unfoldable pub percent : ℕ → ℕ
unfolding percent_of segment last_point
percent cell_mv = percent_of cell_mv curve

abbrev pub r_top_kohm : ℕ
r_top_kohm = 100

abbrev pub r_bottom_kohm : ℕ
r_bottom_kohm = 100

unfoldable pub cell_millivolts : ℕ → ℕ
cell_millivolts pin_mv = pin_mv * (r_top_kohm + r_bottom_kohm) / r_bottom_kohm

abbrev pub low_cell_mv : ℕ
low_cell_mv = 3000

abbrev pub resume_cell_mv : ℕ
resume_cell_mv = 3300

abbrev pub min_plausible_cell_mv : ℕ
min_plausible_cell_mv = 2000

unfoldable pub should_park : ℕ → Bool → Bool
should_park cell_mv parked =
    if ltb cell_mv min_plausible_cell_mv
    then false
    else ltb cell_mv (if parked then resume_cell_mv else low_cell_mv)
