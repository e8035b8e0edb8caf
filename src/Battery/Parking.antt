-- ===== src/Battery/Parking.antt =====
-- Parking with hysteresis, over the readings of successive wake-ups.
use rs_smarthome_nodes.Base.{
  ℕ, ◌≤◌, ◌<◌, ◌≡◌, ◌⊎◌, ◌↔◌, Bool, true, List, [], ◌∷◌, arith, refl, All,
}
use rs_smarthome_nodes.Battery.{should_park, low_cell_mv, resume_cell_mv, min_plausible_cell_mv}

-- The flag that is kept between two wake-ups, after a list of readings.
unfoldable pub park_over : Bool → List ℕ → Bool
park_over parked [] = parked
park_over parked (mv ∷ rest) = park_over (should_park mv parked) rest

-- A reading under the floor of a plausible cell always unparks; otherwise a board parks exactly
-- below `LOW_CELL_MV`, and a parked one stays so exactly below `RESUME_CELL_MV`.
pub should_park_iff :
    (mv : ℕ) (parked : Bool)
    → (should_park mv parked ≡ true) ↔ (
        (min_plausible_cell_mv ≤ mv)
        × ((mv < low_cell_mv) ⊎ ((parked ≡ true) × (mv < resume_cell_mv))))
unfolding should_park
should_park_iff mv parked = ground arith

-- Hysteresis: while every reading lies between the two thresholds the board keeps the state it is
-- in, however the readings wander.
pub park_over_band :
    (parked : Bool) (readings : List ℕ)
    → All (λ mv. (low_cell_mv ≤ mv) × (mv < resume_cell_mv)) readings
    → park_over parked readings ≡ parked
unfolding park_over should_park
park_over_band parked [] h = refl
park_over_band parked (mv ∷ rest) (h, hs) = ground (arith, park_over_band parked rest hs)
