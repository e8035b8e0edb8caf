-- ===== src/Solar/Night.antt =====
-- The bounds on the sun's times, and what `is_night` decides.
use rs_smarthome_nodes.Base.{
  ℕ, ◌+◌, ◌≤◌, ◌<◌, ◌≡◌, refl, ◌⊎◌, ◌↔◌, Bool, true, ◌&&◌, leb, arith, min,
}
use rs_smarthome_nodes.Base.Range.{all_below, all_below_sound}
use rs_smarthome_nodes.Solar.{day_min, day_of_year, minute_of_day, sun, is_night}

-- The day of the year lies between 0 and 366.
pub day_of_year-le : (millis : ℕ) → day_of_year millis ≤ 366
unfolding day_of_year
day_of_year-le millis = omega arith

pub minute_of_day-lt : (millis : ℕ) → minute_of_day millis < day_min
unfolding minute_of_day
minute_of_day-lt millis = omega arith

abbrev sun_in_bounds : ℕ → Bool
sun_in_bounds d =
    let (sunrise, sunset) = sun d in
    leb 196 sunrise && leb sunrise 443 && leb 924 sunset && leb sunset 1177

sun_table : all_below 367 sun_in_bounds ≡ true
unfolding all_below sun
sun_table = refl

pub record SunBounds (doy : ℕ) : Type 0 where
  pub rises_late : 196 ≤ (sun doy).0
  pub rises_early : (sun doy).0 ≤ 443
  pub sets_late : 924 ≤ (sun doy).1
  pub sets_early : (sun doy).1 ≤ 1177

pub sun_bounds : (doy : ℕ) → doy ≤ 366 → SunBounds doy
sun_bounds doy h = ground (arith, all_below_sound 367 sun_in_bounds doy sun_table (omega arith))

-- On every day up to 366, at every minute of a day and for every margin it is night exactly from the
-- margin (at most 180 minutes) after sunset to the margin before the next sunrise.
pub is_night_iff :
    (minute doy margin : ℕ)
    → doy ≤ 366
    → minute < day_min
    → (is_night minute doy margin ≡ true)
      ↔ (((sun doy).1 + min margin 180 ≤ minute) ⊎ (minute + min margin 180 < (sun doy).0))
unfolding is_night
is_night_iff minute doy margin hd hm = ground (arith, sun_bounds doy hd)
