-- ===== src/Lamp.antt =====
-- src/lamp.rs: how bright the lamp is, from the time, the season, the cell and the settings.
-- The values are `u32`; `minute_utc` is a minute of the day and `doy` a day of the year, so no sum
-- or product below reaches 2 ^ 32 (Lamp/Bounds).
pub mod Breath
pub mod Bounds
pub mod Dark
mod Tests
use rs_smarthome_nodes.Base.{
  ℕ, ◌+◌, ◌-◌, ◌*◌, ◌/◌, ◌%◌, Bool, not, ◌&&◌, ◌||◌, min, length, get_or, ltb, leb, ◌==◌,
  if◌then◌else◌,
}
use rs_smarthome_nodes.Battery
use rs_smarthome_nodes.Lamp.Breath.{breath}
use rs_smarthome_nodes.Solar

abbrev pub full_scale : ℕ
full_scale = 4095

abbrev pub max_duty_pct : ℕ
max_duty_pct = 70

abbrev pub max_duty : ℕ
max_duty = full_scale * max_duty_pct / 100

abbrev pub ramp_min : ℕ
ramp_min = 40

abbrev pub fade_out_min : ℕ
fade_out_min = 10

abbrev pub dark_below_pct : ℕ
dark_below_pct = 20

abbrev pub full_from_pct : ℕ
full_from_pct = 90

pub record Schedule : Type 0 where
  pub start_after_sunset_min : ℕ
  pub cutoff_minute_utc : ℕ

-- `Schedule::DEFAULT`
abbrev pub default_schedule : Schedule
default_schedule = record { start_after_sunset_min = 45; cutoff_minute_utc = 1230 }

unfoldable pub window : ℕ → Schedule → ℕ × ℕ
window doy schedule =
    ((Solar.sun doy).1 + schedule.start_after_sunset_min, schedule.cutoff_minute_utc)

unfoldable pub is_evening : ℕ → ℕ → Schedule → Bool
is_evening minute_utc doy schedule =
    let (start, cutoff) = window doy schedule in leb start minute_utc && ltb minute_utc cutoff

-- The early return and the two slopes, on the two ends of the window.
unfoldable pub slopes : ℕ → ℕ → ℕ → ℕ
slopes minute_utc start cutoff =
    let full = start + ramp_min in
    let fade = cutoff - fade_out_min in
    let ramp = if ltb minute_utc full then (minute_utc - start) * 1000 / ramp_min else 1000 in
    let tail = if leb fade minute_utc then (cutoff - minute_utc) * 1000 / fade_out_min else 1000 in
    if leb cutoff start || (ltb minute_utc start || leb cutoff minute_utc) then 0 else min ramp tail

unfoldable pub twilight_permille : ℕ → ℕ → Schedule → ℕ
twilight_permille minute_utc doy schedule =
    let (start, cutoff) = window doy schedule in slopes minute_utc start cutoff

unfoldable pub charge_permille : ℕ → ℕ
charge_permille cell_mv =
    let soc = Battery.percent cell_mv in
    if ltb soc dark_below_pct
    then 0
    else if leb full_from_pct soc
    then 1000
    else (soc - dark_below_pct) * 1000 / (full_from_pct - dark_below_pct)

unfoldable pub gate_permille : ℕ → ℕ → ℕ → Bool → ℕ → Schedule → ℕ
gate_permille minute_utc doy cell_mv enabled brightness schedule =
    if not enabled
    then 0
    else twilight_permille minute_utc doy schedule
      * charge_permille cell_mv
      / 1000
      * brightness
      / 255

unfoldable pub shaped : ℕ → ℕ → ℕ
shaped step gate_permille =
    let shape = get_or breath (step % length breath) 0 in
    if gate_permille == 0
    then 0
    else min ((shape * max_duty_pct * gate_permille + 50_000) / 100_000) max_duty

unfoldable pub duty : ℕ → ℕ → ℕ → ℕ → Bool → ℕ → Schedule → ℕ
duty step minute_utc doy cell_mv enabled brightness schedule =
    shaped step (gate_permille minute_utc doy cell_mv enabled brightness schedule)
