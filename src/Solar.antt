-- ===== src/Solar.antt =====
-- src/solar.rs: sunrise and sunset of the day, and whether it is night.
pub mod Night
mod Tests
use rs_smarthome_nodes.Base.{
  ℕ, ◌+◌, ◌-◌, ◌*◌, ◌/◌, ◌%◌, Bool, false, ◌&&◌, ◌||◌, List, [], ◌∷◌, length, get_or, ltb, leb,
  ◌==◌, if◌then◌else◌,
}

-- `TABLE`: sunrise and sunset, in minutes of the day, at 24 points of the year.
abbrev pub table : List (ℕ × ℕ)
table =
    (443, 935)
    ∷ (436, 954)
    ∷ (419, 978)
    ∷ (393, 1006)
    ∷ (364, 1031)
    ∷ (332, 1055)
    ∷ (300, 1079)
    ∷ (268, 1102)
    ∷ (238, 1127)
    ∷ (216, 1148)
    ∷ (201, 1166)
    ∷ (196, 1176)
    ∷ (202, 1177)
    ∷ (217, 1165)
    ∷ (236, 1145)
    ∷ (258, 1119)
    ∷ (280, 1088)
    ∷ (304, 1054)
    ∷ (327, 1021)
    ∷ (350, 990)
    ∷ (375, 962)
    ∷ (399, 940)
    ∷ (423, 926)
    ∷ (438, 924)
    ∷ []

abbrev pub day_min : ℕ
day_min = 1440

abbrev pub tropical_e4 : ℕ
tropical_e4 = 3_652_425

unfoldable pub day_of_year : ℕ → ℕ
day_of_year millis =
    let days = millis / 86_400_000 in
    let years = days * 10_000 / tropical_e4 in days - years * tropical_e4 / 10_000

unfoldable pub minute_of_day : ℕ → ℕ
minute_of_day millis = millis / 60_000 % day_min

-- On `u32`; `b - a` and `a - b` are taken only where they do not go below zero.
unfoldable pub lerp : ℕ → ℕ → ℕ → ℕ
lerp a b f = if leb a b then a + (b - a) * f / 16 else a - (a - b) * f / 16

unfoldable pub sun : ℕ → ℕ × ℕ
unfolding lerp
sun doy =
    let n = length table in
    let at = doy * n * 16 / 366 in
    let i = at / 16 % n in
    let j = (i + 1) % n in
    let f = at % 16 in
    let (r0, s0) = get_or table i (0, 0) in
    let (r1, s1) = get_or table j (0, 0) in (lerp r0 r1 f, lerp s0 s1 f)

unfoldable pub is_night : ℕ → ℕ → ℕ → Bool
is_night minute doy margin_min =
    let (sunrise, sunset) = sun doy in
    let margin = if ltb 180 margin_min then 180 else margin_min in
    let from = (sunset + margin) % day_min in
    let to = (sunrise + day_min - margin) % day_min in
    let m = minute % day_min in
    if from == to
    then false
    else if ltb from to
    then leb from m && ltb m to
    else leb from m || ltb m to
