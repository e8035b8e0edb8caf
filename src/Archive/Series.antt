-- ===== src/Archive/Series.antt =====
-- The window and the buckets of a chart (timeseries/src/questdb/series.rs). Times are microseconds.
mod Tests
pub mod Window
pub mod Fetching
pub mod Blank
pub mod Sparklines
pub mod Overview
pub mod Buckets
pub mod Literals
use rs_smarthome_nodes.Base.{
  ℕ, zero, suc, ◌+◌, ◌*◌, ◌/◌, ◌%◌, Bool, true, ◌&&◌, ◌||◌, Option, none, some, List, [], ◌∷◌, ◌++◌,
  ◌==◌, ltb, leb, length, ◌>>=◌, if◌then◌else◌,
}
use rs_smarthome_nodes.Base.Bytes.{Bytes}
use rs_smarthome_nodes.Base.Int.{ℤ, pos, negsuc, ◌+ℤ◌, ◌-ℤ◌, sub_ℕ}
use rs_smarthome_nodes.Base.Words.{max_ℤ}
use rs_smarthome_nodes.Base.Text.{codes, within}
use rs_smarthome_nodes.Archive.Lines.{wrap_i64, show_i64}
use rs_smarthome_nodes.Archive.Rollup.{Tier, view, pick}

abbrev pub Step : Type 0
Step = ℕ × Bytes

abbrev pub thirty_days : Step
thirty_days = (2_592_000_000_000, codes "30d")

-- `LADDER` without its last step.
unfoldable pub lower_steps : List Step
lower_steps =
    (1_000_000, codes "1s")
    ∷ (5_000_000, codes "5s")
    ∷ (10_000_000, codes "10s")
    ∷ (30_000_000, codes "30s")
    ∷ (60_000_000, codes "1m")
    ∷ (120_000_000, codes "2m")
    ∷ (300_000_000, codes "5m")
    ∷ (600_000_000, codes "10m")
    ∷ (900_000_000, codes "15m")
    ∷ (1_800_000_000, codes "30m")
    ∷ (3_600_000_000, codes "1h")
    ∷ (7_200_000_000, codes "2h")
    ∷ (10_800_000_000, codes "3h")
    ∷ (21_600_000_000, codes "6h")
    ∷ (43_200_000_000, codes "12h")
    ∷ (86_400_000_000, codes "1d")
    ∷ (172_800_000_000, codes "2d")
    ∷ (604_800_000_000, codes "7d")
    ∷ []

-- The first step that is wide enough; the last one where none is.
unfoldable pub find_step : ℕ → List Step → Step
find_step wanted [] = thirty_days
find_step wanted (s ∷ ss) = if leb wanted (s.0) then s else find_step wanted ss

-- `.max(1)`, as a number.
abbrev pub at_least_one : ℤ → ℕ
at_least_one (pos zero) = 1
at_least_one (pos (suc n)) = suc n
at_least_one (negsuc n) = 1

unfoldable pub wanted_width : ℤ → ℤ → ℤ → ℕ
wanted_width from to points = at_least_one (wrap_i64 (to -ℤ from)) / at_least_one points

unfoldable pub choose_bucket : ℤ → ℤ → ℤ → Step
unfolding wanted_width
choose_bucket from to points = find_step (wanted_width from to points) lower_steps

-- `div_euclid(width)`, `* width` and `rem_euclid(width) == 0`, for a width above 0.
unfoldable pub div_euclid : ℤ → ℕ → ℤ
div_euclid (pos n) width = pos (n / width)
div_euclid (negsuc n) width = negsuc (n / width)

unfoldable pub times : ℤ → ℕ → ℤ
times (pos n) width = pos (n * width)
times (negsuc n) width = sub_ℕ 0 (suc n * width)

unfoldable pub divides : ℕ → ℤ → Bool
divides width (pos n) = n % width == 0
divides width (negsuc n) = suc n % width == 0

unfoldable pub floor_to : ℤ → ℕ → ℤ
unfolding div_euclid times
floor_to at width = wrap_i64 (times (div_euclid at width) width)

unfoldable pub ceil_to : ℤ → ℕ → ℤ
unfolding floor_to divides
ceil_to at width = wrap_i64 (floor_to at width +ℤ pos (if divides width at then 0 else width))

unfoldable pub snap : ℤ → ℤ → ℕ → ℤ × ℤ
unfolding floor_to ceil_to
snap from to width =
    let floor = floor_to from width in
    (floor, max_ℤ (ceil_to to width) (wrap_i64 (floor +ℤ pos width)))

abbrev pub is_alphanumeric : ℕ → Bool
is_alphanumeric c = within 48 57 c || within 65 90 c || within 97 122 c

-- `_`, `-`, `.` and `:` besides.
abbrev pub is_literal_char : ℕ → Bool
is_literal_char c = is_alphanumeric c || c == 95 || c == 45 || c == 46 || c == 58

unfoldable pub all_literal : Bytes → Bool
all_literal [] = true
all_literal (c ∷ cs) = is_literal_char c && all_literal cs

unfoldable pub checked_literal : Bytes → Option Bytes
unfolding all_literal
checked_literal raw =
    if length raw == 0 || ltb 120 (length raw)
    then none
    else if all_literal raw
    then some raw
    else none

abbrev pub table_of : Bytes → Option Tier → Bytes
table_of base none = base
table_of base (some t) = view t base

abbrev pub aggregates_of : Option Tier → Bytes
aggregates_of none = codes "min(value) lo, max(value) hi, avg(value) av"
aggregates_of (some t) = codes "min(lo) lo, max(hi) hi, sum(sv)/sum(n) av"

-- Whole microseconds in the statement.
abbrev pub window_text : ℤ → ℤ → Bytes
window_text from to =
    codes " AND timestamp >= cast("
    ++ (show_i64 from
        ++ (codes " AS timestamp) AND timestamp < cast("
            ++ (show_i64 to ++ codes " AS timestamp) SAMPLE BY ")))

unfoldable pub series_sql : Bytes → Option Tier → Bytes → Bytes → ℤ → ℤ → Bytes → Bytes
unfolding view
series_sql base tier node sensor from to bucket =
    codes "SELECT cast(timestamp AS long) t, lo, hi, av FROM (SELECT timestamp, "
    ++ (aggregates_of tier
        ++ (codes " FROM "
            ++ (table_of base tier
                ++ (codes " WHERE node = '"
                    ++ (node
                        ++ (codes "' AND sensor = '"
                            ++ (sensor
                                ++ (39
                                    ∷ (window_text from to
                                        ++ (bucket ++ codes " ALIGN TO CALENDAR)"))))))))))

pub record Request : Type 0 where
  pub node : Bytes
  pub sensor : Bytes
  pub from : ℤ
  pub to : ℤ
  pub points : ℤ

-- The statement that `fetch_series` asks first, if the names are accepted.
unfoldable pub first_sql : Bytes → List Bytes → Request → Option Bytes
first_sql base views r = checked_literal r.node >>= λ node. checked_literal r.sensor >>= λ sensor.
    (let (width, bucket) = choose_bucket r.from r.to r.points in
      let (from, to) = snap r.from r.to width in
      some (series_sql base (pick width views base) node sensor from to bucket))
