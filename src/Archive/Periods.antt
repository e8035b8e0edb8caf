-- ===== src/Archive/Periods.antt =====
-- Consumption by day, week and month (timeseries/src/questdb/periods.rs). Values are bit patterns of
-- `f64`.
pub mod Telescoped
pub mod Fetching
pub mod Sources
pub mod Ordered
pub mod Literals
pub mod Harmless
use rs_smarthome_nodes.Base.{
  ℕ, ◌+◌, ◌-◌, ◌*◌, Bool, true, false, ◌||◌, Option, none, some, List, [], ◌∷◌, map, length, drop,
  if◌then◌else◌,
}
use rs_smarthome_nodes.Base.Bytes.{Bytes}
use rs_smarthome_nodes.Base.Double.{Float64}
use rs_smarthome_nodes.Base.Int.{ℤ, pos, ◌-ℤ◌}
use rs_smarthome_nodes.Base.Text.{codes, bytes_eq}
use rs_smarthome_nodes.Archive.Rollup.{Tier, view, hours, hour, day, contains_text}

pub data Period : Type 0 where
  daily : Period
  weekly : Period
  monthly : Period

unfoldable pub sample : Period → Bytes
sample daily = codes "1d"
sample weekly = codes "1w"
sample monthly = codes "1M"

unfoldable pub longest : Period → ℕ
longest daily = day + hour
longest weekly = 7 * day + hour
longest monthly = 31 * day + hour

unfoldable pub default_count : Period → ℕ
default_count daily = 14
default_count weekly = 12
default_count monthly = 12

unfoldable pub is_meter : Bytes → Bool
is_meter state_class =
    bytes_eq state_class (codes "total_increasing") || bytes_eq state_class (codes "total")

-- The hourly view, if there is one: what `fetch_rows` reads first.
unfoldable pub hourly : List Bytes → Bytes → Option Tier
unfolding contains_text view
hourly views base = if contains_text views (view hours base) then some hours else none

unfoldable pub read_from : ℤ → ℕ → Period → ℤ
unfolding longest
read_from now count period = now -ℤ pos ((count + 2) * longest period)

-- One period of a channel as the database has it; `last` is only asked of a meter.
pub record Row : Type 0 where
  pub t : ℤ
  pub lo : ℕ
  pub hi : ℕ
  pub av : ℕ
  pub last : Option ℕ

pub record Bucket : Type 0 where
  pub t : ℤ
  pub lo : ℕ
  pub hi : ℕ
  pub av : ℕ
  pub delta : Option ℕ
  pub approx : Bool

-- Every row with the last reading of the row before it.
unfoldable pub with_previous : Option ℕ → List Row → List (Option ℕ × Row)
with_previous previous [] = []
with_previous previous (r ∷ rows) = (previous, r) ∷ with_previous r.last rows

unfoldable pub consumption : Float64 → ℕ → Option ℕ → Option ℕ → Option ℕ × Bool
consumption f lo none previous = (none, false)
consumption f lo (some end) (some before) = (some (f.sub end before), f.less end before)
consumption f lo (some end) none = (some (f.sub end lo), true)

unfoldable pub bucket_of : Float64 → Option ℕ × Row → Bucket
unfolding consumption
bucket_of f (previous, r) =
    let (delta, approx) = consumption f r.lo r.last previous in
    record { t = r.t; lo = r.lo; hi = r.hi; av = r.av; delta = delta; approx = approx }

unfoldable pub buckets : Float64 → List Row → ℕ → List Bucket
unfolding with_previous bucket_of
buckets f rows keep = map (bucket_of f) (drop (length rows - keep) (with_previous none rows))
