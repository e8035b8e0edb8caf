-- ===== src/Presence.antt =====
-- src/presence.rs: what a reading of the load cell says about the bird, and the window of readings
-- that a visit is weighed by. Readings and differences are `i32`.
pub mod Deciding
pub mod Window
pub mod Sorting
pub mod Median
pub mod Rounds
mod Tests
use rs_smarthome_nodes.Base.{
  ℕ, ◌+◌, ◌-◌, ◌/◌, ◌%◌, Bool, true, false, List, [], ◌∷◌, Option, none, some, get_or, set, take,
  replicate, ltb, leb, ◌==◌, if◌then◌else◌,
}
use rs_smarthome_nodes.Base.Int.{ℤ, pos, ◌+ℤ◌, ◌-ℤ◌, ltb_ℤ}
use rs_smarthome_nodes.Base.Words.{sat_i32, wrap_i32, max_ℤ, min_ℤ, shr_ℤ, quot_ℤ, abs_ℕ}
use rs_smarthome_nodes.Presence.Sorting.{sort}

abbrev pub baseline_drift_shift : ℕ
baseline_drift_shift = 4

abbrev pub drift_band_divisor : ℕ
drift_band_divisor = 4

unfoldable pub drift_band : ℤ → ℤ
drift_band threshold_ticks = max_ℤ (quot_ℤ threshold_ticks drift_band_divisor) (pos 1)

abbrev pub min_publish_gap_secs : ℕ
min_publish_gap_secs = 60

abbrev pub stuck_after_secs : ℕ
stuck_after_secs = 600

-- `secs.div_ceil(round)`
unfoldable pub rounds_for : ℕ → ℕ → ℕ
rounds_for secs round_secs =
    let round = if round_secs == 0 then 1 else round_secs in
    let rounds = (secs + round - 1) / round in if rounds == 0 then 1 else rounds

unfoldable pub may_publish : ℕ → ℕ → Bool
may_publish rounds_since_publish gap_rounds = leb gap_rounds rounds_since_publish

abbrev pub min_counted_visit_millis : ℕ
min_counted_visit_millis = 1_000

unfoldable pub counts_as_visit : ℕ → Bool
counts_as_visit millis = leb min_counted_visit_millis millis

pub data Decision : Type 0 where
  arrived : ℤ → Decision
  staying : ℤ → Decision
  departed : ℤ → Decision
  quiet : ℤ → Decision
  unexplained : ℤ → Decision

-- `saturating_abs` of an `i32`; its value is at most 2 ^ 31 - 1.
abbrev pub saturating_abs : ℤ → ℤ
saturating_abs z = sat_i32 (pos (abs_ℕ z))

-- `delta >= threshold_ticks` is `!(delta < threshold_ticks)`.
unfoldable pub decide : ℤ → ℤ → Bool → ℤ → Decision
decide raw baseline was_present threshold_ticks =
    let delta = sat_i32 (raw -ℤ baseline) in
    if ltb_ℤ delta threshold_ticks
    then (if was_present
        then departed delta
        else if ltb_ℤ (drift_band threshold_ticks) (saturating_abs delta)
        then unexplained delta
        else quiet (sat_i32 (baseline +ℤ shr_ℤ delta baseline_drift_shift)))
    else if was_present
    then staying delta
    else arrived delta

abbrev pub window_size : ℕ
window_size = 32

-- The ring of the last readings: `buf` has `WINDOW` places.
pub record Ring : Type 0 where
  pub buf : List ℤ
  pub len : ℕ
  pub next : ℕ

unfoldable pub new : Ring
new = record { buf = replicate window_size (pos 0); len = 0; next = 0 }

unfoldable pub push : Ring → ℤ → Ring
push w raw = record w {
  buf = set w.buf w.next raw;
  next = (w.next + 1) % window_size;
  len = if ltb w.len window_size then w.len + 1 else w.len;
}

unfoldable pub is_empty : Ring → Bool
is_empty w = w.len == 0

-- The middle of a sorted list; `-`, `/` and `+` are those of `i32`.
unfoldable pub middle : List ℤ → ℕ → ℤ
middle sorted len =
    let mid = len / 2 in
    let hi = get_or sorted mid (pos 0) in
    let lo = get_or sorted (mid - 1) (pos 0) in
    if len % 2 == 1 then hi else wrap_i32 (lo +ℤ quot_ℤ (wrap_i32 (hi -ℤ lo)) 2)

unfoldable pub median : Ring → Option ℤ
median w = if w.len == 0 then none else some (middle (sort (take w.len w.buf)) w.len)

abbrev pub tare_max_spread : ℤ
tare_max_spread = pos 2000

-- The loop of `tare_spread_ok`, with `lo` and `hi` so far.
unfoldable pub spread_from : ℤ → ℤ → List ℤ → ℤ × ℤ
spread_from lo hi [] = (lo, hi)
spread_from lo hi (v ∷ rest) = spread_from (min_ℤ lo v) (max_ℤ hi v) rest

unfoldable pub tare_spread_ok : List ℤ → Bool
tare_spread_ok [] = false
tare_spread_ok (first ∷ rest) =
    let (lo, hi) = spread_from first first (first ∷ rest) in
    if ltb_ℤ tare_max_spread (sat_i32 (hi -ℤ lo)) then false else true
