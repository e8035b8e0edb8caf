-- ===== src/Archive/Series/Tests.antt =====
-- A day of one sensor in 400 points, and a meter of three weeks.
use rs_smarthome_nodes.Base.{ℕ, ◌≡◌, refl, ◌%◌, ◌⊎◌, none, some, List, [], ◌∷◌, ◌++◌, arith}
use rs_smarthome_nodes.Base.Bytes.{Bytes}
use rs_smarthome_nodes.Base.Int.{ℤ, pos, ◌+ℤ◌, ◌-ℤ◌, ◌≤ℤ◌, int_laws}
use rs_smarthome_nodes.Base.Text.{codes, bytes_eq}
use rs_smarthome_nodes.Archive.Periods.{Row, buckets}
use rs_smarthome_nodes.Archive.Periods.Telescoped.{total, value_of, reading_after, total-buckets}
use rs_smarthome_nodes.Archive.Rollup.{minutes, contains_text, find_tier, fits, view, pick}
use rs_smarthome_nodes.Archive.Series.{find_step, lower_steps, wanted_width, choose_bucket, snap}
use rs_smarthome_nodes.Archive.Series.Buckets.{pick-divides}
use rs_smarthome_nodes.Archive.Series.Window.{IsEdge, snap-IsWhole}
use rs_smarthome_nodes.Archive.Tests.{toy_floats, value, pattern_of, value-pattern_of}

abbrev midnight : ℤ
midnight = pos 1_800_000_000_000_000

abbrev next_day : ℤ
next_day = pos 1_800_086_400_000_001

abbrev views : List Bytes
views = codes "readings_1m" ∷ codes "readings_1h" ∷ []

snap-IsWhole_example :
    IsEdge 300_000_000 (snap midnight next_day 300_000_000).0
    × IsEdge 300_000_000 (snap midnight next_day 300_000_000).1
    × ((snap midnight next_day 300_000_000).0 ≤ℤ midnight)
    × (midnight +ℤ pos 1 ≤ℤ (snap midnight next_day 300_000_000).0 +ℤ pos 300_000_000)
    × (next_day ≤ℤ (snap midnight next_day 300_000_000).1)
    × ((snap midnight next_day 300_000_000).0 +ℤ pos 300_000_000
        ≤ℤ (snap midnight next_day 300_000_000).1)
    × (((snap midnight next_day 300_000_000).1 ≤ℤ next_day +ℤ pos 300_000_000)
        ⊎ ((snap midnight next_day 300_000_000).1
            ≡ (snap midnight next_day 300_000_000).0 +ℤ pos 300_000_000))
snap-IsWhole_example =
    snap-IsWhole midnight next_day 300_000_000 (omega arith) (omega int_laws, omega int_laws)
      (omega int_laws, omega int_laws)

pick-divides_example : (choose_bucket midnight next_day (pos 400)).0 % minutes.grain ≡ 0
unfolding choose_bucket find_step lower_steps wanted_width pick find_tier fits contains_text view
    bytes_eq ◌-ℤ◌
pick-divides_example = pick-divides midnight next_day (pos 400) views (codes "readings") refl

abbrev week : ℕ → Row
week n = record {
  t = pos 0;
  lo = pattern_of (pos n);
  hi = pattern_of (pos n);
  av = pattern_of (pos n);
  last = some (pattern_of (pos n));
}

total-buckets_example :
    total toy_floats value (buckets toy_floats ((week 3 ∷ []) ++ (week 5 ∷ week 9 ∷ [])) 2)
    ≡ value_of toy_floats value (
        reading_after toy_floats value
          (reading_after toy_floats value none (week 3 ∷ []))
          (week 5 ∷ week 9 ∷ []))
      -ℤ value_of toy_floats value (reading_after toy_floats value none (week 3 ∷ []))
unfolding reading_after
total-buckets_example =
    total-buckets toy_floats value (week 3 ∷ []) (week 5 ∷ week 9 ∷ []) 2 refl tt (tt, (tt, tt))
      (value-pattern_of _, (value-pattern_of _, tt))
