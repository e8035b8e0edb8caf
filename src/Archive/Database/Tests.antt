-- ===== src/Archive/Database/Tests.antt =====
-- A database that answers what it is asked with the same rows, and a statement with a `+`.
use rs_smarthome_nodes.Base.{ℕ, ◌≡◌, refl, Option, none, some, List, [], ◌∷◌, arith, All}
use rs_smarthome_nodes.Base.Bytes.{Bytes}
use rs_smarthome_nodes.Base.Int.{ℤ, pos, ◌+ℤ◌, ◌-ℤ◌}
use rs_smarthome_nodes.Base.Keyed.{get, pair_key}
use rs_smarthome_nodes.Base.Text.{codes, bytes_eq, lacks-Lacks}
use rs_smarthome_nodes.Archive.Database.{Dataset, percent_encode, position, as_f64, as_i64}
use rs_smarthome_nodes.Archive.Database.Encoded.{plain, decoded, decoded-percent_encode}
use rs_smarthome_nodes.Archive.Database.Quoted.{IsQuoted}
use rs_smarthome_nodes.Archive.Grouping.{filter_map, push_into, group_onto}
use rs_smarthome_nodes.Archive.Grouping.Splits.{values}
use rs_smarthome_nodes.Archive.Periods.{Row, daily}
use rs_smarthome_nodes.Archive.Periods.Fetching.{
  ChannelRows, row_at, period_rows, channels_in, fetch_rows, insert_row, sort_by_time,
}
use rs_smarthome_nodes.Archive.Periods.Harmless.{fetch_rows-IsQuoted}
use rs_smarthome_nodes.Archive.Periods.Literals.{IsHarmless}
use rs_smarthome_nodes.Archive.Periods.Ordered.{Orders, channels_in-Orders}
use rs_smarthome_nodes.Archive.Rollup.{Tier, contains_text, view, find_tier, fits, pick}
use rs_smarthome_nodes.Archive.Series.{
  Request, all_literal, checked_literal, choose_bucket, find_step, lower_steps, wanted_width, snap,
  floor_to, ceil_to, div_euclid, times, divides,
}
use rs_smarthome_nodes.Archive.Series.Blank.{
  Quotes, base_series, fetch_series-blank, fetch_series-AreLiterals,
}
use rs_smarthome_nodes.Archive.Series.Fetching.{
  Series, series_of, run_series, fetch_named, fetch_series,
}
use rs_smarthome_nodes.Archive.Series.Overview.{
  Sparkline, sparkline_at, overview_rows, sparklines, fetch_overview,
}
use rs_smarthome_nodes.Archive.Series.Sparklines.{overview_of, Shows, fetch_overview-Shows}
use rs_smarthome_nodes.Archive.Shared.{Channel}
use rs_smarthome_nodes.Archive.Tests.{toy_json, toy_floats}

decoded-percent_encode_example : decoded plain (percent_encode (codes "a+b")) ≡ codes "a+b"
decoded-percent_encode_example =
    decoded-percent_encode (codes "a+b") (omega arith, (omega arith, (omega arith, tt)))

abbrev request : Request
request = record {
  node = codes "bed";
  sensor = codes "co2";
  from = pos 1_800_000_000_000_000;
  to = pos 1_800_086_400_000_001;
  points = pos 400;
}

abbrev views : List Bytes
views = codes "readings_1m" ∷ codes "readings_1h" ∷ []

abbrev nothing : Dataset Bytes
nothing = record {
  columns = codes "t" ∷ codes "lo" ∷ codes "hi" ∷ codes "av" ∷ [];
  dataset = [];
  error = none;
}

abbrev silent : Bytes → Option (Dataset Bytes)
silent sql = some nothing

abbrev blank_series : Series
blank_series = record {
  source = codes "readings";
  bucket = codes "5m";
  from = pos 1_800_000_000_000;
  to = pos 1_800_086_700_000;
  points = [];
}

fetch_series-blank_example :
    (base_series toy_json toy_floats silent (codes "readings") request ≡ some blank_series)
    × (codes "readings" ≡ codes "readings")
unfolding fetch_series fetch_named run_series series_of checked_literal all_literal choose_bucket
    find_step lower_steps wanted_width snap floor_to div_euclid times divides ceil_to pick find_tier
    fits contains_text view bytes_eq position filter_map ◌-ℤ◌ ◌+ℤ◌
fetch_series-blank_example =
    fetch_series-blank toy_json toy_floats silent (codes "readings") views request
      {s = blank_series} refl refl

fetch_series-AreLiterals_example :
    All
      (Quotes request)
      (fetch_series toy_json toy_floats silent (codes "readings") views request).0
fetch_series-AreLiterals_example =
    fetch_series-AreLiterals toy_json toy_floats silent (codes "readings") views request
      (lacks-Lacks 39 (codes "readings") refl)

-- Cells by column: the toy reader finds one number and one time in every cell.
abbrev row_of : Bytes → Bytes → List Bytes
row_of node sensor = [] ∷ node ∷ sensor ∷ [] ∷ [] ∷ [] ∷ [] ∷ []

abbrev busy : Dataset Bytes
busy = record {
  columns =
      codes "t"
      ∷ codes "node"
      ∷ codes "sensor"
      ∷ codes "lo"
      ∷ codes "hi"
      ∷ codes "av"
      ∷ codes "lv"
      ∷ [];
  dataset =
      row_of (codes "bed") (codes "co2")
      ∷ row_of (codes "hall") (codes "water")
      ∷ row_of (codes "bed") (codes "co2")
      ∷ (codes "short" ∷ [])
      ∷ [];
  error = none;
}

abbrev talking : Bytes → Option (Dataset Bytes)
talking sql = some busy

abbrev point : ℤ × ℕ
point = (pos 1_789_675_200, 42)

abbrev lines : List Sparkline
lines =
    ((codes "bed", codes "co2"), point ∷ point ∷ [])
    ∷ ((codes "hall", codes "water"), point ∷ [])
    ∷ []

fetch_overview-Shows_example :
    (tier : Option Tier) × (d : Dataset Bytes) × (rows : List (Channel × (ℤ × ℕ))) × (talking
        (overview_of (codes "readings") tier request.from request.to (pos 400))
      ≡ some d)
    × (d.dataset ≡ [] → tier ≡ none)
    × (overview_rows toy_json toy_floats talking d ≡ some rows)
    × Shows rows lines
unfolding fetch_overview sparklines overview_rows sparkline_at choose_bucket find_step lower_steps
    wanted_width snap floor_to div_euclid times divides ceil_to pick find_tier fits contains_text
    view bytes_eq position filter_map push_into group_onto as_f64 as_i64 ◌-ℤ◌ ◌+ℤ◌
fetch_overview-Shows_example =
    fetch_overview-Shows toy_json toy_floats talking (codes "readings") views request.from
      request.to (pos 400) {out = lines} refl

abbrev day_row : Row
day_row = record { t = pos 1_789_675_200; lo = 42; hi = 42; av = 42; last = some 42 }

abbrev meters : List Channel
meters = (codes "hall", codes "water") ∷ []

abbrev house_rows : List ChannelRows
house_rows =
    ((codes "bed", codes "co2"), day_row ∷ day_row ∷ [])
    ∷ ((codes "hall", codes "water"), day_row ∷ [])
    ∷ []

fetch_rows-IsQuoted_example :
    All
      (IsQuoted IsHarmless)
      (fetch_rows toy_json toy_floats talking (codes "readings") views meters daily 14 request.to).0
fetch_rows-IsQuoted_example =
    fetch_rows-IsQuoted toy_json toy_floats talking (codes "readings") views meters daily 14
      request.to (lacks-Lacks 39 (codes "readings") refl)

channels_in-Orders_example :
    (all : List (Channel × Row)) × (period_rows toy_json toy_floats talking busy ≡ some all)
    × Orders (values (codes "bed", codes "co2") all) (day_row ∷ day_row ∷ [])
unfolding channels_in period_rows row_at insert_row sort_by_time bytes_eq position filter_map
    push_into group_onto as_f64 as_i64 get
channels_in-Orders_example =
    channels_in-Orders toy_json toy_floats talking busy {out = house_rows}
      (codes "bed", codes "co2") {rows = day_row ∷ day_row ∷ []} refl refl
