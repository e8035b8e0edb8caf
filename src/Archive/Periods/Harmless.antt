-- ===== src/Archive/Periods/Harmless.antt =====
-- The statements that `fetch_rows` asks (timeseries/src/questdb/periods.rs).
use rs_smarthome_nodes.Base.{ℕ, not, Option, none, List, [], All, if-keeps}
use rs_smarthome_nodes.Base.Bytes.{Bytes}
use rs_smarthome_nodes.Base.Double.{Float64}
use rs_smarthome_nodes.Base.Int.{ℤ}
use rs_smarthome_nodes.Base.Text.{Lacks}
use rs_smarthome_nodes.Archive.Database.{Dataset, Asked, answered, ask}
use rs_smarthome_nodes.Archive.Database.Chained.{>>!-All}
use rs_smarthome_nodes.Archive.Database.Quoted.{IsQuoted}
use rs_smarthome_nodes.Archive.Measurements.{Json}
use rs_smarthome_nodes.Archive.Periods.{Period, hourly, read_from}
use rs_smarthome_nodes.Archive.Periods.Fetching.{
  Found, periods_sql, meters_sql, checked_names, contains_channel, retain, run, first_rows,
  with_meters, fetch_rows,
}
use rs_smarthome_nodes.Archive.Rollup.{Tier}
use rs_smarthome_nodes.Archive.Series.{table_of}
use rs_smarthome_nodes.Archive.Series.Fetching.{is_empty}
use rs_smarthome_nodes.Archive.Shared.{Channel}
use rs_smarthome_nodes.Archive.Series.Blank.{or_base-All}
use rs_smarthome_nodes.Archive.Periods.Literals.{
  IsHarmless, AreLiteral, periods_sql-IsQuoted, meters_sql-IsQuoted, checked_names-AreLiteral,
  hourly-Lacks,
}

module _ (j : Json) (f : Float64) (exec : Bytes → Option (Dataset j.Value)) where
  run-IsQuoted :
      (sql : Bytes) → IsQuoted IsHarmless sql → All (IsQuoted IsHarmless) (run j f exec sql).0
  unfolding run
  run-IsQuoted sql h = >>!-All (IsQuoted IsHarmless) (ask exec sql) _ (h, tt) (λ d a. tt)

  first_rows-IsQuoted :
      (base : Bytes) (tier : Option Tier) (from now : ℤ) (period : Period)
      → Lacks 39 base
      → Lacks 39 (table_of base tier)
      → All (IsQuoted IsHarmless) (first_rows j f exec base tier from now period).0
  unfolding first_rows
  first_rows-IsQuoted base tier from now period h k =
      let again = run j f exec (periods_sql base none from now period) in
      >>!-All (IsQuoted IsHarmless) (run j f exec (periods_sql base tier from now period)) _
        (run-IsQuoted _ (periods_sql-IsQuoted base tier from now period k))
        (λ out a.
          or_base-All (IsQuoted IsHarmless) tier (is_empty out) (table_of base tier, out) _
            (>>!-All (IsQuoted IsHarmless) again _
              (run-IsQuoted _ (periods_sql-IsQuoted base none from now period h)) (λ o b. tt)))

  with_meters-IsQuoted :
      (base : Bytes) (meters : List Channel) (from now : ℤ) (period : Period) (first : Found)
      (nodes sensors : List Bytes)
      → Lacks 39 base
      → AreLiteral nodes × AreLiteral sensors
      → All
          (IsQuoted IsHarmless)
          (with_meters j f exec base meters from now period first (nodes, sensors)).0
  unfolding with_meters
  with_meters-IsQuoted base meters from now period (source, out) nodes sensors h (k, l) =
      if-keeps (λ (r : Asked Found). All (IsQuoted IsHarmless) (r.0)) (is_empty nodes) tt
        (>>!-All (IsQuoted IsHarmless)
          (run j f exec (meters_sql base nodes sensors from now period)) _
          (run-IsQuoted _ (meters_sql-IsQuoted base nodes sensors from now period h k l))
          (λ found a. tt))

  -- Whatever channels discovery calls meters and whatever the database answers, what stands in
  -- quotes in the statements of `fetch_rows` is a name of harmless characters or the time zone, and
  -- every quote is closed, for a table's name without quotes.
  pub fetch_rows-IsQuoted :
      (base : Bytes) (views : List Bytes) (meters : List Channel) (period : Period) (count : ℕ)
      (now : ℤ)
      → Lacks 39 base
      → All (IsQuoted IsHarmless) (fetch_rows j f exec base views meters period count now).0
  unfolding fetch_rows
  fetch_rows-IsQuoted base views meters period count now h =
      let from = read_from now count period in
      >>!-All (IsQuoted IsHarmless) (first_rows j f exec base (hourly views base) from now period) _
        (first_rows-IsQuoted base (hourly views base) from now period h (hourly-Lacks views base h))
        (λ first a.
          >>!-All (IsQuoted IsHarmless) (answered (checked_names [] [] meters)) _ tt (λ names b.
            with_meters-IsQuoted base meters from now period
              (first.0, retain (λ key. not (contains_channel meters key)) (first.1)) (names.0)
              (names.1) h (checked_names-AreLiteral [] [] meters tt tt b)))
