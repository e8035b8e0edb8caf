-- ===== src/Archive/Periods/Fetching.antt =====
-- What the consumption by period reads: the statements, `run` and `fetch_rows`
-- (timeseries/src/questdb/periods.rs). The client is its answer to a statement.
use rs_smarthome_nodes.Base.{
  ℕ, Bool, false, not, ◌||◌, Option, none, some, List, [], ◌∷◌, ◌++◌, map, ◌>>=◌, if◌then◌else◌,
}
use rs_smarthome_nodes.Base.Bytes.{Bytes}
use rs_smarthome_nodes.Base.Double.{Float64}
use rs_smarthome_nodes.Base.Int.{ℤ, ltb_ℤ}
use rs_smarthome_nodes.Base.Keyed.{pair_key, pair_same}
use rs_smarthome_nodes.Base.Text.{codes}
use rs_smarthome_nodes.Base.Words.{quot_ℤ}
use rs_smarthome_nodes.Archive.Database.{
  Dataset, require, position, cell, as_f64, as_i64, Asked, answered, ask, ◌>>!◌,
}
use rs_smarthome_nodes.Archive.Grouping.{filter_map, grouped}
use rs_smarthome_nodes.Archive.Lines.{show_i64}
use rs_smarthome_nodes.Archive.Measurements.{Json}
use rs_smarthome_nodes.Archive.Periods.{Period, sample, hourly, read_from, Row}
use rs_smarthome_nodes.Archive.Rollup.{Tier, contains_text}
use rs_smarthome_nodes.Archive.Series.{table_of, aggregates_of, checked_literal}
use rs_smarthome_nodes.Archive.Series.Fetching.{is_empty, or_base}
use rs_smarthome_nodes.Archive.Shared.{Channel}

abbrev pub time_zone : Bytes
time_zone = codes "Europe/Berlin"

-- The end of both statements, from the window on.
abbrev pub sampled_text : ℤ → ℤ → Period → Bytes
sampled_text from to period =
    codes "timestamp >= cast("
    ++ (show_i64 from
        ++ (codes " AS timestamp) AND timestamp < cast("
            ++ (show_i64 to
                ++ (codes " AS timestamp) SAMPLE BY "
                    ++ (sample period
                        ++ (codes " ALIGN TO CALENDAR TIME ZONE '"
                            ++ (time_zone ++ codes "')")))))))

unfoldable pub periods_sql : Bytes → Option Tier → ℤ → ℤ → Period → Bytes
unfolding sample
periods_sql base tier from to period =
    codes "SELECT cast(timestamp AS long) t, node, sensor, lo, hi, av FROM ("
    ++ (codes "SELECT timestamp, node, sensor, "
        ++ (aggregates_of tier
            ++ (codes " FROM "
                ++ (table_of base tier ++ (codes " WHERE " ++ sampled_text from to period)))))

-- The closure `list`: the names in quotes, with `, ` between them.
unfoldable pub listed : List Bytes → Bytes
listed [] = []
listed (x ∷ []) = 39 ∷ (x ++ 39 ∷ [])
listed (x ∷ y ∷ xs) = 39 ∷ (x ++ (codes "', " ++ listed (y ∷ xs)))

unfoldable pub meters_sql : Bytes → List Bytes → List Bytes → ℤ → ℤ → Period → Bytes
unfolding sample listed
meters_sql base nodes sensors from to period =
    codes "SELECT cast(timestamp AS long) t, node, sensor, lo, hi, av, lv FROM ("
    ++ (codes "SELECT timestamp, node, sensor, min(value) lo, max(value) hi, avg(value) av, "
        ++ (codes "last(value) lv FROM "
            ++ (base
                ++ (codes " WHERE node IN ("
                    ++ (listed nodes
                        ++ (codes ") AND sensor IN ("
                            ++ (listed sensors
                                ++ (codes ") AND " ++ sampled_text from to period))))))))

-- `sort_by_key(|r| r.0)`, which keeps the order of rows of one time.
unfoldable pub insert_row : Row → List Row → List Row
insert_row r [] = r ∷ []
insert_row r (x ∷ xs) = let rest = insert_row r xs in if ltb_ℤ x.t r.t then x ∷ rest else r ∷ x ∷ xs

unfoldable pub sort_by_time : List Row → List Row
unfolding insert_row
sort_by_time [] = []
sort_by_time (r ∷ rows) = insert_row r (sort_by_time rows)

abbrev pub ChannelRows : Type 0
ChannelRows = Channel × List Row

abbrev pub in_order : ChannelRows → ChannelRows
in_order (key, rows) = (key, sort_by_time rows)

unfoldable pub contains_channel : List Channel → Channel → Bool
contains_channel [] key = false
contains_channel (m ∷ meters) key = pair_same m key || contains_channel meters key

-- `retain`
unfoldable pub retain : (Channel → Bool) → List ChannelRows → List ChannelRows
retain test [] = []
retain test ((key, rows) ∷ out) =
    let rest = retain test out in if test key then (key, rows) ∷ rest else rest

abbrev pub with_name : List Bytes → Bytes → List Bytes
with_name names name = if contains_text names name then names else names ++ name ∷ []

-- The nodes and sensors of the meters, each once, if all of them are literals.
unfoldable pub checked_names :
    List Bytes → List Bytes → List Channel → Option (List Bytes × List Bytes)
unfolding contains_text
checked_names nodes sensors [] = some (nodes, sensors)
checked_names nodes sensors ((node, sensor) ∷ meters) = checked_literal node >>= λ n.
    checked_literal sensor >>= λ s. checked_names (with_name nodes n) (with_name sensors s) meters

-- The table's name, and the rows.
abbrev pub Found : Type 0
Found = Bytes × List ChannelRows

module _ (j : Json) (f : Float64) (exec : Bytes → Option (Dataset j.Value)) where
  -- The last reading, which only the meters' statement has a column for.
  abbrev pub last_at : Option ℕ → List j.Value → Option ℕ
  last_at lv row = lv >>= λ i. cell row i >>= as_f64 j f

  unfoldable pub row_at : ℕ → ℕ → ℕ → ℕ → ℕ → ℕ → Option ℕ → List j.Value → Option (Channel × Row)
  row_at ti n s lo hi av lv row = do
    node ← cell row n >>= j.as_str
    sensor ← cell row s >>= j.as_str
    t ← cell row ti >>= as_i64 j f
    low ← cell row lo >>= as_f64 j f
    high ← cell row hi >>= as_f64 j f
    mean ← cell row av >>= as_f64 j f
    some (
      (node, sensor),
      record { t = quot_ℤ t 1000; lo = low; hi = high; av = mean; last = last_at lv row },
    )

  unfoldable pub period_rows : Dataset j.Value → Option (List (Channel × Row))
  unfolding position
  period_rows d = do
    ti ← require d (codes "t")
    n ← require d (codes "node")
    s ← require d (codes "sensor")
    lo ← require d (codes "lo")
    hi ← require d (codes "hi")
    av ← require d (codes "av")
    some (filter_map (row_at ti n s lo hi av (position d.columns (codes "lv"))) d.dataset)

  unfoldable pub channels_in : Dataset j.Value → Option (List ChannelRows)
  unfolding period_rows
  channels_in d = period_rows d >>= λ rows. some (map in_order (grouped rows))

  unfoldable pub run : Bytes → Asked (List ChannelRows)
  unfolding channels_in
  run sql = ask exec sql >>! λ d. answered (channels_in d)

  -- The periods of all channels, from the hourly view or the base table, with the table's name.
  unfoldable pub first_rows : Bytes → Option Tier → ℤ → ℤ → Period → Asked Found
  unfolding run
  first_rows base tier from now period = run (periods_sql base tier from now period) >>! λ out.
      or_base tier (is_empty out) (table_of base tier, out)
        (run (periods_sql base none from now period) >>! λ again. answered (some (base, again)))

  unfoldable pub with_meters :
      Bytes → List Channel → ℤ → ℤ → Period → Found → List Bytes × List Bytes → Asked Found
  unfolding run
  with_meters base meters from now period (source, out) (nodes, sensors) =
      if is_empty nodes
      then answered (some (source, out))
      else (run (meters_sql base nodes sensors from now period) >>! λ found.
          answered (some (source, out ++ retain (contains_channel meters) found)))

  unfoldable pub fetch_rows : Bytes → List Bytes → List Channel → Period → ℕ → ℤ → Asked Found
  unfolding first_rows with_meters checked_names
  fetch_rows base views meters period count now =
      let from = read_from now count period in
      first_rows base (hourly views base) from now period >>! λ first.
      answered (checked_names [] [] meters) >>! λ names.
      with_meters base meters from now period
        (first.0, retain (λ key. not (contains_channel meters key)) (first.1)) names
