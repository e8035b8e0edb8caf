-- ===== src/Archive/Series/Overview.antt =====
-- What the overview and the list of channels read (timeseries/src/questdb/series.rs).
use rs_smarthome_nodes.Base.{
  ℕ, Bool, not, ◌&&◌, Option, none, some, List, [], ◌∷◌, ◌++◌, reverse, ◌>>=◌, if◌then◌else◌,
}
use rs_smarthome_nodes.Base.Bytes.{Bytes}
use rs_smarthome_nodes.Base.Double.{Float64}
use rs_smarthome_nodes.Base.Int.{ℤ}
use rs_smarthome_nodes.Base.Keyed.{pair_key, pair_same}
use rs_smarthome_nodes.Base.Text.{codes, bytes_eq}
use rs_smarthome_nodes.Base.Words.{quot_ℤ, max_ℤ}
use rs_smarthome_nodes.Archive.Database.{
  Dataset, require, cell, as_f64, as_i64, Asked, answered, ask, ◌>>!◌,
}
use rs_smarthome_nodes.Archive.Grouping.{filter_map, grouped}
use rs_smarthome_nodes.Archive.Lines.{show_i64}
use rs_smarthome_nodes.Archive.Measurements.{Json}
use rs_smarthome_nodes.Archive.Rollup.{Tier, view, pick, find_tier, tiers, contains_text}
use rs_smarthome_nodes.Archive.Shared.{Channel}
use rs_smarthome_nodes.Archive.Series.{table_of, choose_bucket, snap}
use rs_smarthome_nodes.Archive.Series.Fetching.{is_empty, or_base}

abbrev pub average_of : Option Tier → Bytes
average_of none = codes "avg(value) av"
average_of (some t) = codes "sum(sv)/sum(n) av"

unfoldable pub overview_sql : Bytes → Option Tier → ℤ → ℤ → Bytes → Bytes
unfolding view
overview_sql base tier from to bucket =
    codes
      "SELECT cast(timestamp AS long) t, node, sensor, av FROM (SELECT timestamp, node, sensor, "
    ++ (average_of tier
        ++ (codes " FROM "
            ++ (table_of base tier
                ++ (codes " WHERE timestamp >= cast("
                    ++ (show_i64 from
                        ++ (codes " AS timestamp) AND timestamp < cast("
                            ++ (show_i64 to
                                ++ (codes " AS timestamp) SAMPLE BY "
                                    ++ (bucket ++ codes " ALIGN TO CALENDAR)")))))))))

-- The coarsest view that is there.
unfoldable pub channels_sql : Bytes → List Bytes → Bytes
unfolding find_tier contains_text view
channels_sql base views =
    codes "SELECT node, sensor, cast(max(timestamp) AS long) last FROM "
    ++ table_of base (find_tier (λ t. contains_text views (view t base)) (reverse tiers))

unfoldable pub recent_channels_sql : Bytes → Bytes
recent_channels_sql base =
    codes "SELECT node, sensor, cast(max(timestamp) AS long) last FROM "
    ++ (base ++ codes " WHERE timestamp > dateadd('d', -2, now())")

unfoldable pub latest_sql : Bytes → Bytes
latest_sql base =
    codes "SELECT node, sensor, value, cast(timestamp AS long) t FROM "
    ++ (base ++ codes " LATEST ON timestamp PARTITION BY node, sensor")

unfoldable pub latest_status_sql : Bytes → Bytes
latest_status_sql status_table =
    codes "SELECT node, online, cast(timestamp AS long) t FROM "
    ++ (status_table ++ codes " LATEST ON timestamp PARTITION BY node")

-- A later time of two that may be missing; a missing one is the earliest.
abbrev pub later : Option ℤ → Option ℤ → Option ℤ
later none b = b
later (some a) none = some a
later (some a) (some b) = some (max_ℤ a b)

unfoldable pub seen_at : List (Channel × Option ℤ) → Channel → Option ℤ → List (Channel × Option ℤ)
seen_at [] key last = (key, last) ∷ []
seen_at ((a, before) ∷ out) key last =
    let rest = seen_at out key last in
    if pair_same a key then (a, later before last) ∷ out else (a, before) ∷ rest

unfoldable pub seen_all :
    List (Channel × Option ℤ) → List (Channel × Option ℤ) → List (Channel × Option ℤ)
unfolding seen_at
seen_all out [] = out
seen_all out ((key, last) ∷ recent) = seen_all (seen_at out key last) recent

abbrev pub online_of : Option Bool → Option Bytes → Option Bool
online_of (some b) text = some b
online_of none (some text) = some (bytes_eq text (codes "true"))
online_of none none = none

abbrev pub Sparkline : Type 0
Sparkline = Channel × List (ℤ × ℕ)

module _ (j : Json) (f : Float64) (exec : Bytes → Option (Dataset j.Value)) where
  unfoldable pub sparkline_at : ℕ → ℕ → ℕ → ℕ → List j.Value → Option (Channel × (ℤ × ℕ))
  sparkline_at ti n s av row = do
    node ← cell row n >>= j.as_str
    sensor ← cell row s >>= j.as_str
    t ← cell row ti >>= as_i64 j f
    mean ← cell row av >>= as_f64 j f
    some ((node, sensor), (quot_ℤ t 1000, mean))

  -- The rows that can be read, each with its channel.
  unfoldable pub overview_rows : Dataset j.Value → Option (List (Channel × (ℤ × ℕ)))
  overview_rows d = do
    ti ← require d (codes "t")
    n ← require d (codes "node")
    s ← require d (codes "sensor")
    av ← require d (codes "av")
    some (filter_map (sparkline_at ti n s av) d.dataset)

  unfoldable pub sparklines : Dataset j.Value → Option (List Sparkline)
  unfolding overview_rows
  sparklines d = overview_rows d >>= λ rows. some (grouped rows)

  unfoldable pub fetch_overview : Bytes → List Bytes → ℤ → ℤ → ℤ → Asked (List Sparkline)
  unfolding sparklines
  fetch_overview base views from0 to0 points =
      let (width, bucket) = choose_bucket from0 to0 points in
      let (from, to) = snap from0 to0 width in
      let tier = pick width views base in
      (ask exec (overview_sql base tier from to bucket) >>! λ d.
      or_base tier (is_empty d.dataset) d (ask exec (overview_sql base none from to bucket)))
      >>! λ d. answered (sparklines d)

  unfoldable pub channel_at : ℕ → ℕ → ℕ → List j.Value → Option (Channel × Option ℤ)
  channel_at n s l row = do
    node ← cell row n >>= j.as_str
    sensor ← cell row s >>= j.as_str
    some ((node, sensor), cell row l >>= as_i64 j f >>= λ us. some (quot_ℤ us 1000))

  unfoldable pub channels_of : Dataset j.Value → Option (List (Channel × Option ℤ))
  channels_of d = do
    n ← require d (codes "node")
    s ← require d (codes "sensor")
    l ← require d (codes "last")
    some (filter_map (channel_at n s l) d.dataset)

  unfoldable pub channel_rows : Bytes → Asked (List (Channel × Option ℤ))
  unfolding channels_of
  channel_rows sql = ask exec sql >>! λ d. answered (channels_of d)

  unfoldable pub fetch_channels : Bytes → List Bytes → Asked (List (Channel × Option ℤ))
  unfolding channel_rows
  fetch_channels base views = channel_rows (channels_sql base views) >>! λ out.
      if not (bytes_eq (channels_sql base views) (recent_channels_sql base)) && not (is_empty views)
      then (channel_rows (recent_channels_sql base) >>! λ recent.
          answered (some (seen_all out recent)))
      else answered (some out)

  unfoldable pub latest_at : ℕ → ℕ → ℕ → ℕ → List j.Value → Option (Channel × (ℕ × ℤ))
  latest_at n s v ti row = do
    node ← cell row n >>= j.as_str
    sensor ← cell row s >>= j.as_str
    number ← cell row v >>= as_f64 j f
    t ← cell row ti >>= as_i64 j f
    some ((node, sensor), (number, quot_ℤ t 1000))

  unfoldable pub latest_of : Dataset j.Value → Option (List (Channel × (ℕ × ℤ)))
  latest_of d = do
    n ← require d (codes "node")
    s ← require d (codes "sensor")
    v ← require d (codes "value")
    ti ← require d (codes "t")
    some (filter_map (latest_at n s v ti) d.dataset)

  unfoldable pub fetch_latest : Bytes → Asked (List (Channel × (ℕ × ℤ)))
  unfolding latest_of
  fetch_latest base = ask exec (latest_sql base) >>! λ d. answered (latest_of d)

  unfoldable pub status_at : ℕ → ℕ → List j.Value → Option (Bytes × Bool)
  status_at n o row = do
    v ← cell row o
    up ← online_of (j.as_bool v) (j.as_str v)
    node ← cell row n >>= j.as_str
    some (node, up)

  unfoldable pub statuses_of : Dataset j.Value → Option (List (Bytes × Bool))
  statuses_of d = do
    n ← require d (codes "node")
    o ← require d (codes "online")
    some (filter_map (status_at n o) d.dataset)

  unfoldable pub fetch_status : Bytes → Asked (List (Bytes × Bool))
  unfolding statuses_of
  fetch_status status_table =
      ask exec (latest_status_sql status_table) >>! λ d. answered (statuses_of d)
