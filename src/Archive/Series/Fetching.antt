-- ===== src/Archive/Series/Fetching.antt =====
-- What a chart reads: `fetch_series` and `run_series` (timeseries/src/questdb/series.rs). The client
-- is its answer to a statement.
use rs_smarthome_nodes.Base.{ℕ, Bool, true, false, Option, none, some, List, [], ◌∷◌, ◌>>=◌}
use rs_smarthome_nodes.Base.Bytes.{Bytes}
use rs_smarthome_nodes.Base.Double.{Float64}
use rs_smarthome_nodes.Base.Int.{ℤ}
use rs_smarthome_nodes.Base.Text.{codes}
use rs_smarthome_nodes.Base.Words.{quot_ℤ}
use rs_smarthome_nodes.Archive.Database.{
  Dataset, require, cell, as_f64, as_i64, Asked, answered, ask, ◌>>!◌,
}
use rs_smarthome_nodes.Archive.Grouping.{filter_map}
use rs_smarthome_nodes.Archive.Measurements.{Json}
use rs_smarthome_nodes.Archive.Rollup.{Tier, pick}
use rs_smarthome_nodes.Archive.Series.{
  series_sql, table_of, Request, checked_literal, choose_bucket, snap,
}

-- Times are milliseconds, values bit patterns of `f64`.
pub record Point : Type 0 where
  pub t : ℤ
  pub lo : ℕ
  pub hi : ℕ
  pub av : ℕ

pub record Series : Type 0 where
  pub source : Bytes
  pub bucket : Bytes
  pub from : ℤ
  pub to : ℤ
  pub points : List Point

-- `is_empty`
abbrev pub is_empty {ℓ} : {A : Type ℓ} → List A → Bool
is_empty [] = true
is_empty (x ∷ xs) = false

-- A second answer, from the base table, if a view answered with nothing.
abbrev pub or_base {ℓ} : {A : Type ℓ} → Option Tier → Bool → A → Asked A → Asked A
or_base none empty first again = answered (some first)
or_base (some t) true first again = again
or_base (some t) false first again = answered (some first)

module _ (j : Json) (f : Float64) (exec : Bytes → Option (Dataset j.Value)) where
  unfoldable pub point_at : ℕ → ℕ → ℕ → ℕ → List j.Value → Option Point
  point_at ti lo hi av row = do
    t ← cell row ti >>= as_i64 j f
    low ← cell row lo >>= as_f64 j f
    high ← cell row hi >>= as_f64 j f
    mean ← cell row av >>= as_f64 j f
    some (record { t = quot_ℤ t 1000; lo = low; hi = high; av = mean })

  unfoldable pub series_of : Bytes → Option Tier → ℤ → ℤ → Bytes → Dataset j.Value → Option Series
  series_of base tier from to bucket d = do
    ti ← require d (codes "t")
    lo ← require d (codes "lo")
    hi ← require d (codes "hi")
    av ← require d (codes "av")
    some (record {
      source = table_of base tier;
      bucket = bucket;
      from = quot_ℤ from 1000;
      to = quot_ℤ to 1000;
      points = filter_map (point_at ti lo hi av) d.dataset;
    })

  unfoldable pub run_series : Bytes → Option Tier → Bytes → Bytes → ℤ → ℤ → Bytes → Asked Series
  unfolding series_of
  run_series base tier node sensor from to bucket =
      ask exec (series_sql base tier node sensor from to bucket) >>! λ d.
      answered (series_of base tier from to bucket d)

  -- From the choice of the bucket on, with the names checked.
  unfoldable pub fetch_named : Bytes → List Bytes → Request → Bytes → Bytes → Asked Series
  unfolding run_series
  fetch_named base views r node sensor =
      let (width, bucket) = choose_bucket r.from r.to r.points in
      let (from, to) = snap r.from r.to width in
      let tier = pick width views base in
      run_series base tier node sensor from to bucket >>! λ s.
      or_base tier (is_empty s.points) s (run_series base none node sensor from to bucket)

  unfoldable pub fetch_series : Bytes → List Bytes → Request → Asked Series
  unfolding fetch_named
  fetch_series base views r = answered (checked_literal r.node) >>! λ node.
      answered (checked_literal r.sensor) >>! λ sensor. fetch_named base views r node sensor
