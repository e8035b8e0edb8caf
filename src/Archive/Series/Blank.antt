-- ===== src/Archive/Series/Blank.antt =====
-- What a chart without points says, and what its statements hold (timeseries/src/questdb/series.rs).
use rs_smarthome_nodes.Base.{
  ◌≡◌, refl, sym, ap₂, ◌∙◌, Bool, true, false, Option, none, some, List, [], arith, All,
  bind-eq-some,
}
use rs_smarthome_nodes.Base.Bytes.{Bytes}
use rs_smarthome_nodes.Base.Double.{Float64}
use rs_smarthome_nodes.Base.Int.{ℤ}
use rs_smarthome_nodes.Base.Text.{codes, split, Lacks}
use rs_smarthome_nodes.Archive.Database.{Dataset, Asked, answered, ask, require, ◌>>!◌}
use rs_smarthome_nodes.Archive.Database.Chained.{>>!-eq-some, >>!-All}
use rs_smarthome_nodes.Archive.Measurements.{Json}
use rs_smarthome_nodes.Archive.Rollup.{Tier, pick}
use rs_smarthome_nodes.Archive.Series.{
  Request, checked_literal, choose_bucket, snap, series_sql, table_of,
}
use rs_smarthome_nodes.Archive.Series.Fetching.{
  Series, is_empty, or_base, series_of, run_series, fetch_named, fetch_series,
}
use rs_smarthome_nodes.Archive.Series.Literals.{
  AreLiterals, checked_literal-Lacks, series_sql-AreLiterals, pick-Lacks, choose_bucket-Lacks,
}

-- What holds of the statements of a second answer holds of all that are asked for the two.
pub or_base-All {ℓ} :
    {A : Type ℓ} (P : Bytes → Type 0) (tier : Option Tier) (empty : Bool) (first : A)
    (again : Asked A)
    → All P (again.0)
    → All P (or_base tier empty first again).0
or_base-All P none empty first again h = tt
or_base-All P (some t) true first again h = h
or_base-All P (some t) false first again h = tt

-- The two quoted texts of a statement are the names of a request.
abbrev pub Quotes : Request → Bytes → Type 0
Quotes r sql = AreLiterals r.node r.sensor (split 39 sql)

module _ (j : Json) (f : Float64) (exec : Bytes → Option (Dataset j.Value)) where
  series_of-source :
      (base : Bytes) (from to : ℤ) (bucket : Bytes) (d : Dataset j.Value) {s : Series}
      → series_of j f exec base none from to bucket d ≡ some s
      → s.source ≡ base
  unfolding series_of
  series_of-source base from to bucket d h =
      let (ti, a, h1) = bind-eq-some (require d (codes "t")) _ h in
      let (lo, b, h2) = bind-eq-some (require d (codes "lo")) _ h1 in
      let (hi, c, h3) = bind-eq-some (require d (codes "hi")) _ h2 in
      let (av, e, h4) = bind-eq-some (require d (codes "av")) _ h3 in ground arith

  again_from :
      (t : Tier) (empty : Bool) (first s : Series) (again : Asked Series)
      → is_empty first.points ≡ empty
      → (or_base (some t) empty first again).1 ≡ some s
      → s.points ≡ []
      → again.1 ≡ some s
  again_from t true first s again d h e = h
  again_from t false first s again d h e = cc

  blank_from :
      (tier : Option Tier) (base node sensor : Bytes) (from to : ℤ) (bucket : Bytes) {s : Series}
      → (run_series j f exec base tier node sensor from to bucket >>! λ first.
          or_base tier
            (is_empty first.points)
            first
            (run_series j f exec base none node sensor from to bucket)).1
        ≡ some s
      → s.points ≡ []
      → (run_series j f exec base none node sensor from to bucket).1 ≡ some s
  blank_from none base node sensor from to bucket h e =
      let (first, a, b) =
        >>!-eq-some (run_series j f exec base none node sensor from to bucket) _ h in
      a ∙ b
  blank_from (some t) base node sensor from to bucket {s} h e =
      let (first, a, b) =
        >>!-eq-some (run_series j f exec base (some t) node sensor from to bucket) _ h in
      again_from t _ first s _ refl b e

  -- The chart of the base table alone.
  abbrev pub base_series : Bytes → Request → Option Series
  base_series base r =
      let (width, bucket) = choose_bucket r.from r.to r.points in
      let (from, to) = snap r.from r.to width in
      (run_series j f exec base none r.node r.sensor from to bucket).1

  base_source :
      (base : Bytes) (r : Request) {s : Series} → base_series base r ≡ some s → s.source ≡ base
  unfolding run_series
  base_source base r h =
      let (width, bucket) = choose_bucket r.from r.to r.points in
      let (from, to) = snap r.from r.to width in
      let (d, a, b) =
        >>!-eq-some (ask exec (series_sql base none r.node r.sensor from to bucket)) _ h in
      series_of-source base from to bucket d b

  fetch_named-blank :
      (base : Bytes) (views : List Bytes) (r : Request) (node sensor : Bytes) {s : Series}
      → (fetch_named j f exec base views r node sensor).1 ≡ some s
      → node ≡ r.node
      → sensor ≡ r.sensor
      → s.points ≡ []
      → base_series base r ≡ some s
  unfolding fetch_named
  fetch_named-blank base views r node sensor h p q e =
      let (width, bucket) = choose_bucket r.from r.to r.points in
      let (from, to) = snap r.from r.to width in
      ap₂ (λ n m. (run_series j f exec base none n m from to bucket).1) (sym p) (sym q)
      ∙ blank_from (pick width views base) base node sensor from to bucket h e

  -- A chart without points is that of the base table: a view with nothing to show never stands for
  -- it.
  pub fetch_series-blank :
      (base : Bytes) (views : List Bytes) (r : Request) {s : Series}
      → (fetch_series j f exec base views r).1 ≡ some s
      → s.points ≡ []
      → (base_series base r ≡ some s) × (s.source ≡ base)
  unfolding fetch_series
  fetch_series-blank base views r h e =
      let (node, a, h1) = >>!-eq-some (answered (checked_literal r.node)) _ h in
      let (sensor, b, h2) = >>!-eq-some (answered (checked_literal r.sensor)) _ h1 in
      let same =
        fetch_named-blank base views r node sensor h2 (checked_literal-Lacks r.node a).0
          (checked_literal-Lacks r.sensor b).0 e in
      (same, base_source base r same)

  run_series-AreLiterals :
      (base : Bytes) (tier : Option Tier) (r : Request) {node sensor : Bytes} (from to : ℤ)
      (bucket : Bytes)
      → Lacks 39 (table_of base tier)
      → checked_literal r.node ≡ some node
      → checked_literal r.sensor ≡ some sensor
      → Lacks 39 bucket
      → All (Quotes r) (run_series j f exec base tier node sensor from to bucket).0
  unfolding run_series
  run_series-AreLiterals base tier r {node} {sensor} from to bucket h n s l =
      >>!-All (Quotes r) (ask exec (series_sql base tier node sensor from to bucket)) _
        (
          series_sql-AreLiterals base tier node sensor from to bucket h
              (checked_literal-Lacks r.node n) (checked_literal-Lacks r.sensor s) l,
          tt,
        )
        (λ d a. tt)

  fetch_named-AreLiterals :
      (base : Bytes) (views : List Bytes) (r : Request) {node sensor : Bytes}
      → Lacks 39 base
      → checked_literal r.node ≡ some node
      → checked_literal r.sensor ≡ some sensor
      → All (Quotes r) (fetch_named j f exec base views r node sensor).0
  unfolding fetch_named
  fetch_named-AreLiterals base views r {node} {sensor} h n s =
      let (width, bucket) = choose_bucket r.from r.to r.points in
      let (from, to) = snap r.from r.to width in
      let l = choose_bucket-Lacks r.from r.to r.points in
      >>!-All (Quotes r)
        (run_series j f exec base (pick width views base) node sensor from to bucket) _
        (run_series-AreLiterals base (pick width views base) r from to bucket
          (pick-Lacks width views base h) n s l)
        (λ first a.
          or_base-All (Quotes r) (pick width views base) (is_empty first.points) first
            (run_series j f exec base none node sensor from to bucket)
            (run_series-AreLiterals base none r from to bucket h n s l))

  -- Whatever names a chart is asked for and whatever the database answers, every statement that is
  -- asked for it holds two quoted texts, the node and the sensor of the request as they are, for a
  -- table's name without quotes.
  pub fetch_series-AreLiterals :
      (base : Bytes) (views : List Bytes) (r : Request)
      → Lacks 39 base
      → All (Quotes r) (fetch_series j f exec base views r).0
  unfolding fetch_series
  fetch_series-AreLiterals base views r h =
      >>!-All (Quotes r) (answered (checked_literal r.node)) _ tt (λ node n.
        >>!-All (Quotes r) (answered (checked_literal r.sensor)) _ tt
          (λ sensor s. fetch_named-AreLiterals base views r h n s))
