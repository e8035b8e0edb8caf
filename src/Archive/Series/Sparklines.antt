-- ===== src/Archive/Series/Sparklines.antt =====
-- What the overview shows of a channel (`fetch_overview` of timeseries/src/questdb/series.rs).
use rs_smarthome_nodes.Base.{
  ℕ, ◌≡◌, refl, ◌∙◌, subst, Bool, true, false, Option, none, some, List, [], bind-eq-some,
}
use rs_smarthome_nodes.Base.Bytes.{Bytes}
use rs_smarthome_nodes.Base.Double.{Float64}
use rs_smarthome_nodes.Base.Int.{ℤ}
use rs_smarthome_nodes.Base.Keyed.{get, pair_key}
use rs_smarthome_nodes.Archive.Database.{Dataset, answered, ask}
use rs_smarthome_nodes.Archive.Database.Chained.{>>!-eq-some}
use rs_smarthome_nodes.Archive.Grouping.{grouped}
use rs_smarthome_nodes.Archive.Grouping.Splits.{
  values, joined, AreDistinct, get-grouped, grouped-AreDistinct,
}
use rs_smarthome_nodes.Archive.Measurements.{Json}
use rs_smarthome_nodes.Archive.Rollup.{Tier, pick}
use rs_smarthome_nodes.Archive.Series.{choose_bucket, snap}
use rs_smarthome_nodes.Archive.Series.Fetching.{is_empty, or_base}
use rs_smarthome_nodes.Archive.Series.Overview.{
  overview_sql, Sparkline, overview_rows, sparklines, fetch_overview,
}
use rs_smarthome_nodes.Archive.Shared.{Channel}

-- Lines that show these rows: one for every channel that has any, with all of them in their order.
pub record Shows (rows : List (Channel × (ℤ × ℕ))) (out : List Sparkline) : Type 0 where
  pub once : AreDistinct out
  pub whole : (c : Channel) → get out c ≡ joined none (values c rows)

grouped-Shows : (rows : List (Channel × (ℤ × ℕ))) → Shows rows (grouped rows)
grouped-Shows rows = record { once = grouped-AreDistinct rows; whole = get-grouped rows }

some_inj : {a b : List Sparkline} → some a ≡ some b → a ≡ b
some_inj h = cc

-- The overview's statement, of a view or of the base table.
abbrev pub overview_of : Bytes → Option Tier → ℤ → ℤ → ℤ → Bytes
overview_of base tier from0 to0 points =
    let (width, bucket) = choose_bucket from0 to0 points in
    let (from, to) = snap from0 to0 width in overview_sql base tier from to bucket

module _ (j : Json) (f : Float64) (exec : Bytes → Option (Dataset j.Value)) where
  sparklines-Shows :
      (d : Dataset j.Value) {out : List Sparkline}
      → sparklines j f exec d ≡ some out
      → (rows : List (Channel × (ℤ × ℕ))) × (overview_rows j f exec d ≡ some rows) × Shows rows out
  unfolding sparklines
  sparklines-Shows d h =
      let (rows, a, b) = bind-eq-some (overview_rows j f exec d) _ h in
      (rows, a, subst (Shows rows) (some_inj b) (grouped-Shows rows))

  answer_of :
      (tier : Option Tier) (empty : Bool) (d : Dataset j.Value) (base : Bytes) (from to : ℤ)
      (bucket : Bytes) {last : Dataset j.Value}
      → is_empty d.dataset ≡ empty
      → exec (overview_sql base tier from to bucket) ≡ some d
      → (or_base tier empty d (ask exec (overview_sql base none from to bucket))).1 ≡ some last
      → (t : Option Tier) × (exec (overview_sql base t from to bucket) ≡ some last)
        × (last.dataset ≡ [] → t ≡ none)
  answer_of none empty d base from to bucket e a h = (none, a ∙ h, λ _. refl)
  answer_of (some t) true d base from to bucket e a h = (none, h, λ _. refl)
  answer_of (some t) false d base from to bucket e a h = (some t, a ∙ h, λ blank. absurd (cc))

  -- The overview shows what one answer holds, which is the base table's if it holds no rows: each
  -- channel with readable rows gets one line, and the line has all of them in their order.
  pub fetch_overview-Shows :
      (base : Bytes) (views : List Bytes) (from0 to0 points : ℤ) {out : List Sparkline}
      → (fetch_overview j f exec base views from0 to0 points).1 ≡ some out
      → (tier : Option Tier) × (d : Dataset j.Value) × (rows : List (Channel × (ℤ × ℕ))) × (exec
            (overview_of base tier from0 to0 points)
          ≡ some d)
        × (d.dataset ≡ [] → tier ≡ none)
        × (overview_rows j f exec d ≡ some rows)
        × Shows rows out
  unfolding fetch_overview
  fetch_overview-Shows base views from0 to0 points h =
      let (width, bucket) = choose_bucket from0 to0 points in
      let (from, to) = snap from0 to0 width in
      let tier = pick width views base in
      let (last, a, b) = >>!-eq-some _ (λ d. answered (sparklines j f exec d)) h in
      let (d, a0, b0) = >>!-eq-some (ask exec (overview_sql base tier from to bucket)) _ a in
      let (t, asked, blank) = answer_of tier _ d base from to bucket refl a0 b0 in
      let (rows, c, shown) = sparklines-Shows last b in (t, last, rows, asked, blank, c, shown)
