-- ===== src/Archive/Periods/Sources.antt =====
-- Where a channel's periods come from (`fetch_rows` of timeseries/src/questdb/periods.rs).
use rs_smarthome_nodes.Base.{◌≡◌, ◌⊎◌, true, false, not, Option, none, some, List, []}
use rs_smarthome_nodes.Base.Bytes.{Bytes}
use rs_smarthome_nodes.Base.Double.{Float64}
use rs_smarthome_nodes.Base.Int.{ℤ}
use rs_smarthome_nodes.Base.Keyed.{get, pair_key}
use rs_smarthome_nodes.Archive.Database.{Dataset}
use rs_smarthome_nodes.Archive.Measurements.{Json}
use rs_smarthome_nodes.Archive.Periods.{Period}
use rs_smarthome_nodes.Archive.Periods.Fetching.{
  ChannelRows, Found, periods_sql, contains_channel, retain, checked_names, meters_sql, run,
}
use rs_smarthome_nodes.Archive.Series.{table_of}
use rs_smarthome_nodes.Archive.Series.Fetching.{is_empty}
use rs_smarthome_nodes.Archive.Rollup.{Tier}
use rs_smarthome_nodes.Archive.Shared.{Channel}

-- A channel's rows: of a meter those that the meters' statement found, and of any other those of
-- the first answer.
pub record Comes (meters : List Channel) (first found out : List ChannelRows) : Type 0 where
  pub meter : (c : Channel) → contains_channel meters c ≡ true → get out c ≡ get found c
  pub other : (c : Channel) → contains_channel meters c ≡ false → get out c ≡ get first c

retained : List Channel → List ChannelRows → List ChannelRows
retained meters first = retain (λ key. not (contains_channel meters key)) first

module _ (j : Json) (f : Float64) (exec : Bytes → Option (Dataset j.Value)) where
  -- What `fetch_rows` returns, of a first answer.
  pub record Split (base : Bytes) (meters : List Channel) (from now : ℤ) (period : Period)
      (first result : Found) : Type 0 where
    pub found : List ChannelRows
    pub nodes : List Bytes
    pub sensors : List Bytes
    pub same_source : result.0 ≡ first.0
    pub checked : checked_names [] [] meters ≡ some (nodes, sensors)
    pub asked :
        (c : Channel)
        → contains_channel meters c ≡ true
        → (run j f exec (meters_sql base nodes sensors from now period)).1 ≡ some found
    pub comes : Comes meters (first.1) found (result.1)

  -- A first answer that a table gave, the base table if it holds nothing, and names.
  abbrev pub IsNamed : Bytes → Option Tier → ℤ → ℤ → Period → Found → Type 0
  IsNamed base tier from now period first =
      (t : Option Tier) × ((t ≡ tier) ⊎ (t ≡ none))
      × ((run j f exec (periods_sql base t from now period)).1 ≡ some (first.1))
      × (first.0 ≡ table_of base t)
      × (is_empty (first.1) ≡ true → t ≡ none)
