-- ===== src/Archive/Grouping.antt =====
-- Rows split by channel: the loop that `fetch_overview` (timeseries/src/questdb/series.rs) and `run`
-- (timeseries/src/questdb/periods.rs) share, `find` the key or add it.
pub mod Splits
use rs_smarthome_nodes.Base.{Option, none, some, List, [], ◌∷◌, ◌++◌, if◌then◌else◌}
use rs_smarthome_nodes.Base.Keyed.{Key, same}

-- `filter_map`
unfoldable pub filter_map {ℓ κ} : {A : Type ℓ} {B : Type κ} → (A → Option B) → List A → List B
filter_map p [] = []
filter_map p (a ∷ as') =
    let rest = filter_map p as' in elim (p a) [ none ↦ rest | some b ↦ b ∷ rest ]

module _ {ℓ κ} {K : Type ℓ} {V : Type κ} ⦃k : Key K⦄ where
  unfoldable pub push_into : List (K × List V) → K → V → List (K × List V)
  push_into [] key v = (key, v ∷ []) ∷ []
  push_into ((a, vs) ∷ out) key v =
      let rest = push_into out key v in
      if same a key then (a, vs ++ v ∷ []) ∷ out else (a, vs) ∷ rest

  unfoldable pub group_onto : List (K × List V) → List (K × V) → List (K × List V)
  group_onto out [] = out
  group_onto out ((key, v) ∷ rows) = group_onto (push_into out key v) rows

  abbrev pub grouped : List (K × V) → List (K × List V)
  grouped rows = group_onto [] rows
