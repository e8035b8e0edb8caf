-- ===== src/Archive/Rollup.antt =====
-- The rollup tiers and the choice among them (timeseries/src/questdb/rollup.rs).
pub mod Choice
use rs_smarthome_nodes.Base.{
  ℕ, Bool, true, false, ◌&&◌, ◌||◌, Option, none, some, List, [], ◌∷◌, ◌++◌, leb, reverse,
  if◌then◌else◌,
}
use rs_smarthome_nodes.Base.Bytes.{Bytes}
use rs_smarthome_nodes.Base.Text.{codes, bytes_eq}

abbrev pub minute : ℕ
minute = 60_000_000

abbrev pub hour : ℕ
hour = 3_600_000_000

abbrev pub day : ℕ
day = 86_400_000_000

pub data Keeps : Type 0 where
  with_the_raw_table : Keeps
  long_term : Keeps

pub record Tier : Type 0 where
  pub suffix : Bytes
  pub bucket : Bytes
  pub grain : ℕ
  pub source_suffix : Option Bytes
  pub partition : Bytes
  pub keeps : Keeps

abbrev pub minutes : Tier
minutes = record {
  suffix = codes "_1m";
  bucket = codes "1m";
  grain = minute;
  source_suffix = none;
  partition = codes "DAY";
  keeps = with_the_raw_table;
}

abbrev pub hours : Tier
hours = record {
  suffix = codes "_1h";
  bucket = codes "1h";
  grain = hour;
  source_suffix = some (codes "_1m");
  partition = codes "MONTH";
  keeps = long_term;
}

abbrev pub days : Tier
days = record {
  suffix = codes "_1d";
  bucket = codes "1d";
  grain = day;
  source_suffix = some (codes "_1h");
  partition = codes "YEAR";
  keeps = long_term;
}

abbrev pub tiers : List Tier
tiers = minutes ∷ hours ∷ days ∷ []

unfoldable pub view : Tier → Bytes → Bytes
view t base = base ++ t.suffix

abbrev pub suffixed : Bytes → Option Bytes → Bytes
suffixed base none = base
suffixed base (some suffix) = base ++ suffix

unfoldable pub source : Tier → Bytes → Bytes
source t base = suffixed base t.source_suffix

unfoldable pub reads_raw : Tier → Bool
reads_raw t = elim t.source_suffix [ none ↦ true | some suffix ↦ false ]

unfoldable pub contains_text : List Bytes → Bytes → Bool
contains_text [] text = false
contains_text (v ∷ vs) text = bytes_eq v text || contains_text vs text

unfoldable pub find_tier : (Tier → Bool) → List Tier → Option Tier
find_tier test [] = none
find_tier test (t ∷ ts) = if test t then some t else find_tier test ts

unfoldable pub fits : ℕ → List Bytes → Bytes → Tier → Bool
unfolding contains_text view
fits interval available base t = leb t.grain interval && contains_text available (view t base)

unfoldable pub pick : ℕ → List Bytes → Bytes → Option Tier
unfolding fits find_tier
pick interval available base = find_tier (fits interval available base) (reverse tiers)
