-- ===== src/Archive/Retention.antt =====
-- How long the database keeps rows: `Retention` (timeseries/src/config.rs). The messages of the
-- errors are constructors.
mod Units
use rs_smarthome_nodes.Base.{
  ℕ, ◌+◌, ◌-◌, Bool, true, false, ◌||◌, Option, none, some, [], ◌∷◌, ◌++◌, ◌==◌, if◌then◌else◌,
  drop, length,
}
use rs_smarthome_nodes.Base.Bytes.{Bytes}
use rs_smarthome_nodes.Base.Result.{Result, ok, err, ◌>>?◌, ok_or}
use rs_smarthome_nodes.Base.Text.{codes, bytes_eq, trim, within}
use rs_smarthome_nodes.Base.Text.Decimal.{is_digit, parse_u32, show}

-- `none` keeps rows for ever.
pub record Retention : Type 0 where
  pub ttl : Option Bytes

pub data RetentionError : Type 0 where
  no_number bad_count no_periods bad_unit : RetentionError

unfoldable pub leading_digits : Bytes → Bytes
leading_digits [] = []
leading_digits (c ∷ cs) = let rest = leading_digits cs in if is_digit c then c ∷ rest else []

unfoldable pub to_ascii_uppercase : Bytes → Bytes
to_ascii_uppercase [] = []
to_ascii_uppercase (c ∷ cs) = (if within 97 122 c then c - 32 else c) ∷ to_ascii_uppercase cs

abbrev pub is_one_of : Bytes → Bytes → Bytes → Bytes → Bool
is_one_of unit a b c = bytes_eq unit a || bytes_eq unit b || bytes_eq unit c

unfoldable pub unit_of : Bytes → Option Bytes
unit_of unit =
    if is_one_of unit (codes "H") (codes "HOUR") (codes "HOURS")
    then some (codes "HOURS")
    else if is_one_of unit (codes "D") (codes "DAY") (codes "DAYS")
    then some (codes "DAYS")
    else if is_one_of unit (codes "W") (codes "WEEK") (codes "WEEKS")
    then some (codes "WEEKS")
    else if is_one_of unit (codes "M") (codes "MONTH") (codes "MONTHS")
    then some (codes "MONTHS")
    else if is_one_of unit (codes "Y") (codes "YEAR") (codes "YEARS")
    then some (codes "YEARS")
    else none

abbrev pub with_unit : ℕ → Bytes → Retention
with_unit count unit = record { ttl = some (show count ++ 32 ∷ unit) }

abbrev pub counted : ℕ → Bytes → Result RetentionError Retention
counted count rest =
    if count == 0
    then err no_periods
    else (ok_or (unit_of (to_ascii_uppercase (trim rest))) bad_unit >>? λ unit.
        ok (with_unit count unit))

abbrev pub with_digits : Bytes → Bytes → Result RetentionError Retention
with_digits raw [] = err no_number
with_digits raw (d ∷ ds) =
    ok_or (parse_u32 (d ∷ ds)) bad_count >>? λ count. counted count (drop (length (d ∷ ds)) raw)

abbrev pub parse_trimmed : Bytes → Result RetentionError Retention
parse_trimmed [] = ok (record { ttl = none })
parse_trimmed (c ∷ cs) = with_digits (c ∷ cs) (leading_digits (c ∷ cs))

unfoldable pub parse : Bytes → Result RetentionError Retention
unfolding leading_digits to_ascii_uppercase unit_of
parse raw = parse_trimmed (trim raw)

unfoldable pub clause : Retention → Bytes
clause r = elim r.ttl [ none ↦ [] | some ttl ↦ codes " TTL " ++ ttl ]

unfoldable pub is_set : Retention → Bool
is_set r = elim r.ttl [ none ↦ false | some ttl ↦ true ]
