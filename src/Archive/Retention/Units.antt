-- ===== src/Archive/Retention/Units.antt =====
-- What a retention that is accepted says (timeseries/src/config.rs).
use rs_smarthome_nodes.Base.{
  ℕ, ◌<◌, ◌≡◌, inl, inr, refl, Option, none, some, [], ◌∷◌, ◌++◌, ◌==◌, arith, Bool-cases, drop,
  length, subst,
}
use rs_smarthome_nodes.Base.Bytes.{Bytes}
use rs_smarthome_nodes.Base.Result.{Result, ok, err, ◌>>?◌, ok_or}
use rs_smarthome_nodes.Base.Text.{trim}
use rs_smarthome_nodes.Base.Text.Decimal.{parse_u32, show}
use rs_smarthome_nodes.Archive.Retention.{
  Retention, RetentionError, leading_digits, to_ascii_uppercase, unit_of, with_unit, counted,
  with_digits, parse_trimmed, parse,
}

-- A positive number of hours, days, weeks, months or years, or no limit; or an error.
abbrev pub IsPeriods : Option Bytes → Type 0
IsPeriods none = Unit {0}
IsPeriods (some ttl) =
    (count : ℕ) × (short : Bytes) × (unit : Bytes) × (0 < count)
    × (unit_of short ≡ some unit)
    × (ttl ≡ show count ++ 32 ∷ unit)

abbrev IsUsable : Result RetentionError Retention → Type 0
IsUsable (ok r) = IsPeriods r.ttl
IsUsable (err e) = Unit {0}

united :
    (count : ℕ) (short : Bytes) (unit : Option Bytes)
    → 0 < count
    → unit_of short ≡ unit
    → IsUsable (ok_or unit RetentionError.bad_unit >>? λ u. ok (with_unit count u))
united count short none h e = tt
united count short (some unit) h e = (count, short, unit, h, e, refl)

counted-IsUsable : (count : ℕ) (rest : Bytes) → IsUsable (counted count rest)
counted-IsUsable count rest = elim (Bool-cases (count == 0)) [
  | inl e ↦ rw e tt
  | inr e ↦ rw e (united count (to_ascii_uppercase (trim rest)) _ (ground arith) refl)
]

with_count :
    (count : Option ℕ) (rest : Bytes)
    → IsUsable (ok_or count RetentionError.bad_count >>? λ n. counted n rest)
with_count none rest = tt
with_count (some n) rest = counted-IsUsable n rest

with_digits-IsUsable : (raw digits : Bytes) → IsUsable (with_digits raw digits)
with_digits-IsUsable raw [] = tt
with_digits-IsUsable raw (d ∷ ds) = with_count (parse_u32 (d ∷ ds)) (drop (length (d ∷ ds)) raw)

parse_trimmed-IsUsable : (raw : Bytes) → IsUsable (parse_trimmed raw)
parse_trimmed-IsUsable [] = tt
parse_trimmed-IsUsable (c ∷ cs) = with_digits-IsUsable (c ∷ cs) (leading_digits (c ∷ cs))

-- A retention that is accepted is no limit, or a positive number of one of the five units, as the
-- database spells it.
pub parse-IsPeriods : (raw : Bytes) {r : Retention} → parse raw ≡ ok r → IsPeriods r.ttl
unfolding parse
parse-IsPeriods raw e = subst IsUsable e (parse_trimmed-IsUsable (trim raw))
