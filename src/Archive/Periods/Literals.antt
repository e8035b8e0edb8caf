-- ===== src/Archive/Periods/Literals.antt =====
-- What stands in quotes in the statements of `fetch_rows` (timeseries/src/questdb/periods.rs).
use rs_smarthome_nodes.Base.{
  ◌≡◌, ◌⊎◌, inl, inr, refl, ap, subst, true, Option, some, List, [], ◌∷◌, ◌++◌, arith, All,
  bind-eq-some, Bool-cases, append_assoc, if-keeps,
}
use rs_smarthome_nodes.Base.Bytes.{Bytes}
use rs_smarthome_nodes.Base.Int.{ℤ}
use rs_smarthome_nodes.Base.Text.{codes, Lacks, append-Lacks}
use rs_smarthome_nodes.Archive.Database.Chained.{All-append}
use rs_smarthome_nodes.Archive.Database.Quoted.{
  IsQuoted, Opens, Opens-append, Opens-plain, Opens-quoted, Opens-IsQuoted,
}
use rs_smarthome_nodes.Archive.Periods.{Period, daily, weekly, monthly, sample, hourly}
use rs_smarthome_nodes.Archive.Periods.Fetching.{
  time_zone, sampled_text, periods_sql, listed, meters_sql, with_name, checked_names,
}
use rs_smarthome_nodes.Archive.Rollup.{Tier, view, hours, contains_text}
use rs_smarthome_nodes.Archive.Series.{all_literal, checked_literal, table_of}
use rs_smarthome_nodes.Archive.Series.Literals.{
  all_literal-Lacks, show_i64-Lacks, aggregates_of-Lacks, text-Lacks,
}
use rs_smarthome_nodes.Archive.Shared.{Channel}

-- A name of letters, digits, `_`, `-`, `.` and `:`, or the time zone.
abbrev pub IsHarmless : Bytes → Type 0
IsHarmless x = (all_literal x ≡ true) ⊎ (x ≡ time_zone)

abbrev pub AreLiteral : List Bytes → Type 0
AreLiteral = All (λ x. all_literal x ≡ true)

name-Opens : (x : Bytes) → all_literal x ≡ true → Opens IsHarmless (39 ∷ (x ++ 39 ∷ []))
name-Opens x h = Opens-quoted IsHarmless x (all_literal-Lacks x h) (inl h)

listed-Opens : (xs : List Bytes) → AreLiteral xs → Opens IsHarmless (listed xs)
unfolding listed Opens
listed-Opens [] h = λ b q. q
listed-Opens (x ∷ []) (h, t) = name-Opens x h
listed-Opens (x ∷ y ∷ xs) (h, hs) =
    subst (Opens IsHarmless)
      (ap (◌∷◌ 39) (append_assoc x (39 ∷ []) (codes ", " ++ listed (y ∷ xs))))
      (Opens-append IsHarmless (39 ∷ (x ++ 39 ∷ [])) (codes ", " ++ listed (y ∷ xs))
        (name-Opens x h)
        (Opens-append IsHarmless (codes ", ") (listed (y ∷ xs))
          (Opens-plain IsHarmless (codes ", ") (text-Lacks ", " refl)) (listed-Opens (y ∷ xs) hs)))

sample-Lacks : (period : Period) → Lacks 39 (sample period)
unfolding sample
sample-Lacks daily = text-Lacks "1d" refl
sample-Lacks weekly = text-Lacks "1w" refl
sample-Lacks monthly = text-Lacks "1M" refl

zone-Opens : Opens IsHarmless (codes " ALIGN TO CALENDAR TIME ZONE '" ++ (time_zone ++ codes "')"))
zone-Opens =
    Opens-append IsHarmless (codes " ALIGN TO CALENDAR TIME ZONE ") (codes "'Europe/Berlin')")
      (Opens-plain IsHarmless (codes " ALIGN TO CALENDAR TIME ZONE ")
        (text-Lacks " ALIGN TO CALENDAR TIME ZONE " refl))
      (Opens-append IsHarmless (codes "'Europe/Berlin'") (codes ")")
        (Opens-quoted IsHarmless time_zone (text-Lacks "Europe/Berlin" refl) (inr refl))
        (Opens-plain IsHarmless (codes ")") (text-Lacks ")" refl)))

-- A literal text before the rest of a statement.
plain_then : (a b : Bytes) → Lacks 39 a → Opens IsHarmless b → Opens IsHarmless (a ++ b)
plain_then a b h k = Opens-append IsHarmless a b (Opens-plain IsHarmless a h) k

sampled_text-Opens :
    (from to : ℤ) (period : Period) → Opens IsHarmless (sampled_text from to period)
sampled_text-Opens from to period =
    plain_then (codes "timestamp >= cast(") _ (text-Lacks "timestamp >= cast(" refl) (
      plain_then _ _ (show_i64-Lacks from) (
        plain_then (codes " AS timestamp) AND timestamp < cast(") _
          (text-Lacks " AS timestamp) AND timestamp < cast(" refl)
          (plain_then _ _ (show_i64-Lacks to) (
            plain_then (codes " AS timestamp) SAMPLE BY ") _
              (text-Lacks " AS timestamp) SAMPLE BY " refl)
              (plain_then _ _ (sample-Lacks period) zone-Opens)))))

pub periods_sql-IsQuoted :
    (base : Bytes) (tier : Option Tier) (from to : ℤ) (period : Period)
    → Lacks 39 (table_of base tier)
    → IsQuoted IsHarmless (periods_sql base tier from to period)
unfolding periods_sql
periods_sql-IsQuoted base tier from to period h = Opens-IsQuoted IsHarmless _ (
    plain_then (codes "SELECT cast(timestamp AS long) t, node, sensor, lo, hi, av FROM (") _
      (text-Lacks "SELECT cast(timestamp AS long) t, node, sensor, lo, hi, av FROM (" refl)
      (plain_then (codes "SELECT timestamp, node, sensor, ") _
        (text-Lacks "SELECT timestamp, node, sensor, " refl)
        (plain_then _ _ (aggregates_of-Lacks tier) (
          plain_then (codes " FROM ") _ (text-Lacks " FROM " refl) (
            plain_then _ _ h (
              plain_then (codes " WHERE ") _ (text-Lacks " WHERE " refl)
                (sampled_text-Opens from to period)))))))

pub meters_sql-IsQuoted :
    (base : Bytes) (nodes sensors : List Bytes) (from to : ℤ) (period : Period)
    → Lacks 39 base
    → AreLiteral nodes
    → AreLiteral sensors
    → IsQuoted IsHarmless (meters_sql base nodes sensors from to period)
unfolding meters_sql
meters_sql-IsQuoted base nodes sensors from to period h ns ss = Opens-IsQuoted IsHarmless _ (
    plain_then (codes "SELECT cast(timestamp AS long) t, node, sensor, lo, hi, av, lv FROM (") _
      (text-Lacks "SELECT cast(timestamp AS long) t, node, sensor, lo, hi, av, lv FROM (" refl)
      (plain_then
        (codes "SELECT timestamp, node, sensor, min(value) lo, max(value) hi, avg(value) av, ") _
        (text-Lacks "SELECT timestamp, node, sensor, min(value) lo, max(value) hi, avg(value) av, "
          refl)
        (plain_then (codes "last(value) lv FROM ") _ (text-Lacks "last(value) lv FROM " refl) (
          plain_then _ _ h (
            plain_then (codes " WHERE node IN (") _ (text-Lacks " WHERE node IN (" refl) (
              Opens-append IsHarmless (listed nodes) _ (listed-Opens nodes ns) (
                plain_then (codes ") AND sensor IN (") _ (text-Lacks ") AND sensor IN (" refl) (
                  Opens-append IsHarmless (listed sensors) _ (listed-Opens sensors ss) (
                    plain_then (codes ") AND ") _ (text-Lacks ") AND " refl)
                      (sampled_text-Opens from to period))))))))))

checked_literal-literal :
    (raw : Bytes) {s : Bytes} → checked_literal raw ≡ some s → all_literal s ≡ true
unfolding checked_literal
checked_literal-literal raw {s} h = elim (Bool-cases (all_literal raw)) [
  | inl fine ↦ let same : raw ≡ s = ground arith in subst (λ x. all_literal x ≡ true) same fine
  | inr wrong ↦ absurd (ground arith)
]

with_name-AreLiteral :
    (names : List Bytes) (name : Bytes)
    → AreLiteral names
    → all_literal name ≡ true
    → AreLiteral (with_name names name)
with_name-AreLiteral names name h k =
    if-keeps AreLiteral (contains_text names name) h (All-append _ names (name ∷ []) h (k, tt))

pub checked_names-AreLiteral :
    (nodes sensors : List Bytes) (meters : List Channel) {ns ss : List Bytes}
    → AreLiteral nodes
    → AreLiteral sensors
    → checked_names nodes sensors meters ≡ some (ns, ss)
    → AreLiteral ns × AreLiteral ss
unfolding checked_names
checked_names-AreLiteral nodes sensors [] h k e =
    let p : nodes ≡ _ = cc in
    let q : sensors ≡ _ = cc in (subst AreLiteral p h, subst AreLiteral q k)
checked_names-AreLiteral nodes sensors ((node, sensor) ∷ meters) h k e =
    let (n, a, e1) = bind-eq-some (checked_literal node) _ e in
    let (s, b, e2) = bind-eq-some (checked_literal sensor) _ e1 in
    checked_names-AreLiteral (with_name nodes n) (with_name sensors s) meters
      (with_name-AreLiteral nodes n h (checked_literal-literal node a))
      (with_name-AreLiteral sensors s k (checked_literal-literal sensor b)) e2

pub hourly-Lacks :
    (views : List Bytes) (base : Bytes)
    → Lacks 39 base
    → Lacks 39 (table_of base (hourly views base))
unfolding hourly view
hourly-Lacks views base h =
    if-keeps (λ (o : Option Tier). Lacks 39 (table_of base o))
      (contains_text views (view hours base))
      (append-Lacks 39 base (codes "_1h") h (text-Lacks "_1h" refl)) h
