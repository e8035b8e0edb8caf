-- ===== src/Archive/Series/Literals.antt =====
-- What stands in quotes in a chart's statement (timeseries/src/questdb/series.rs).
use Prim.Native.String.{String}
use rs_smarthome_nodes.Base.{
  &&_parts, leb, ℕ, suc, ◌≡◌, refl, sym, subst, Bool, true, ◌&&◌, Option, none, some, List, [], ◌∷◌,
  ◌++◌, arith, All, append_assoc, bind-eq-some, Bool-cases, inl, inr, if-keeps, ltb, zero, ◌+◌, ◌/◌,
  ◌%◌,
}
use rs_smarthome_nodes.Base.Bytes.{Bytes}
use rs_smarthome_nodes.Base.Int.{ℤ, pos, negsuc}
use rs_smarthome_nodes.Base.Text.{
  codes, split, split-append, split-last, Lacks, append-Lacks, lacks, lacks-Lacks,
}
use rs_smarthome_nodes.Base.Text.Decimal.{show, show_onto}
use rs_smarthome_nodes.Archive.Lines.{show_i64}
use rs_smarthome_nodes.Archive.Rollup.{Tier, view, pick, fits, days, hours, minutes}
use rs_smarthome_nodes.Archive.Series.{
  all_literal, checked_literal, series_sql, table_of, aggregates_of, window_text, Step, find_step,
  lower_steps, Request, first_sql, snap, choose_bucket, wanted_width,
}

pub all_literal-Lacks : (s : Bytes) → all_literal s ≡ true → Lacks 39 s
unfolding all_literal
all_literal-Lacks [] h = tt
all_literal-Lacks (c ∷ s) h = ground (arith, all_literal-Lacks s)

pub checked_literal-Lacks :
    (raw : Bytes) {s : Bytes} → checked_literal raw ≡ some s → (s ≡ raw) × (Lacks 39 raw)
unfolding checked_literal
checked_literal-Lacks raw h = elim (Bool-cases (all_literal raw)) [
  | inl fine ↦ (ground arith, all_literal-Lacks raw fine)
  | inr wrong ↦ absurd (ground arith)
]

show_onto-Lacks : (fuel n : ℕ) (rest : Bytes) → Lacks 39 rest → Lacks 39 (show_onto fuel n rest)
unfolding show_onto
show_onto-Lacks zero n rest h = h
show_onto-Lacks (suc fuel) n rest h =
    if-keeps (Lacks 39) (ltb n 10) (ground arith, h)
      (show_onto-Lacks fuel (n / 10) ((48 + n % 10) ∷ rest) (ground arith, h))

pub show_i64-Lacks : (z : ℤ) → Lacks 39 (show_i64 z)
unfolding show_i64 show
show_i64-Lacks (pos n) = show_onto-Lacks 20 n [] tt
show_i64-Lacks (negsuc n) = (refl, show_onto-Lacks 20 (suc n) [] tt)

pub text-Lacks : (s : String) → lacks 39 (codes s) ≡ true → Lacks 39 (codes s)
text-Lacks s h = lacks-Lacks 39 (codes s) h

window_text-Lacks : (from to : ℤ) → Lacks 39 (window_text from to)
window_text-Lacks from to =
    append-Lacks 39 (codes " AND timestamp >= cast(") _ (text-Lacks " AND timestamp >= cast(" refl)
      (append-Lacks 39 (show_i64 from) _ (show_i64-Lacks from) (
        append-Lacks 39 (codes " AS timestamp) AND timestamp < cast(") _
          (text-Lacks " AS timestamp) AND timestamp < cast(" refl)
          (append-Lacks 39 (show_i64 to) _ (show_i64-Lacks to)
            (text-Lacks " AS timestamp) SAMPLE BY " refl))))

pub aggregates_of-Lacks : (tier : Option Tier) → Lacks 39 (aggregates_of tier)
aggregates_of-Lacks none = text-Lacks "min(value) lo, max(value) hi, avg(value) av" refl
aggregates_of-Lacks (some t) = text-Lacks "min(lo) lo, max(hi) hi, sum(sv)/sum(n) av" refl

-- What stands before the first quote, and behind the last one.
before_quotes : Bytes → Option Tier → Bytes
before_quotes base tier =
    codes "SELECT cast(timestamp AS long) t, lo, hi, av FROM (SELECT timestamp, "
    ++ (aggregates_of tier ++ (codes " FROM " ++ (table_of base tier ++ codes " WHERE node = ")))

before_quotes-Lacks :
    (base : Bytes) (tier : Option Tier)
    → Lacks 39 (table_of base tier)
    → Lacks 39 (before_quotes base tier)
unfolding before_quotes
before_quotes-Lacks base tier h =
    append-Lacks 39 (codes "SELECT cast(timestamp AS long) t, lo, hi, av FROM (SELECT timestamp, ")
      _ (text-Lacks "SELECT cast(timestamp AS long) t, lo, hi, av FROM (SELECT timestamp, " refl)
      (append-Lacks 39 (aggregates_of tier) _ (aggregates_of-Lacks tier) (
        append-Lacks 39 (codes " FROM ") _ (text-Lacks " FROM " refl)
          (append-Lacks 39 (table_of base tier) _ h (text-Lacks " WHERE node = " refl))))

after_quotes : ℤ → ℤ → Bytes → Bytes
after_quotes from to bucket = window_text from to ++ (bucket ++ codes " ALIGN TO CALENDAR)")

after_quotes-Lacks :
    (from to : ℤ) (bucket : Bytes) → Lacks 39 bucket → Lacks 39 (after_quotes from to bucket)
unfolding after_quotes
after_quotes-Lacks from to bucket h =
    append-Lacks 39 (window_text from to) _ (window_text-Lacks from to)
      (append-Lacks 39 bucket _ h (text-Lacks " ALIGN TO CALENDAR)" refl))

series_sql-quotes :
    (base : Bytes) (tier : Option Tier) (node sensor : Bytes) (from to : ℤ) (bucket : Bytes)
    → series_sql base tier node sensor from to bucket
      ≡ before_quotes base tier
        ++ 39
          ∷ (node
              ++ 39 ∷ (codes " AND sensor = " ++ 39 ∷ (sensor ++ 39 ∷ after_quotes from to bucket)))
unfolding series_sql before_quotes after_quotes
series_sql-quotes base tier node sensor from to bucket = simp append_assoc

-- The pieces of a chart's statement between the quotes: the second is the node and the fourth the
-- sensor.
split-series_sql :
    (base : Bytes) (tier : Option Tier) (node sensor : Bytes) (from to : ℤ) (bucket : Bytes)
    → Lacks 39 (table_of base tier)
    → Lacks 39 node
    → Lacks 39 sensor
    → Lacks 39 bucket
    → split 39 (series_sql base tier node sensor from to bucket)
      ≡ before_quotes base tier
        ∷ node
        ∷ codes " AND sensor = "
        ∷ sensor
        ∷ after_quotes from to bucket
        ∷ []
split-series_sql base tier node sensor from to bucket h k l m =
    rw
      (
        series_sql-quotes base tier node sensor from to bucket,
        split-append 39 (before_quotes base tier) _ (before_quotes-Lacks base tier h),
        split-append 39 node _ k,
        split-append 39 (codes " AND sensor = ") _ (text-Lacks " AND sensor = " refl),
        split-append 39 sensor _ l,
        split-last 39 (after_quotes from to bucket) (after_quotes-Lacks from to bucket m),
      )
      refl

pub pick-Lacks :
    (width : ℕ) (views : List Bytes) (base : Bytes)
    → Lacks 39 base
    → Lacks 39 (table_of base (pick width views base))
unfolding pick view
pick-Lacks width views base h =
    let plain = λ (o : Option Tier). Lacks 39 (table_of base o) in
    if-keeps plain (fits width views base days) (append-Lacks 39 base _ h (text-Lacks "_1d" refl)) (
      if-keeps plain (fits width views base hours)
        (append-Lacks 39 base _ h (text-Lacks "_1h" refl))
        (if-keeps plain (fits width views base minutes)
          (append-Lacks 39 base _ h (text-Lacks "_1m" refl)) h))

find_step-Lacks :
    (wanted : ℕ) (ss : List Step) → All (λ s. Lacks 39 (s.1)) ss → Lacks 39 (find_step wanted ss).1
unfolding find_step
find_step-Lacks wanted [] h = text-Lacks "30d" refl
find_step-Lacks wanted (s ∷ ss) (h, hs) =
    if-keeps (λ (t : Step). Lacks 39 (t.1)) (leb wanted (s.0)) h (find_step-Lacks wanted ss hs)

all_lack : List Step → Bool
all_lack [] = true
all_lack (s ∷ ss) = lacks 39 (s.1) && all_lack ss

all_lack-All : (ss : List Step) → all_lack ss ≡ true → All (λ s. Lacks 39 (s.1)) ss
unfolding all_lack
all_lack-All [] h = tt
all_lack-All (s ∷ ss) h =
    let (first, rest) = &&_parts (lacks 39 (s.1)) (all_lack ss) h in
    (lacks-Lacks 39 (s.1) first, all_lack-All ss rest)

lower_steps-lack : all_lack lower_steps ≡ true
unfolding all_lack lower_steps
lower_steps-lack = refl

-- The literals of a statement: the second and the fourth of the pieces between quotes, of five.
abbrev pub AreLiterals : Bytes → Bytes → List Bytes → Type 0
AreLiterals node sensor (before ∷ n ∷ between ∷ s ∷ after ∷ []) =
    (n ≡ node) × (between ≡ codes " AND sensor = ") × (s ≡ sensor)
AreLiterals node sensor _ = ⊥

pub choose_bucket-Lacks : (from to points : ℤ) → Lacks 39 (choose_bucket from to points).1
unfolding choose_bucket
choose_bucket-Lacks from to points =
    find_step-Lacks (wanted_width from to points) lower_steps
      (all_lack-All lower_steps lower_steps-lack)

pub series_sql-AreLiterals :
    (base : Bytes) (tier : Option Tier) (node sensor : Bytes) (from to : ℤ) (bucket : Bytes)
    {n s : Bytes}
    → Lacks 39 (table_of base tier)
    → (node ≡ n) × (Lacks 39 n)
    → (sensor ≡ s) × (Lacks 39 s)
    → Lacks 39 bucket
    → AreLiterals n s (split 39 (series_sql base tier node sensor from to bucket))
series_sql-AreLiterals base tier node sensor from to bucket h (p, k) (q, l) m =
    rw
      (split-series_sql base tier node sensor from to bucket h (subst (Lacks 39) (sym p) k)
        (subst (Lacks 39) (sym q) l) m)
      (p, refl, q)

MadeLiterals : Bytes → Bytes → Option Bytes → Type 0
MadeLiterals node sensor none = Unit {0}
MadeLiterals node sensor (some sql) = AreLiterals node sensor (split 39 sql)

-- The statement of a chart holds two quoted texts, which are the node and the sensor of the
-- request as they are, for a table's name without quotes: whatever names are asked for, they end
-- no quotes.
pub first_sql-AreLiterals :
    (base : Bytes) (views : List Bytes) (r : Request) {sql : Bytes}
    → Lacks 39 base
    → first_sql base views r ≡ some sql
    → AreLiterals r.node r.sensor (split 39 sql)
unfolding first_sql MadeLiterals
first_sql-AreLiterals base views r h e =
    let (node, n, rest) = bind-eq-some (checked_literal r.node) _ e in
    let (sensor, s, made) = bind-eq-some (checked_literal r.sensor) _ rest in
    let (width, bucket) = choose_bucket r.from r.to r.points in
    let (from, to) = snap r.from r.to width in
    subst (MadeLiterals r.node r.sensor) made (
      series_sql-AreLiterals base (pick width views base) node sensor from to bucket
        (pick-Lacks width views base h) (checked_literal-Lacks r.node n)
        (checked_literal-Lacks r.sensor s) (choose_bucket-Lacks r.from r.to r.points))
