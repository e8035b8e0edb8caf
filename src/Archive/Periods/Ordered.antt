-- ===== src/Archive/Periods/Ordered.antt =====
-- The rows of a channel in the order of their times (`run` of timeseries/src/questdb/periods.rs).
use mathlib.Core.List.Perm
use mathlib.Core.List.{Perm}
use rs_smarthome_nodes.Base.{
  ◌≡◌, refl, sym, ap, ◌∙◌, subst, Option, none, some, List, [], ◌∷◌, map, arith, All, bind-eq-some,
  Bool-cases, inl, inr, if-keeps,
}
use rs_smarthome_nodes.Base.Bytes.{Bytes}
use rs_smarthome_nodes.Base.Double.{Float64}
use rs_smarthome_nodes.Base.Int.{ℤ, ◌≤ℤ◌, ltb_ℤ}
use rs_smarthome_nodes.Base.Keyed.{get, pair_key}
use rs_smarthome_nodes.Archive.Database.{Dataset}
use rs_smarthome_nodes.Archive.Grouping.{grouped}
use rs_smarthome_nodes.Archive.Grouping.Splits.{values, joined, get-grouped}
use rs_smarthome_nodes.Archive.Measurements.{Json}
use rs_smarthome_nodes.Archive.Periods.{Row}
use rs_smarthome_nodes.Archive.Periods.Fetching.{
  ChannelRows, insert_row, sort_by_time, in_order, period_rows, channels_in,
}
use rs_smarthome_nodes.Archive.Shared.{Channel}

abbrev pub Ascending : List Row → Type 0
Ascending [] = Unit {0}
Ascending (r ∷ rows) = All (λ x. r.t ≤ℤ x.t) rows × Ascending rows

insert_row-All :
    (P : Row → Type 0) (r : Row) (rows : List Row) → P r → All P rows → All P (insert_row r rows)
unfolding insert_row
insert_row-All P r [] p h = (p, tt)
insert_row-All P r (x ∷ xs) p (q, h) =
    if-keeps (All P) (ltb_ℤ x.t r.t) (q, insert_row-All P r xs p h) (p, (q, h))

All-later :
    (a b : ℤ) (rows : List Row) → a ≤ℤ b → All (λ x. b ≤ℤ x.t) rows → All (λ x. a ≤ℤ x.t) rows
All-later a b [] h k = tt
All-later a b (x ∷ xs) h (q, k) = (omega arith, All-later a b xs h k)

insert_row-Ascending : (r : Row) (rows : List Row) → Ascending rows → Ascending (insert_row r rows)
unfolding insert_row
insert_row-Ascending r [] a = (tt, tt)
insert_row-Ascending r (x ∷ xs) (h, a) = elim (Bool-cases (ltb_ℤ x.t r.t)) [
  | inl before ↦
      rw before
        (insert_row-All (λ y. x.t ≤ℤ y.t) r xs (ground arith) h, insert_row-Ascending r xs a)
  | inr behind ↦
      let le : r.t ≤ℤ x.t = ground arith in rw behind ((le, All-later r.t x.t xs le h), (h, a))
]

insert_row-perm : (r : Row) (rows : List Row) → Perm (insert_row r rows) (r ∷ rows)
unfolding insert_row
insert_row-perm r [] = Perm.rfl
insert_row-perm r (x ∷ xs) =
    if-keeps (λ (l : List Row). Perm l (r ∷ x ∷ xs)) (ltb_ℤ x.t r.t)
      (Perm.trans (Perm.cons x (insert_row-perm r xs)) (Perm.swap r x xs)) Perm.rfl

pub sort_by_time-Ascending : (rows : List Row) → Ascending (sort_by_time rows)
unfolding sort_by_time
sort_by_time-Ascending [] = tt
sort_by_time-Ascending (r ∷ rows) =
    insert_row-Ascending r (sort_by_time rows) (sort_by_time-Ascending rows)

pub sort_by_time-perm : (rows : List Row) → Perm (sort_by_time rows) rows
unfolding sort_by_time
sort_by_time-perm [] = Perm.rfl
sort_by_time-perm (r ∷ rows) =
    Perm.trans (insert_row-perm r (sort_by_time rows)) (Perm.cons r (sort_by_time-perm rows))

sorted : Option (List Row) → Option (List Row)
sorted none = none
sorted (some rows) = some (sort_by_time rows)

get-in_order :
    (out : List ChannelRows) (c : Channel) → get (map in_order out) c ≡ sorted (get out c)
unfolding get sorted
get-in_order [] c = refl
get-in_order ((key, rows) ∷ out) c = ground (arith, get-in_order out c)

-- Rows of a channel, in the order of their times, that are all of these.
pub record Orders (all rows : List Row) : Type 0 where
  pub ascending : Ascending rows
  pub same : Perm rows all

sorted-Orders :
    (all : List Row) {rows : List Row} → sorted (joined none all) ≡ some rows → Orders all rows
unfolding sorted
sorted-Orders [] h = cc
sorted-Orders (r ∷ all) {rows} h =
    let same : sort_by_time (r ∷ all) ≡ rows = cc in
    subst (Orders (r ∷ all)) same
      (record { ascending = sort_by_time-Ascending (r ∷ all); same = sort_by_time-perm (r ∷ all) })

module _ (j : Json) (f : Float64) (exec : Bytes → Option (Dataset j.Value)) where
  -- The rows of a channel are all its readable rows of the answer, in the order of their times,
  -- whatever order the answer has.
  pub channels_in-Orders :
      (d : Dataset j.Value) {out : List ChannelRows} (c : Channel) {rows : List Row}
      → channels_in j f exec d ≡ some out
      → get out c ≡ some rows
      → (all : List (Channel × Row)) × (period_rows j f exec d ≡ some all)
        × Orders (values c all) rows
  unfolding channels_in
  channels_in-Orders d {out} c h k =
      let (all, a, b) = bind-eq-some (period_rows j f exec d) _ h in
      let ordered : map in_order (grouped all) ≡ out = cc in
      let found =
        sym (ap sorted (get-grouped all c))
        ∙ sym (get-in_order (grouped all) c)
        ∙ ap (λ (o : List ChannelRows). get o c) ordered
        ∙ k in
      (all, a, sorted-Orders (values c all) found)
