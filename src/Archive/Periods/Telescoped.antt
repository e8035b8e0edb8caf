-- ===== src/Archive/Periods/Telescoped.antt =====
-- What a meter's periods add up to (timeseries/src/questdb/periods.rs).
use rs_smarthome_nodes.Base.{
  ℕ, ◌-◌, ◌≡◌, refl, Option, none, some, List, [], ◌∷◌, ◌++◌, map, length, drop, arith,
  length-append, All,
}
use rs_smarthome_nodes.Base.Double.{Float64}
use rs_smarthome_nodes.Base.Int.{ℤ, pos, ◌+ℤ◌, ◌-ℤ◌, int_laws}
use rs_smarthome_nodes.Archive.Periods.{Row, Bucket, with_previous, consumption, bucket_of, buckets}

joined : (a b c : ℤ) → b -ℤ c +ℤ (a -ℤ b) ≡ a -ℤ c
joined a b c = omega int_laws

module _ (f : Float64) (value : ℕ → ℤ) where
  abbrev pub value_of : Option ℕ → ℤ
  value_of none = pos 0
  value_of (some v) = value v

  -- The consumption of some periods together.
  unfoldable pub total : List Bucket → ℤ
  total [] = pos 0
  total (b ∷ bs) = value_of b.delta +ℤ total bs

  -- A meter's reading behind some rows.
  unfoldable pub reading_after : Option ℕ → List Row → Option ℕ
  reading_after before [] = before
  reading_after before (r ∷ rows) = reading_after r.last rows

  abbrev pub IsRead : Option ℕ → Type 0
  IsRead none = ⊥
  IsRead (some v) = Unit {0}

  drop-with_previous :
      (previous : Option ℕ) (older shown : List Row)
      → drop (length older) (with_previous previous (older ++ shown))
        ≡ with_previous (reading_after previous older) shown
  unfolding with_previous reading_after
  drop-with_previous previous [] shown = refl
  drop-with_previous previous (r ∷ older) shown = drop-with_previous r.last older shown

  -- The difference of two readings without a rounding error.
  abbrev pub IsExact : Option ℕ → Option ℕ → Type 0
  IsExact (some end) (some before) = value (f.sub end before) ≡ value end -ℤ value before
  IsExact last previous = Unit

  -- Differences without a rounding error, from every reading to the one before it.
  abbrev pub AreExact : Option ℕ → List Row → Type 0
  AreExact previous [] = Unit
  AreExact previous (r ∷ rows) = IsExact r.last previous × AreExact r.last rows

  delta-value :
      (r : Row) (previous : Option ℕ)
      → IsRead previous
      → IsRead r.last
      → IsExact r.last previous
      → value_of (bucket_of f (previous, r)).delta ≡ value_of r.last -ℤ value_of previous
  unfolding bucket_of
  delta-value r previous h k exact = consumed r.lo r.last previous h k exact
    where
      consumed :
          (lo : ℕ) (last previous : Option ℕ)
          → IsRead previous
          → IsRead last
          → IsExact last previous
          → value_of (consumption f lo last previous).0 ≡ value_of last -ℤ value_of previous
      consumed lo none previous h k exact = absurd k
      consumed lo (some end) none h k exact = absurd h
      consumed lo (some end) (some before) h k exact = exact

  total-with_previous :
      (previous : Option ℕ) (rows : List Row)
      → IsRead previous
      → All (λ r. IsRead r.last) rows
      → AreExact previous rows
      → total (map (bucket_of f) (with_previous previous rows))
        ≡ value_of (reading_after previous rows) -ℤ value_of previous
  unfolding with_previous total reading_after
  total-with_previous previous [] h k exact = omega int_laws
  total-with_previous previous (r ∷ rows) h (k, ks) (exact, exacts) =
      rw (delta-value r previous h k exact, total-with_previous r.last rows k ks exacts)
        (joined (value_of (reading_after r.last rows)) (value_of r.last) (value_of previous))

  -- Where the periods that are shown of a meter and the one before them have a last reading, and
  -- the difference of each of these readings from the one before it has no rounding error, the
  -- consumption of the periods that are shown adds up to the last reading less the one at the end
  -- of the period before them.
  pub total-buckets :
      (older shown : List Row) (keep : ℕ)
      → length shown ≡ keep
      → IsRead (reading_after none older)
      → All (λ r. IsRead r.last) shown
      → AreExact (reading_after none older) shown
      → total (buckets f (older ++ shown) keep)
        ≡ value_of (reading_after (reading_after none older) shown)
          -ℤ value_of (reading_after none older)
  unfolding buckets
  total-buckets older shown keep e h k exact =
      let start : length (older ++ shown) - keep ≡ length older =
        omega (arith, length-append older shown, e) in
      rw (start, drop-with_previous none older shown)
        (total-with_previous (reading_after none older) shown h k exact)
