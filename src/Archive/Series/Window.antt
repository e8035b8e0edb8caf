-- ===== src/Archive/Series/Window.antt =====
-- Whole buckets (timeseries/src/questdb/series.rs).
use rs_smarthome_nodes.Base.{
  ℕ, ltb, zero, suc, ◌+◌, ◌-◌, ◌*◌, ◌/◌, ◌%◌, ◌^◌, ◌≤◌, ◌<◌, ◌≡◌, refl, ap, sym, subst, ◌∙◌, ◌⊎◌,
  inl, inr, true, arith, if-keeps, Bool-cases,
}
use native.Mathlib.Nat.{div-add-mod'}
use rs_smarthome_nodes.Base.Int.{ℤ, pos, negsuc, ◌+ℤ◌, ◌-ℤ◌, ◌≤ℤ◌, ltb_ℤ, int_laws}
use rs_smarthome_nodes.Base.Words.{max_ℤ}
use rs_smarthome_nodes.Archive.Lines.{wrap_i64}
use rs_smarthome_nodes.Archive.Series.{div_euclid, times, divides, floor_to, ceil_to, snap}

-- A time on a bucket's edge.
abbrev pub IsEdge : ℕ → ℤ → Type 0
IsEdge width at = (n : ℤ) × (at ≡ times n width)

-- Words of 64 bits.
abbrev pub IsI64 : ℤ → Type 0
IsI64 z = (negsuc (2 ^ 63 - 1) ≤ℤ z) × (z ≤ℤ pos (2 ^ 63 - 1))

wrap_i64_same : (z : ℤ) → IsI64 z → wrap_i64 z ≡ z
wrap_i64_same (pos n) h =
    let small : n % 2 ^ 64 ≡ n = omega arith in
    let low : ltb n (2 ^ 63) ≡ true = ground arith in rw (small, low) refl
wrap_i64_same (negsuc n) h =
    let small : n % 2 ^ 64 ≡ n = omega arith in
    let low : ltb n (2 ^ 63) ≡ true = ground arith in rw (small, low) refl

-- The last edge that is not behind a time.
abbrev whole_floor : ℤ → ℕ → ℤ
whole_floor at width = times (div_euclid at width) width

-- The quotient and the remainder of a number.
quotient_bounds :
    (n width : ℕ) → 0 < width → (n / width * width ≤ n) × (n < n / width * width + width)
quotient_bounds n width h = grind arith

whole_floor_bounds :
    (at : ℤ) (width : ℕ)
    → 0 < width
    → (whole_floor at width ≤ℤ at) × (at +ℤ pos 1 ≤ℤ whole_floor at width +ℤ pos width)
unfolding div_euclid times ◌+ℤ◌
whole_floor_bounds (pos n) width h = ground (arith, quotient_bounds n width h)
whole_floor_bounds (negsuc n) width h = ground (arith, quotient_bounds n width h)

-- A time with a bucket's width of room on both sides.
abbrev pub IsRoomy : ℕ → ℤ → Type 0
IsRoomy width at = IsI64 (at -ℤ pos width) × IsI64 (at +ℤ pos width)

floor_same :
    (at : ℤ) (width : ℕ) → 0 < width → IsRoomy width at → floor_to at width ≡ whole_floor at width
unfolding floor_to
floor_same at width h room =
    let (below, near) = whole_floor_bounds at width h in
    wrap_i64_same (whole_floor at width) (omega int_laws, omega int_laws)

exact_quotient : (n width : ℕ) → 0 < width → suc n % width ≡ 0 → suc (n / width) * width ≡ suc n
exact_quotient n width h e = grind (arith, quotient_bounds, div-add-mod')

whole_floor-exact :
    (at : ℤ) (width : ℕ) → 0 < width → divides width at ≡ true → whole_floor at width ≡ at
unfolding div_euclid times divides
whole_floor-exact (pos n) width h e = ground (arith, div-add-mod' n width)
whole_floor-exact (negsuc n) width h e = ground (arith, exact_quotient n width h)

after : ℤ → ℤ
after (pos n) = pos (suc n)
after (negsuc zero) = pos 0
after (negsuc (suc n)) = negsuc n

times-after : (n : ℤ) (width : ℕ) → times (after n) width ≡ times n width +ℤ pos width
unfolding times after ◌+ℤ◌
times-after (pos n) width = grind arith
times-after (negsuc zero) width = grind arith
times-after (negsuc (suc n)) width = grind arith

whole_floor-IsEdge : (at : ℤ) (width : ℕ) → IsEdge width (whole_floor at width)
whole_floor-IsEdge at width = (div_euclid at width, refl)

next-IsEdge : (at : ℤ) (width : ℕ) → IsEdge width at → IsEdge width (at +ℤ pos width)
next-IsEdge at width (n, e) = (after n, ap (λ z. z +ℤ pos width) e ∙ sym (times-after n width))

-- A time on an edge within a bucket's width behind another.
abbrev IsNext : ℕ → ℤ → ℤ → Type 0
IsNext width at edge = (at ≤ℤ edge) × (edge ≤ℤ at +ℤ pos width) × IsEdge width edge

ceil-IsNext :
    (at : ℤ) (width : ℕ) → 0 < width → IsRoomy width at → IsNext width at (ceil_to at width)
unfolding ceil_to
ceil-IsNext at width h room =
    let start = floor_same at width h room in
    let (below, near) = whole_floor_bounds at width h in
    let edge = whole_floor-IsEdge at width in
    elim (Bool-cases (divides width at)) [
      | inl whole ↦
          let same : whole_floor at width +ℤ pos 0 ≡ whole_floor at width = omega int_laws in
          let exact = whole_floor-exact at width h whole in
          let fits = wrap_i64_same (whole_floor at width) (omega int_laws, omega int_laws) in
          rw (whole, start, same, fits, exact)
            (omega int_laws, omega int_laws, subst (IsEdge width) exact edge)
      | inr part ↦
          let fits =
            wrap_i64_same (whole_floor at width +ℤ pos width) (omega int_laws, omega int_laws) in
          rw (part, start, fits)
            (omega int_laws, omega int_laws, next-IsEdge (whole_floor at width) width edge)
    ]

max-IsEdge : (width : ℕ) (a b : ℤ) → IsEdge width a → IsEdge width b → IsEdge width (max_ℤ a b)
max-IsEdge width a b h k = if-keeps (IsEdge width) (ltb_ℤ a b) k h

-- What the later of two times is not before, and which it is.
max_bounds : (a b : ℤ) → (a ≤ℤ max_ℤ a b) × (b ≤ℤ max_ℤ a b) × ((max_ℤ a b ≡ a) ⊎ (max_ℤ a b ≡ b))
max_bounds a b = ground arith

last_end :
    (to : ℤ) (width : ℕ) (a b : ℤ)
    → a ≤ℤ to +ℤ pos width
    → (max_ℤ a b ≡ a) ⊎ (max_ℤ a b ≡ b)
    → (max_ℤ a b ≤ℤ to +ℤ pos width) ⊎ (max_ℤ a b ≡ b)
last_end to width a b close (inl e) = inl (rw e close)
last_end to width a b close (inr e) = inr e

-- Where a window has a bucket's width of room within 64 bits before and behind each end, the
-- window that is read lies on whole buckets, holds the one that was asked for and at least one
-- bucket, and starts less than a bucket before it and ends at most a bucket behind its end, or is
-- one bucket.
pub snap-IsWhole :
    (from to : ℤ) (width : ℕ)
    → 0 < width
    → IsRoomy width from
    → IsRoomy width to
    → let (first, last) = snap from to width in
      IsEdge width first
      × IsEdge width last
      × (first ≤ℤ from)
      × (from +ℤ pos 1 ≤ℤ first +ℤ pos width)
      × (to ≤ℤ last)
      × (first +ℤ pos width ≤ℤ last)
      × ((last ≤ℤ to +ℤ pos width) ⊎ (last ≡ first +ℤ pos width))
unfolding snap
snap-IsWhole from to width h room room_to =
    let same = floor_same from width h room in
    let (below, near) = whole_floor_bounds from width h in
    let (above, close, edge) = ceil-IsNext to width h room_to in
    let first = whole_floor from width in
    let start = whole_floor-IsEdge from width in
    let fits = wrap_i64_same (first +ℤ pos width) (omega int_laws, omega int_laws) in
    let (over, next, which) = max_bounds (ceil_to to width) (first +ℤ pos width) in
    rw (same, fits)
      (
        start,
        max-IsEdge width _ _ edge (next-IsEdge first width start),
        below,
        near,
        omega (int_laws, over),
        next,
        last_end to width (ceil_to to width) (first +ℤ pos width) close which,
      )
