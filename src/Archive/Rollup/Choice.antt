-- ===== src/Archive/Rollup/Choice.antt =====
-- Which tier is picked (timeseries/src/questdb/rollup.rs).
use rs_smarthome_nodes.Base.{
  ℕ, ◌≤◌, ◌≡◌, true, false, Option, none, some, List, arith, All, Bool-cases, inl, inr,
}
use rs_smarthome_nodes.Base.Bytes.{Bytes}
use rs_smarthome_nodes.Archive.Rollup.{
  Tier, tiers, minutes, hours, days, contains_text, view, fits, pick,
}

-- A tier can answer: no coarser than the interval, and its view exists.
abbrev pub CanAnswer : ℕ → List Bytes → Bytes → Tier → Type 0
CanAnswer interval available base t =
    (t.grain ≤ interval) × (contains_text available (view t base) ≡ true)

abbrev pub IsBest : ℕ → List Bytes → Bytes → Option Tier → Type 0
IsBest interval available base none = All (λ t. CanAnswer interval available base t → ⊥) tiers
IsBest interval available base (some best) =
    CanAnswer interval available base best
    × All (λ t. CanAnswer interval available base t → t.grain ≤ best.grain) tiers

module _ (interval : ℕ) (available : List Bytes) (base : Bytes) where
  fits-CanAnswer :
      (t : Tier) → fits interval available base t ≡ true → CanAnswer interval available base t
  unfolding fits
  fits-CanAnswer t h = ground arith

  fits-not-CanAnswer :
      (t : Tier) → fits interval available base t ≡ false → CanAnswer interval available base t → ⊥
  unfolding fits
  fits-not-CanAnswer t h k = ground arith

-- The tier that is picked can answer, and is the coarsest that can; none is picked exactly if none
-- can.
pub pick-IsBest :
    (interval : ℕ) (available : List Bytes) (base : Bytes)
    → IsBest interval available base (pick interval available base)
unfolding pick view
pick-IsBest interval available base =
    let can = fits-CanAnswer interval available base in
    let cannot = fits-not-CanAnswer interval available base in
    elim (Bool-cases (fits interval available base days)) [
      | inl d ↦ rw d (can days d, (λ c. omega arith, (λ c. omega arith, (λ c. omega arith, tt))))
      | inr d ↦ elim (Bool-cases (fits interval available base hours)) [
        | inl h ↦
            rw (d, h)
              (
                can hours h,
                (λ c. omega arith, (λ c. omega arith, (λ c. absurd (cannot days d c), tt))),
              )
        | inr h ↦ elim (Bool-cases (fits interval available base minutes)) [
          | inl m ↦
              rw (d, h, m)
                (
                  can minutes m,
                  (
                    λ c. omega arith,
                    (λ c. absurd (cannot hours h c), (λ c. absurd (cannot days d c), tt)),
                  ),
                )
          | inr m ↦ rw (d, h, m) (cannot minutes m, (cannot hours h, (cannot days d, tt)))
        ]
      ]
    ]
