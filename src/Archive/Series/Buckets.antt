-- ===== src/Archive/Series/Buckets.antt =====
-- The width of a chart's buckets (timeseries/src/questdb/series.rs).
use rs_smarthome_nodes.Base.{
  ℕ, zero, suc, ap, ◌+◌, ◌*◌, ◌/◌, ◌%◌, ◌≤◌, ◌<◌, ◌≡◌, refl, ◌⊎◌, inl, inr, Bool, true, false,
  Option, none, some, List, [], ◌∷◌, leb, arith, All, if◌then◌else◌, Bool-cases, if-keeps, subst,
}
use native.Mathlib.Nat.{div-lt_iff_lt-mul}
use rs_smarthome_nodes.Base.Bytes.{Bytes}
use rs_smarthome_nodes.Base.Int.{ℤ, pos, negsuc, ◌-ℤ◌}
use rs_smarthome_nodes.Archive.Lines.{wrap_i64}
use rs_smarthome_nodes.Archive.Rollup.{Tier, pick, minutes, hours, days, find_tier, fits}
use rs_smarthome_nodes.Archive.Series.{
  Step, thirty_days, lower_steps, find_step, at_least_one, wanted_width, choose_bucket,
}

abbrev NotBelow : Step → List Step → Type 0
NotBelow s ss = All (λ t. s.0 ≤ t.0) ss

abbrev IsAscending : List Step → Type 0
IsAscending [] = Unit {0}
IsAscending (s ∷ ss) = NotBelow s ss × IsAscending ss

-- No finer step is wide enough.
abbrev pub IsFinest : ℕ → ℕ → List Step → Type 0
IsFinest wanted width ss = All (λ t. wanted ≤ t.0 → width ≤ t.0) ss

IsFinest-of :
    (wanted width : ℕ) (s : Step) (ss : List Step)
    → width ≤ s.0
    → NotBelow s ss
    → IsFinest wanted width ss
IsFinest-of wanted width s [] h k = tt
IsFinest-of wanted width s (t ∷ ss) h (k, ks) =
    (λ e. omega arith, IsFinest-of wanted width s ss h ks)

IsFinest-step :
    (wanted : ℕ) (s : Step) (ss : List Step) (wide : Bool)
    → leb wanted (s.0) ≡ wide
    → NotBelow s ss
    → IsFinest wanted (find_step wanted ss).0 ss
    → IsFinest wanted (if wide then s else find_step wanted ss).0 (s ∷ ss)
IsFinest-step wanted s ss true e h k =
    (λ t. omega arith, IsFinest-of wanted (s.0) s ss (omega arith) h)
IsFinest-step wanted s ss false e h k = (λ t. absurd (ground arith), k)

find_step-IsFinest :
    (wanted : ℕ) (ss : List Step) → IsAscending ss → IsFinest wanted (find_step wanted ss).0 ss
unfolding find_step
find_step-IsFinest wanted [] h = tt
find_step-IsFinest wanted (s ∷ ss) (h, hs) =
    IsFinest-step wanted s ss (leb wanted (s.0)) refl h (find_step-IsFinest wanted ss hs)

find_step-wide :
    (wanted : ℕ) (ss : List Step)
    → (wanted ≤ (find_step wanted ss).0) ⊎ (find_step wanted ss ≡ thirty_days)
unfolding find_step
find_step-wide wanted [] = inr refl
find_step-wide wanted (s ∷ ss) = elim (Bool-cases (leb wanted (s.0))) [
  | inl wide ↦ rw wide (inl (ground arith))
  | inr narrow ↦ rw narrow (find_step-wide wanted ss)
]

lower_steps-IsAscending : IsAscending lower_steps
unfolding lower_steps
lower_steps-IsAscending = omega arith

find_step-spans :
    (span points : ℕ) (ss : List Step)
    → 0 < points
    → (span < ((find_step (span / points) ss).0 + 1) * points)
      ⊎ ((find_step (span / points) ss).0 ≡ thirty_days.0)
find_step-spans span points ss h = elim (find_step-wide (span / points) ss) [
  | inl wide ↦ inl ((div-lt_iff_lt-mul h).0 (omega arith))
  | inr last ↦ inr (ap (λ (s : Step). s.0) last)
]

at_least_one-pos : (z : ℤ) → 0 < at_least_one z
at_least_one-pos (pos zero) = omega arith
at_least_one-pos (pos (suc n)) = omega arith
at_least_one-pos (negsuc n) = omega arith

-- The width is the finest of the ladder at which the window has at most as many buckets as points,
-- but for a microsecond for each point; where even 30 days are too fine, it is 30 days.
pub choose_bucket-IsFinest :
    (from to points : ℤ)
    → let width = (choose_bucket from to points).0 in
      IsFinest (wanted_width from to points) width lower_steps
      × ((at_least_one (wrap_i64 (to -ℤ from)) < (width + 1) * at_least_one points)
          ⊎ (width ≡ thirty_days.0))
unfolding choose_bucket wanted_width
choose_bucket-IsFinest from to points = (
  find_step-IsFinest (wanted_width from to points) lower_steps lower_steps-IsAscending,
  find_step-spans (at_least_one (wrap_i64 (to -ℤ from))) (at_least_one points) lower_steps
      (at_least_one-pos points),
)

abbrev IsFound {ℓ} : (Tier → Type ℓ) → Option Tier → Type ℓ
IsFound P none = Unit
IsFound P (some t) = P t

find_tier-IsFound :
    (P : Tier → Type 0) (test : Tier → Bool) (ts : List Tier)
    → All (λ t. test t ≡ true → P t) ts
    → IsFound P (find_tier test ts)
unfolding find_tier
find_tier-IsFound P test [] h = tt
find_tier-IsFound P test (t ∷ ts) (h, hs) = elim (Bool-cases (test t)) [
  | inl found ↦ rw found (h found)
  | inr other ↦ rw other (find_tier-IsFound P test ts hs)
]

-- A width that is a whole number of the buckets of each tier that is not coarser.
abbrev IsWhole : ℕ → Type 0
IsWhole width =
    (60_000_000 ≤ width → width % 60_000_000 ≡ 0)
    × (3_600_000_000 ≤ width → width % 3_600_000_000 ≡ 0)
    × (86_400_000_000 ≤ width → width % 86_400_000_000 ≡ 0)

find_step-IsWhole :
    (wanted : ℕ) (ss : List Step) → All (λ s. IsWhole (s.0)) ss → IsWhole (find_step wanted ss).0
unfolding find_step
find_step-IsWhole wanted [] h = omega arith
find_step-IsWhole wanted (s ∷ ss) (h, hs) =
    if-keeps (λ (t : Step). IsWhole (t.0)) (leb wanted (s.0)) h (find_step-IsWhole wanted ss hs)

lower_steps-IsWhole : All (λ s. IsWhole (s.0)) lower_steps
unfolding lower_steps
lower_steps-IsWhole = omega arith

fits-le :
    (width : ℕ) (views : List Bytes) (base : Bytes) (t : Tier)
    → fits width views base t ≡ true
    → t.grain ≤ width
unfolding fits
fits-le width views base t h = ground arith

pick-IsFound :
    (width : ℕ) (views : List Bytes) (base : Bytes)
    → IsWhole width
    → IsFound (λ t. width % t.grain ≡ 0) (pick width views base)
unfolding pick
pick-IsFound width views base (m, h, d) =
    find_tier-IsFound (λ t. width % t.grain ≡ 0) (fits width views base)
      (days ∷ hours ∷ minutes ∷ [])
      (
        λ e. d (fits-le width views base days e),
        (
          λ e. h (fits-le width views base hours e),
          (λ e. m (fits-le width views base minutes e), tt),
        ),
      )

-- The buckets of a chart that reads a rollup are whole buckets of that rollup.
pub pick-divides :
    (from to points : ℤ) (views : List Bytes) (base : Bytes) {t : Tier}
    → pick ((choose_bucket from to points).0) views base ≡ some t
    → (choose_bucket from to points).0 % t.grain ≡ 0
unfolding choose_bucket
pick-divides from to points views base e =
    subst (IsFound (λ (q : Tier). (choose_bucket from to points).0 % q.grain ≡ 0)) e (
      pick-IsFound _ views base
        (find_step-IsWhole (wanted_width from to points) lower_steps lower_steps-IsWhole))
