-- ===== src/Presence/Rounds.antt =====
-- The publish gap in rounds, and the spread of the readings of a tare.
use native.Mathlib.Nat.{div-add-mod', mod-lt, suc-mul}
use rs_smarthome_nodes.Base.{
  ℕ, zero, suc, ◌+◌, ◌-◌, ◌*◌, ◌/◌, ◌%◌, ◌≤◌, ◌<◌, ◌≡◌, ◌⊎◌, ◌≢◌, inl, inr, refl, All, true, false,
  List, [], ◌∷◌, ◌==◌, arith, if◌then◌else◌,
}
use rs_smarthome_nodes.Base.Int.{ℤ, pos, ◌≤ℤ◌, ◌-ℤ◌, ltb_ℤ, -ℤ_parts}
use rs_smarthome_nodes.Base.Words.{sat_i32, min_ℤ, max_ℤ}
use rs_smarthome_nodes.Presence.{rounds_for, spread_from, tare_spread_ok, tare_max_spread}

ceil : ℕ → ℕ → ℕ
ceil secs r = (secs + r - 1) / r

ceil_parts :
    (secs r q m : ℕ)
    → q * r + m ≡ secs + r - 1
    → m < r
    → (secs ≤ q * r) × ((q ≡ 0) ⊎ ((q - 1) * r < secs))
ceil_parts secs r zero m e h = (omega arith, inl refl)
ceil_parts secs r (suc k) m e h =
    let p : suc k - 1 ≡ k = omega arith in (omega arith, inr (rw p (omega (arith, suc-mul k r))))

ceil_bounds :
    (secs r : ℕ)
    → 0 < r
    → (secs ≤ ceil secs r * r) × ((ceil secs r ≡ 0) ⊎ ((ceil secs r - 1) * r < secs))
unfolding ceil
ceil_bounds secs r h =
    ceil_parts secs r _ ((secs + r - 1) % r) (div-add-mod' (secs + r - 1) r)
      (mod-lt (secs + r - 1) h)

suc_eq_zero : (k : ℕ) → (suc k == 0) ≡ false
suc_eq_zero k = ground arith

rounds_for-ceil :
    (secs r : ℕ) → 0 < r → rounds_for secs r ≡ (if ceil secs r == 0 then 1 else ceil secs r)
unfolding rounds_for ceil
rounds_for-ceil secs (suc r) h = rw (suc_eq_zero r)
rounds_for-ceil secs zero h = absurd (omega arith)

at_least_one :
    (secs r q : ℕ)
    → 0 < r
    → (secs ≤ q * r) × ((q ≡ 0) ⊎ ((q - 1) * r < secs))
    → let n = if q == 0 then 1 else q in (secs ≤ n * r) × (1 ≤ n) × ((n ≡ 1) ⊎ ((n - 1) * r < secs))
at_least_one secs r zero h (p, q) = (omega arith, omega arith, inl refl)
at_least_one secs r (suc k) h (p, q) = rw (suc_eq_zero k) (p, omega arith, ground arith)

-- The rounds cover the seconds, at least one round is waited, and unless it is the only one a round
-- less would not cover them.
pub rounds_for_bounds :
    (secs round_secs : ℕ)
    → 0 < round_secs
    → (secs ≤ rounds_for secs round_secs * round_secs)
      × (1 ≤ rounds_for secs round_secs)
      × ((rounds_for secs round_secs ≡ 1) ⊎ ((rounds_for secs round_secs - 1) * round_secs < secs))
rounds_for_bounds secs r h =
    rw (rounds_for-ceil secs r h) (at_least_one secs r (ceil secs r) h (ceil_bounds secs r h))

min_max_parts :
    (lo hi v : ℤ) → (min_ℤ lo v ≤ℤ lo) × (min_ℤ lo v ≤ℤ v) × (hi ≤ℤ max_ℤ hi v) × (v ≤ℤ max_ℤ hi v)
min_max_parts lo hi v = ground arith

abbrev Within : ℤ → ℤ → ℤ → Type 0
Within lo hi x = (lo ≤ℤ x) × (x ≤ℤ hi)

widen :
    (lo hi lo' hi' : ℤ) (xs : List ℤ)
    → lo' ≤ℤ lo
    → hi ≤ℤ hi'
    → All (Within lo hi) xs
    → All (Within lo' hi') xs
widen lo hi lo' hi' [] p q h = tt
widen lo hi lo' hi' (x ∷ xs) p q (h, hs) = (omega arith, widen lo hi lo' hi' xs p q hs)

-- The loop's two results enclose where they began, and every reading.
spread_from_encloses :
    (lo hi : ℤ) (xs : List ℤ)
    → ((spread_from lo hi xs).0 ≤ℤ lo)
      × (hi ≤ℤ (spread_from lo hi xs).1)
      × All (Within (spread_from lo hi xs).0 (spread_from lo hi xs).1) xs
unfolding spread_from
spread_from_encloses lo hi [] = (omega arith, omega arith, tt)
spread_from_encloses lo hi (v ∷ xs) =
    let (p, q, r) = spread_from_encloses (min_ℤ lo v) (max_ℤ hi v) xs in
    let (a, b, c, d) = min_max_parts lo hi v in (omega arith, omega arith, (omega arith, r))

close_pairs :
    (lo hi : ℤ) (xs ys : List ℤ)
    → hi -ℤ lo ≤ℤ pos 2000
    → All (Within lo hi) xs
    → All (Within lo hi) ys
    → All (λ x. All (λ y. x -ℤ y ≤ℤ pos 2000) ys) xs
close_pairs lo hi [] ys h hx hy = tt
close_pairs lo hi (x ∷ xs) ys h (p, hx) hy = (row ys hy, close_pairs lo hi xs ys h hx hy)
  where
    row : (zs : List ℤ) → All (Within lo hi) zs → All (λ y. x -ℤ y ≤ℤ pos 2000) zs
    row [] hz = tt
    row (z ∷ zs) (q, hz) = (omega (arith, -ℤ_parts), row zs hz)

spread_test :
    (lo hi : ℤ)
    → (if ltb_ℤ tare_max_spread (sat_i32 (hi -ℤ lo)) then false else true) ≡ true
    → hi -ℤ lo ≤ℤ pos 2000
spread_test lo hi h = ground arith

-- A tare that is accepted has readings, and no two of them lie more than 2000 ticks apart.
pub tare_spread_ok_close :
    (samples : List ℤ)
    → tare_spread_ok samples ≡ true
    → (samples ≢ []) × All (λ x. All (λ y. x -ℤ y ≤ℤ pos 2000) samples) samples
unfolding tare_spread_ok
tare_spread_ok_close [] h = cc
tare_spread_ok_close (first ∷ rest) h =
    let all = (spread_from_encloses first first (first ∷ rest)).2 in
    (λ e. cc, close_pairs _ _ (first ∷ rest) (first ∷ rest) (spread_test _ _ h) all all)
