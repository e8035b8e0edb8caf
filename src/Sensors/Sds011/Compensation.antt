-- ===== src/Sensors/Sds011/Compensation.antt =====
-- The correction for humidity: `compensate` (src/sensors/sds011.rs).
use native.Mathlib.Nat.{
  add-mul, mul-le-mul_left, mul-le-mul_right, div-mul-le_self, lt-div-mul-add, div-lt_iff_lt-mul,
  zero-mul, one-mul,
}
use rs_smarthome_nodes.Base.{
  ℕ, ◌+◌, ◌*◌, ◌/◌, ◌^◌, ◌≤◌, ◌<◌, ◌≡◌, refl, sym, min, ◌==◌, ==_iff, Bool-cases, subst, inl, inr,
  arith,
}
use rs_smarthome_nodes.Base.Int.{ℤ, pos, negsuc}
use rs_smarthome_nodes.Sensors.Sds011.{compensate, rh_of, dry_of, denominator}

rh_of-le : (rh : ℤ) → rh_of rh ≤ 950
rh_of-le (pos n) = omega arith
rh_of-le (negsuc n) = omega arith

dry_of-le : (rh : ℤ) → (5000 ≤ dry_of rh) × (dry_of rh ≤ 100000)
dry_of-le rh = (omega (arith, rh_of-le rh), omega arith)

-- `q` is the quotient n * dry / den, rounded to the nearest.
abbrev pub IsNearest : ℕ → ℕ → ℕ → ℕ → Type 0
IsNearest n dry den q = (q * den ≤ n * dry + den / 2) × (n * dry + den / 2 < q * den + den)

rounded-IsNearest : (n dry den : ℕ) → 0 < den → IsNearest n dry den ((n * dry + den / 2) / den)
rounded-IsNearest n dry den h = (div-mul-le_self (n * dry + den / 2) den, lt-div-mul-add h)

rounded-le : (n dry den : ℕ) → 0 < den → dry ≤ den → (n * dry + den / 2) / den ≤ n
rounded-le n dry den h le =
    let low = mul-le-mul_left n le in
    let under : (n * dry + den / 2) / den < n + 1 =
      (div-lt_iff_lt-mul h).1 (omega (arith, low, add-mul n 1 den, one-mul den)) in
    omega (arith, under)

unchanged-IsNearest : (n dry : ℕ) → 0 < dry → IsNearest n dry dry n
unchanged-IsNearest n dry h = (omega arith, omega arith)

nothing-IsNearest : (dry den : ℕ) → 0 < den → IsNearest 0 dry den 0
nothing-IsNearest dry den h =
    (omega (arith, zero-mul dry, zero-mul den), omega (arith, zero-mul dry, zero-mul den))

-- A reading that is not negative is corrected, at any humidity and growth factor, to its quotient by the
-- growth of the particles, rounded to the nearest; this never passes the reading, and a reading of an `i32`
-- keeps the product under 2 ^ 63. The divisor is 5000 at least.
pub compensate-IsNearest :
    (n : ℕ) (rh_tenths : ℤ) (kappa_centi : ℕ)
    → n < 2 ^ 31
    → (q : ℕ) × (compensate (pos n) rh_tenths kappa_centi ≡ pos q)
      × (q ≤ n)
      × IsNearest n (dry_of rh_tenths) (denominator rh_tenths kappa_centi) q
      × (5000 ≤ denominator rh_tenths kappa_centi)
      × (n * dry_of rh_tenths + denominator rh_tenths kappa_centi / 2 < 2 ^ 63)
unfolding compensate
compensate-IsNearest n rh k h =
    let dry = dry_of rh in
    let den = denominator rh k in
    let (least, most) = dry_of-le rh in
    let big : 5000 ≤ den = omega (arith, least) in
    let small : n ≤ 0x8000_0000 = omega arith in
    let capped : min k 100 ≤ 100 = omega arith in
    let product = mul-le-mul_right dry small in
    let grown = mul-le-mul_right (rh_of rh) capped in
    let fits : n * dry + den / 2 < 2 ^ 63 = omega (arith, product, grown, most, rh_of-le rh) in
    elim (Bool-cases (k == 0)) [
      | inl off ↦
          let none_grown : k ≡ 0 = (==_iff k 0).0 off in
          let same : den ≡ dry = rw none_grown (omega (arith, zero-mul (rh_of rh))) in
          rw off
            (n, refl, omega arith, rw same (unchanged-IsNearest n dry (omega arith)), big, fits)
      | inr on ↦ elim (Bool-cases (n == 0)) [
        | inl nothing ↦
            let is : n ≡ 0 = (==_iff n 0).0 nothing in
            rw (on, nothing)
              (
                n,
                refl,
                omega arith,
                subst (λ m. IsNearest m dry den m) (sym is)
                    (nothing-IsNearest dry den (omega arith)),
                big,
                fits,
              )
        | inr some_dust ↦
            rw (on, some_dust)
              (
                (n * dry + den / 2) / den,
                refl,
                rounded-le n dry den (omega arith) (omega arith),
                rounded-IsNearest n dry den (omega arith),
                big,
                fits,
              )
      ]
    ]
