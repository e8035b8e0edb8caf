-- ===== src/Battery/Curve.antt =====
-- The charge curve: bounded, and monotone at every voltage.
use Prim.Native.Nat.add
use rs_smarthome_nodes.Base.{
  ℕ, zero, suc, ◌+◌, ◌-◌, ◌≤◌, ◌<◌, ◌≡◌, refl, Bool, true, ◌&&◌, leb, arith, dec_lt, le→leb,
  lt→leb_false,
}
use rs_smarthome_nodes.Base.Range.{all_below, all_below_sound}
use rs_smarthome_nodes.Battery.{percent}

abbrev rises_at : ℕ → Bool
rises_at k = leb (percent (3270 + k)) (percent (3270 + suc k)) && leb (percent (3270 + suc k)) 100

rises_table : all_below 931 rises_at ≡ true
unfolding all_below percent
rises_table = refl

percent_low : (mv : ℕ) → mv ≤ 3270 → percent mv ≡ 0
unfolding percent
percent_low mv h = rw (le→leb mv 3270 h)

percent_high : (mv : ℕ) → 4200 ≤ mv → percent mv ≡ 100
unfolding percent
percent_high mv h = rw (lt→leb_false mv 3270 (omega arith), le→leb 4200 mv h)

percent_step_inside :
    (mv : ℕ) → 3270 ≤ mv → mv < 4200 → (percent mv ≤ percent (suc mv)) × (percent (suc mv) ≤ 100)
percent_step_inside mv lo hi =
    let e : 3270 + (mv - 3270) ≡ mv = omega arith in
    let e' : 3270 + suc (mv - 3270) ≡ suc mv = omega arith in
    let found = all_below_sound 931 rises_at (mv - 3270) rises_table (omega arith) in
    rw (← e') (rw (← e) (ground arith))

percent_step : (mv : ℕ) → percent mv ≤ percent (suc mv)
percent_step mv = elim (dec_lt mv 3270) [
  | yes below ↦ omega (arith, percent_low mv (omega arith))
  | no above ↦ elim (dec_lt mv 4200) [
    | yes inside ↦ (percent_step_inside mv (omega arith) inside).0
    | no over ↦ omega (arith, percent_high mv (omega arith), percent_high (suc mv) (omega arith))
  ]
]

percent_mono_by : (d mv : ℕ) → percent mv ≤ percent (d + mv)
percent_mono_by zero mv = rw (add.zero mv) (omega arith)
percent_mono_by (suc d) mv =
    rw (add.suc d mv) (omega (arith, percent_mono_by d mv, percent_step (d + mv)))

-- More voltage never shows less charge.
pub percent_mono : (a b : ℕ) → a ≤ b → percent a ≤ percent b
percent_mono a b h = let e : b - a + a ≡ b = omega arith in rw e at (percent_mono_by (b - a) a)

-- The charge shown is at most 100 percent.
pub percent-le : (mv : ℕ) → percent mv ≤ 100
percent-le mv = elim (dec_lt mv 4200) [
  | yes below ↦ omega (arith, percent_mono mv 4200 (omega arith), percent_high 4200 (omega arith))
  | no over ↦ omega (arith, percent_high mv (omega arith))
]
