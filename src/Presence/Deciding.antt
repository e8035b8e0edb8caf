-- ===== src/Presence/Deciding.antt =====
-- What `decide` says, and what it does to the baseline.
use rs_smarthome_nodes.Base.{◌≡◌, ◌⊎◌, ◌↔◌, Bool, true, false, arith}
use rs_smarthome_nodes.Base.Int.{ℤ, pos, negsuc, ◌+ℤ◌, ◌-ℤ◌, ◌≤ℤ◌, -ℤ_parts, +ℤ_parts}
use rs_smarthome_nodes.Base.Words.{InI32, sat_i32, shr_ℤ}
use rs_smarthome_nodes.Presence.{Decision, arrived, staying, quiet, decide}

-- Whether the decision leaves a bird on the scale.
unfoldable pub leaves_present : Decision → Bool
leaves_present (arrived _) = true
leaves_present (staying _) = true
leaves_present _ = false

-- A bird is on the scale after a decision exactly if the reading stands at least the threshold above
-- the baseline, the difference taken with saturation.
pub decide-present :
    (raw baseline : ℤ) (was_present : Bool) (threshold : ℤ)
    → (leaves_present (decide raw baseline was_present threshold) ≡ true)
      ↔ (threshold ≤ℤ sat_i32 (raw -ℤ baseline))
unfolding decide leaves_present
decide-present raw baseline was_present threshold = ground arith

abbrev pub Between : ℤ → ℤ → ℤ → Type 0
Between a m b = ((a ≤ℤ m) × (m ≤ℤ b)) ⊎ ((b ≤ℤ m) × (m ≤ℤ a))

sat-Between : (z : ℤ) → Between (pos 0) (sat_i32 z) z
sat-Between z = ground arith

shr-Between : (z : ℤ) → Between (pos 0) (shr_ℤ z 4) z
shr-Between (pos n) = ground arith
shr-Between (negsuc n) = ground arith

sat_id : (z : ℤ) → InI32 z → sat_i32 z ≡ z
sat_id z h = ground arith

sum-Between :
    (raw baseline d m : ℤ)
    → Between (pos 0) d (raw -ℤ baseline)
    → Between (pos 0) m d
    → Between baseline (baseline +ℤ m) raw
sum-Between raw baseline d m h k = omega (arith, -ℤ_parts, +ℤ_parts)

Between-InI32 : (a m b : ℤ) → InI32 a → InI32 b → Between a m b → InI32 m
Between-InI32 a m b ha hb h = omega arith

quiet_moved :
    (raw baseline threshold : ℤ) {moved : ℤ}
    → decide raw baseline false threshold ≡ quiet moved
    → moved ≡ sat_i32 (baseline +ℤ shr_ℤ (sat_i32 (raw -ℤ baseline)) 4)
unfolding decide
quiet_moved raw baseline threshold e = ground arith

drift-Between :
    (raw baseline : ℤ)
    → InI32 raw
    → InI32 baseline
    → Between baseline (sat_i32 (baseline +ℤ shr_ℤ (sat_i32 (raw -ℤ baseline)) 4)) raw
drift-Between raw baseline hr hb =
    let d = sat_i32 (raw -ℤ baseline) in
    let b =
      sum-Between raw baseline d (shr_ℤ d 4) (sat-Between (raw -ℤ baseline)) (shr-Between d) in
    rw (sat_id _ (Between-InI32 baseline _ raw hb hr b)) b

-- A quiet reading moves the baseline towards itself and never past it, where both are of `i32`: the
-- baseline cannot overshoot or leave `i32`.
pub decide_quiet-Between :
    (raw baseline threshold : ℤ) {moved : ℤ}
    → InI32 raw
    → InI32 baseline
    → decide raw baseline false threshold ≡ quiet moved
    → Between baseline moved raw
decide_quiet-Between raw baseline threshold {moved} hr hb e =
    let found = quiet_moved raw baseline threshold e in rw found (drift-Between raw baseline hr hb)
