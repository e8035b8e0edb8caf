-- ===== src/Sensors/Sgp41/Cadence.antt =====
-- How often a failing gas sensor is tried: `Cadence` (src/sensors/sgp41.rs).
use rs_smarthome_nodes.Base.{
  ℕ, zero, suc, ◌+◌, ◌-◌, ◌≤◌, ◌<◌, ◌≡◌, refl, ap, ◌∙◌, min, Bool, true, false, ltb, leb,
  if◌then◌else◌, arith, lt→leb_false, lt→ltb, le→leb, ◌*◌,
}

pub record Cadence : Type 0 where
  pub failures : ℕ
  pub skip : ℕ

abbrev pub failures_before_backoff : ℕ
failures_before_backoff = 10

abbrev pub backoff_ticks : ℕ
backoff_ticks = 59

abbrev pub new : Cadence
new = record { failures = 0; skip = 0 }

unfoldable pub due : Cadence → Cadence × Bool
due c = if ltb 0 c.skip then (record c { skip = c.skip - 1 }, false) else (c, true)

-- `saturating_add` on a `u8`.
unfoldable pub record_result : Bool → Cadence → Cadence
record_result true c = record { failures = 0; skip = 0 }
record_result false c =
    let failures = min (c.failures + 1) 255 in
    record {
      failures = failures;
      skip = if leb failures_before_backoff failures then backoff_ticks else c.skip;
    }

unfoldable pub backed_off : Cadence → Bool
backed_off c = leb failures_before_backoff c.failures

-- What a tick does to the cadence where each sample that is due leaves a fault.
abbrev pub failing_tick : Cadence × Bool → Cadence
failing_tick (c, true) = record_result false c
failing_tick (c, false) = c

abbrev pub count_due : Bool → ℕ
count_due true = 1
count_due false = 0

-- How many of so many such ticks are due.
unfoldable pub attempts : ℕ → Cadence → ℕ
attempts zero c = 0
attempts (suc ticks) c = count_due (due c).1 + attempts ticks (failing_tick (due c))

abbrev at_rate : ℕ → ℕ → Cadence
at_rate failures skip = record { failures = failures; skip = skip }

attempts-full :
    (ticks failures : ℕ)
    → failures < 9
    → attempts (suc ticks) (at_rate failures 0) ≡ suc (attempts ticks (at_rate (failures + 1) 0))
unfolding attempts due record_result
attempts-full ticks failures h =
    rw (lt→leb_false 10 (min (failures + 1) 255) (omega arith), capped failures (omega arith))
      (omega arith)
  where
    capped : (f : ℕ) → f < 9 → min (f + 1) 255 ≡ f + 1
    capped f h = omega arith

attempts-last :
    (ticks : ℕ) → attempts (suc ticks) (at_rate 9 0) ≡ suc (attempts ticks (at_rate 10 59))
unfolding attempts due record_result
attempts-last ticks = omega arith

attempts-skip :
    (ticks failures skip : ℕ)
    → attempts (suc ticks) (at_rate failures (suc skip)) ≡ attempts ticks (at_rate failures skip)
unfolding attempts due
attempts-skip ticks failures skip =
    rw (lt→ltb 0 (suc skip) (omega arith), one_less skip) (omega arith)
  where
    one_less : (n : ℕ) → suc n - 1 ≡ n
    one_less n = omega arith

attempts-due :
    (ticks failures : ℕ)
    → 10 ≤ failures
    → attempts (suc ticks) (at_rate failures 0)
      ≡ suc (attempts ticks (at_rate (min (failures + 1) 255) 59))
unfolding attempts due record_result
attempts-due ticks failures h = rw (le→leb 10 (min (failures + 1) 255) (omega arith)) (omega arith)

attempts-skip_all :
    (skip ticks failures : ℕ)
    → attempts (skip + ticks) (at_rate failures skip) ≡ attempts ticks (at_rate failures 0)
attempts-skip_all zero ticks failures = ap (λ n. attempts n (at_rate failures 0)) (omega arith)
attempts-skip_all (suc skip) ticks failures =
    ap (λ n. attempts n (at_rate failures (suc skip))) (omega arith)
    ∙ attempts-skip (skip + ticks) failures skip
    ∙ attempts-skip_all skip ticks failures

attempts-minutes : (k failures : ℕ) → 10 ≤ failures → attempts (60 * k) (at_rate failures 59) ≡ k
attempts-minutes zero failures h = unfold attempts in refl
attempts-minutes (suc k) failures h =
    ap (λ n. attempts n (at_rate failures 59)) (omega arith)
    ∙ attempts-skip_all 59 (suc (60 * k)) failures
    ∙ attempts-due (60 * k) failures h
    ∙ ap (λ n. suc n) (attempts-minutes k (min (failures + 1) 255) (omega arith))

attempts-start :
    (left failures ticks : ℕ)
    → left + failures ≡ 9
    → attempts (left + suc ticks) (at_rate failures 0) ≡ left + suc (attempts ticks (at_rate 10 59))
attempts-start zero failures ticks h =
    ap (λ n. attempts n (at_rate failures 0)) (omega arith)
    ∙ ap (λ f. attempts (suc ticks) (at_rate f 0)) (omega arith)
    ∙ attempts-last ticks
    ∙ omega arith
attempts-start (suc left) failures ticks h =
    ap (λ n. attempts n (at_rate failures 0)) (omega arith)
    ∙ attempts-full (left + suc ticks) failures (omega arith)
    ∙ ap (λ n. suc n) (attempts-start left (failures + 1) ticks (omega arith))
    ∙ omega arith

-- Behind a success ten such ticks are due one after another, and then one in every sixty.
pub attempts-record_result :
    (c : Cadence) (k : ℕ) → attempts (10 + 60 * k) (record_result true c) ≡ 10 + k
unfolding record_result
attempts-record_result c k =
    ap (λ n. attempts n new) (omega arith)
    ∙ attempts-start 9 0 (60 * k) refl
    ∙ omega (arith, attempts-minutes k 10 (omega arith))
