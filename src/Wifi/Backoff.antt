-- ===== src/Wifi/Backoff.antt =====
-- How the waits grow.
use native.Mathlib.Nat.{mul_assoc, pow-succ'}
use rs_smarthome_nodes.Base.{
  ℕ, zero, suc, ◌-◌, ◌*◌, ◌^◌, ◌≤◌, ◌<◌, ◌≡◌, ap, sym, ◌∙◌, min, dec_le, le→leb, lt→leb_false,
  arith,
}
use rs_smarthome_nodes.Wifi.{backoff_loop, backoff_ms}

double_pow : (m n : ℕ) → m * 2 ^ suc n ≡ m * 2 * 2 ^ n
double_pow m n = ap (λ t. m * t) (pow-succ' 2 n) ∙ sym (mul_assoc m 2 (2 ^ n))

times-pow-le : (m n : ℕ) → m ≤ m * 2 ^ n
times-pow-le m zero = omega arith
times-pow-le m (suc n) = omega (arith, double_pow m n, times-pow-le (m * 2) n)

below_ceiling :
    (m max_ms : ℕ) → max_ms < 2 ^ 64 → min m (2 ^ 64 - 1) < max_ms → min m (2 ^ 64 - 1) ≡ m
below_ceiling m max_ms h k = omega arith

backoff_loop_lem :
    (turns ms max_ms : ℕ)
    → max_ms < 2 ^ 64
    → backoff_loop turns ms max_ms ≡ min (ms * 2 ^ turns) max_ms
unfolding backoff_loop
backoff_loop_lem zero ms max_ms h = omega arith
backoff_loop_lem (suc turns) ms max_ms h = elim (dec_le max_ms (min (ms * 2) (2 ^ 64 - 1))) [
  | yes p ↦
      rw (le→leb max_ms (min (ms * 2) (2 ^ 64 - 1)) p)
        (omega (arith, double_pow ms turns, times-pow-le (ms * 2) turns))
  | no n ↦ rw (lt→leb_false max_ms (min (ms * 2) (2 ^ 64 - 1)) (omega arith)) (
      backoff_loop_lem turns (min (ms * 2) (2 ^ 64 - 1)) max_ms h
      ∙ ap (λ m. min (m * 2 ^ turns) max_ms) (below_ceiling (ms * 2) max_ms h (omega arith))
      ∙ omega (arith, double_pow ms turns))
]

-- The wait doubles with each failure from the first wait on and stops at the longest; the count of
-- failures counts as at least 1 and at most 64, and the longest wait fits `u64`.
pub backoff_ms_lem :
    (failures first_ms max_ms : ℕ)
    → max_ms < 2 ^ 64
    → backoff_ms failures first_ms max_ms ≡ min (first_ms * 2 ^ (min failures 64 - 1)) max_ms
unfolding backoff_ms
backoff_ms_lem failures first_ms max_ms h = backoff_loop_lem (min failures 64 - 1) first_ms max_ms h
