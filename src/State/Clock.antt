-- ===== src/State/Clock.antt =====
-- The clock in RTC RAM: two words that are read as a time, or as none.
use native.Mathlib.Nat.{add-zero, add_assoc}
use rs_smarthome_nodes.Base.{
  ℕ, ◌+◌, ◌<◌, ◌≡◌, ◌*◌, ◌/◌, ◌%◌, ◌^◌, true, none, some, ◌∙◌, List, [], ◌∷◌, arith, if◌then◌else◌,
}
use rs_smarthome_nodes.Base.Words.{u64_mod, sat_add_u64}
use rs_smarthome_nodes.Ntp.{is_plausible, sane_until_ms}
use rs_smarthome_nodes.State.{Rtc, set_clock_ms, clock_ms, advance_clock_ms}

-- A time below 2 ^ 64 is read back if it is plausible, and no time is read otherwise.
pub clock_ms-set_clock_ms :
    (millis : ℕ) (s : Rtc)
    → millis < u64_mod
    → clock_ms (set_clock_ms millis s) ≡ (if is_plausible millis then some millis else none)
unfolding clock_ms set_clock_ms
clock_ms-set_clock_ms millis s h =
    let e : millis / 2 ^ 32 % 2 ^ 32 * 2 ^ 32 + millis % 2 ^ 32 ≡ millis = omega arith in rw e

unfoldable pub advances : List ℕ → Rtc → Rtc
advances [] s = s
advances (millis ∷ rest) s = advances rest (advance_clock_ms millis s)

unfoldable pub total : List ℕ → ℕ
total [] = 0
total (millis ∷ rest) = millis + total rest

clock_ms_plausible : (now : ℕ) (s : Rtc) → clock_ms s ≡ some now → is_plausible now ≡ true
unfolding clock_ms
clock_ms_plausible now s e = ground arith

advance_step :
    (now millis : ℕ) (s : Rtc)
    → clock_ms s ≡ some now
    → now + millis < sane_until_ms
    → clock_ms (advance_clock_ms millis s) ≡ some (now + millis)
unfolding advance_clock_ms is_plausible
advance_step now millis s e h = rw e (
    clock_ms-set_clock_ms (sat_add_u64 now millis) s (omega arith)
    ∙ ground (arith, clock_ms_plausible now s e))

-- A clock that is set runs by the sum of the sleeps, however they are split, while it stays
-- plausible.
pub advances-total :
    (sleeps : List ℕ) (now : ℕ) (s : Rtc)
    → clock_ms s ≡ some now
    → now + total sleeps < sane_until_ms
    → clock_ms (advances sleeps s) ≡ some (now + total sleeps)
unfolding advances total
advances-total [] now s e h = rw add-zero e
advances-total (millis ∷ rest) now s e h = rw (← add_assoc now millis (total rest)) (
    advances-total rest (now + millis) (advance_clock_ms millis s)
      (advance_step now millis s e (omega arith)) (omega arith))

-- A clock that is not set stays so, however long the board sleeps.
pub advances_unset :
    (sleeps : List ℕ) (s : Rtc) → clock_ms s ≡ none → clock_ms (advances sleeps s) ≡ none
unfolding advances advance_clock_ms
advances_unset [] s e = e
advances_unset (millis ∷ rest) s e = rw e (advances_unset rest s e)
