-- ===== src/State/Resets.antt =====
-- The reset diagnostics over the boots of a board.
use native.Mathlib.Nat.{add-zero}
use rs_smarthome_nodes.Base.{
  ℕ, ◌+◌, ◌≤◌, ◌<◌, ◌≡◌, true, false, List, [], ◌∷◌, length, arith, ◌==◌, if◌then◌else◌,
}
use rs_smarthome_nodes.ResetReason.{latch, max_plausible_count, power_on, deep_sleep}
use rs_smarthome_nodes.ResetReason.BootLog.{hard_boots}
use rs_smarthome_nodes.State.{
  Rtc, note_reset, reset_state_is_ours, reset_count, last_reset, join_refusals, failed_rounds,
}

-- What the board reports of its resets: the count, the last reason, the refused joins and the
-- failed rounds.
abbrev pub report : Rtc → ℕ × ℕ × ℕ × ℕ
report s = (reset_count s, last_reset s, join_refusals s, failed_rounds s)

-- In words that are not the firmware's own, whatever they hold, a boot starts every number afresh:
-- a wake from deep sleep counts nothing, any other boot counts as the first and gives its reason.
pub note_reset_fresh :
    (code : ℕ) (s : Rtc)
    → reset_state_is_ours s ≡ false
    → report (note_reset code s) ≡ (if code == deep_sleep then (0, 0, 0, 0) else (1, code, 0, 0))
unfolding note_reset reset_state_is_ours reset_count last_reset join_refusals failed_rounds latch
note_reset_fresh code s h = ground arith

-- In its own words a wake from deep sleep changes nothing, a power-on forgives the refused joins and
-- the failed rounds, and every boot but a wake adds one to the count and gives its reason, as long as
-- the count stays below the bound past which it is not believed.
pub note_reset_ours :
    (code : ℕ) (s : Rtc)
    → reset_state_is_ours s ≡ true
    → s.reset_count < max_plausible_count
    → report (note_reset code s) ≡ (
        if code == deep_sleep then report s else (
          reset_count s + 1,
          code,
          (if code == power_on then 0 else join_refusals s),
          (if code == power_on then 0 else failed_rounds s),
        ))
unfolding note_reset reset_state_is_ours reset_count last_reset join_refusals failed_rounds latch
note_reset_ours code s h below = ground arith

unfoldable pub note_resets : List ℕ → Rtc → Rtc
note_resets [] s = s
note_resets (code ∷ rest) s = note_resets rest (note_reset code s)

note_reset-stays :
    (code : ℕ) (s : Rtc)
    → reset_state_is_ours s ≡ true
    → s.reset_count < max_plausible_count
    → (reset_state_is_ours (note_reset code s) ≡ true)
      × ((note_reset code s).reset_count ≡ s.reset_count + (if code == deep_sleep then 0 else 1))
unfolding note_reset reset_state_is_ours latch
note_reset-stays code s h below = ground arith

note_reset-first :
    (code : ℕ) (s : Rtc)
    → reset_state_is_ours s ≡ false
    → (reset_state_is_ours (note_reset code s) ≡ true)
      × ((note_reset code s).reset_count ≡ (if code == deep_sleep then 0 else 1))
unfolding note_reset reset_state_is_ours latch
note_reset-first code s h = ground arith

note_resets_from :
    (codes : List ℕ) (s : Rtc)
    → reset_state_is_ours s ≡ true
    → s.reset_count + length codes ≤ max_plausible_count
    → reset_count (note_resets codes s) ≡ s.reset_count + hard_boots codes
unfolding note_resets hard_boots
note_resets_from [] s h below = rw add-zero (unfold reset_count in ground arith)
note_resets_from (code ∷ rest) s h below =
    let (ours, counted) = note_reset-stays code s h (omega arith) in
    omega (arith, note_resets_from rest (note_reset code s) ours (ground arith), counted)

-- From words that hold anything, the count after up to a million boots is exactly the number of
-- those that were not wakes from deep sleep.
pub note_resets_count :
    (code : ℕ) (rest : List ℕ) (s : Rtc)
    → reset_state_is_ours s ≡ false
    → length (code ∷ rest) ≤ max_plausible_count
    → reset_count (note_resets (code ∷ rest) s) ≡ hard_boots (code ∷ rest)
unfolding note_resets hard_boots
note_resets_count code rest s h below =
    let (ours, counted) = note_reset-first code s h in
    omega (arith, note_resets_from rest (note_reset code s) ours (ground arith), counted)
