-- ===== src/State.antt =====
-- src/state.rs and src/sensors/scale.rs: what the board keeps in RTC RAM across deep sleep. The
-- words survive a reset but not a power cut, after which they hold anything.
pub mod Flags
pub mod Resets
pub mod Clock
mod Tests
use rs_smarthome_nodes.Base.{
  ℕ, ◌+◌, ◌-◌, ◌*◌, ◌/◌, ◌%◌, ◌^◌, Bool, true, not, ◌||◌, ◌&&◌, Option, none, some, bit_and, bit_or,
  bit_xor, leb, ◌==◌, if◌then◌else◌,
}
use rs_smarthome_nodes.Base.Int.{ℤ}
use rs_smarthome_nodes.Base.Words.{u32_max, sat_add_u32, sat_add_u64}
use rs_smarthome_nodes.Ntp.{is_plausible}
use rs_smarthome_nodes.ResetReason.{latch, epoch_tag, max_plausible_count, power_on}

-- One field for each `static mut` word.
pub record Rtc : Type 0 where
  pub baseline : ℤ
  pub flags : ℕ
  pub idle_wakes : ℕ
  pub present_rounds : ℕ
  pub unexplained_rounds : ℕ
  pub clock_ms_lo : ℕ
  pub clock_ms_hi : ℕ
  pub discovery_tag : ℕ
  pub visit_count : ℕ
  pub visit_check : ℕ
  pub reset_reason : ℕ
  pub reset_count : ℕ
  pub reset_tag : ℕ
  pub join_refusals : ℕ
  pub failed_rounds : ℕ

abbrev pub flag_init : ℕ
flag_init = 1

abbrev pub flag_present : ℕ
flag_present = 2

abbrev pub flag_booted : ℕ
flag_booted = 8

abbrev pub flag_panicked : ℕ
flag_panicked = 16

abbrev pub flag_parked : ℕ
flag_parked = 32

unfoldable pub with_flag : ℕ → ℕ → Bool → ℕ
with_flag flags bit on = if on then bit_or flags bit else bit_and flags (u32_max - bit)

unfoldable pub has_flag : ℕ → ℕ → Bool
has_flag flags bit = not (bit_and flags bit == 0)

unfoldable pub set_flag : ℕ → Bool → Rtc → Rtc
set_flag bit on s = record s { flags = with_flag s.flags bit on }

unfoldable pub parked : Rtc → Bool
parked s = has_flag s.flags flag_parked

unfoldable pub set_parked : Bool → Rtc → Rtc
set_parked value s = set_flag flag_parked value s

unfoldable pub panicked : Rtc → Bool
panicked s = has_flag s.flags flag_panicked

unfoldable pub set_panicked : Bool → Rtc → Rtc
set_panicked value s = set_flag flag_panicked value s

unfoldable pub is_initialised : Rtc → Bool
is_initialised s = has_flag s.flags flag_init

unfoldable pub mark_initialised : Rtc → Rtc
mark_initialised s = set_flag flag_init true s

unfoldable pub bird_present : Rtc → Bool
bird_present s = has_flag s.flags flag_present

unfoldable pub set_bird_present : Bool → Rtc → Rtc
set_bird_present present s = set_flag flag_present present s

unfoldable pub is_cold_boot : Rtc → Bool
is_cold_boot s = bit_and s.flags flag_booted == 0

unfoldable pub mark_booted : Rtc → Rtc
mark_booted s = set_flag flag_booted true s

-- `millis as u32` and `(millis >> 32) as u32`.
unfoldable pub set_clock_ms : ℕ → Rtc → Rtc
set_clock_ms millis s = record s {
  clock_ms_lo = millis % 2 ^ 32;
  clock_ms_hi = millis / 2 ^ 32 % 2 ^ 32;
}

-- The two words share no bit, so `|` is `+`.
unfoldable pub clock_ms : Rtc → Option ℕ
clock_ms s =
    let millis = s.clock_ms_hi * 2 ^ 32 + s.clock_ms_lo in
    if is_plausible millis then some millis else none

-- The `if let` of `advance_clock_ms`.
advance_from : Option ℕ → ℕ → Rtc → Rtc
advance_from none millis s = s
advance_from (some now) millis s = set_clock_ms (sat_add_u64 now millis) s

unfoldable pub advance_clock_ms : ℕ → Rtc → Rtc
unfolding advance_from
advance_clock_ms millis s = advance_from (clock_ms s) millis s

abbrev pub visits_magic : ℕ
visits_magic = 0x5669_7369

unfoldable pub visits_check : ℕ → ℕ
visits_check count = bit_xor count visits_magic

unfoldable pub visits_from_pair : ℕ → ℕ → ℕ
visits_from_pair count check = if check == visits_check count then count else 0

unfoldable pub visit_count : Rtc → ℕ
visit_count s = visits_from_pair s.visit_count s.visit_check

unfoldable pub set_visit_count : ℕ → Rtc → Rtc
set_visit_count value s = record s { visit_count = value; visit_check = visits_check value }

unfoldable pub count_visit : Rtc → Rtc
count_visit s = set_visit_count (sat_add_u32 (visit_count s) 1) s

unfoldable pub reset_state_is_ours : Rtc → Bool
reset_state_is_ours s = s.reset_tag == epoch_tag && leb s.reset_count max_plausible_count

unfoldable pub note_reset : ℕ → Rtc → Rtc
note_reset code s =
    let rounds = if not (reset_state_is_ours s) || code == power_on then 0 else s.failed_rounds in
    let (tag, count, latched, refusals) =
      latch s.reset_tag s.reset_count s.reset_reason s.join_refusals code in
    record s {
      failed_rounds = rounds;
      reset_tag = tag;
      reset_count = count;
      reset_reason = latched;
      join_refusals = refusals;
    }

unfoldable pub join_refusals : Rtc → ℕ
join_refusals s = if not (reset_state_is_ours s) then 0 else s.join_refusals

unfoldable pub failed_rounds : Rtc → ℕ
failed_rounds s = if not (reset_state_is_ours s) then 0 else s.failed_rounds

unfoldable pub last_reset : Rtc → ℕ
last_reset s = if not (reset_state_is_ours s) then 0 else s.reset_reason

unfoldable pub reset_count : Rtc → ℕ
reset_count s = if not (reset_state_is_ours s) then 0 else s.reset_count
