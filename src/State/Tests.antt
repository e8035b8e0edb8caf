-- ===== src/State/Tests.antt =====
-- Boots after a power cut.
use rs_smarthome_nodes.Base.{◌≡◌, refl, [], ◌∷◌}
use rs_smarthome_nodes.Base.Int.{pos}
use rs_smarthome_nodes.ResetReason.{latch}
use rs_smarthome_nodes.State.Resets.{note_resets}
use rs_smarthome_nodes.State.{Rtc, note_reset, reset_state_is_ours, reset_count}

-- What a power cut may leave.
abbrev garbage : Rtc
garbage = record {
  baseline = pos 77;
  flags = 41;
  idle_wakes = 9;
  present_rounds = 0;
  unexplained_rounds = 3;
  clock_ms_lo = 123;
  clock_ms_hi = 0;
  discovery_tag = 5;
  visit_count = 8;
  visit_check = 1;
  reset_reason = 4_000_000_000;
  reset_count = 17;
  reset_tag = 99;
  join_refusals = 5;
  failed_rounds = 2;
}

three_boots : reset_count (note_resets (1 ∷ 5 ∷ 15 ∷ []) garbage) ≡ 2
unfolding reset_state_is_ours reset_count note_resets note_reset latch
three_boots = refl
