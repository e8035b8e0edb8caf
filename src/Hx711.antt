-- ===== src/Hx711.antt =====
-- The load cell's converter (src/hx711.rs). The two pins and the delay are a parameter; the timeout
-- of a wait is the number of polls that it leaves room for.
mod Pulses
mod Tests
use rs_smarthome_nodes.Base.{
  ℕ, zero, suc, ◌+◌, ◌*◌, ◌%◌, ◌≡◌, Bool, true, false, Option, none, some, ◌/◌, ◌^◌, ◌==◌,
  if◌then◌else◌,
}
use rs_smarthome_nodes.Base.Int.{ℤ}
use rs_smarthome_nodes.Base.Words.{of_u32, u32_mod}

-- The line to the chip: the clock that is driven, the data that is read.
pub record Pins : Type 1 where
  pub Line : Type 0
  pub set_clock : Bool → Line → Line
  pub delay_us : ℕ → Line → Line
  pub data_is_high : Line → Line × Bool
  pub data_is_low : Line → Line × Bool
  pub poll_pause : Line → Line
  -- the rising edges that the chip has seen
  pub pulses : Line → ℕ
  pub pulses-rise : (l : Line) → pulses (set_clock true l) ≡ suc (pulses l)
  pub pulses-fall : (l : Line) → pulses (set_clock false l) ≡ pulses l
  pub pulses-delay : (n : ℕ) (l : Line) → pulses (delay_us n l) ≡ pulses l
  pub pulses-high : (l : Line) → pulses (data_is_high l).0 ≡ pulses l
  pub pulses-low : (l : Line) → pulses (data_is_low l).0 ≡ pulses l
  pub pulses-pause : (l : Line) → pulses (poll_pause l) ≡ pulses l

abbrev pub power_down_us : ℕ
power_down_us = 80

abbrev pub settling_reads : ℕ
settling_reads = 4

pub data Gain : Type 0 where
  a128 b32 a64 : Gain

abbrev pub gain_pulses : Gain → ℕ
gain_pulses a128 = 1
gain_pulses b32 = 2
gain_pulses a64 = 3

-- The mask of one bit reads that bit, and the one of the high byte sets it.
unfoldable pub sign_extend_24 : ℕ → ℤ
sign_extend_24 raw =
    if raw / 2 ^ 23 % 2 == 0 then of_u32 raw else of_u32 (raw % 2 ^ 24 + 0xff00_0000)

abbrev pub bit_of : Bool → ℕ
bit_of true = 1
bit_of false = 0

module _ (pins : Pins) where
  open pins use {Line, set_clock, delay_us, data_is_high, data_is_low, poll_pause}

  unfoldable pub power_down : Line → Line
  power_down l = delay_us power_down_us (set_clock true (set_clock false l))

  unfoldable pub power_up : Line → Line
  power_up l = set_clock false l

  unfoldable pub wait_ready : ℕ → Line → Line × Bool
  wait_ready zero l = data_is_low l
  wait_ready (suc polls) l =
      let seen = data_is_low l in
      let rest = wait_ready polls (poll_pause (seen.0)) in if seen.1 then (seen.0, true) else rest

  -- The data pulses that are left; the value is that of a `u32`.
  unfoldable pub shift_in : ℕ → ℕ → Line → Line × ℕ
  shift_in zero value l = (l, value)
  shift_in (suc left) value l =
      let seen = data_is_high (delay_us 1 (set_clock true l)) in
      shift_in left ((2 * value + bit_of (seen.1)) % u32_mod)
        (delay_us 1 (set_clock false (seen.0)))

  unfoldable pub extra_pulses : ℕ → Line → Line
  extra_pulses zero l = l
  extra_pulses (suc left) l =
      extra_pulses left (delay_us 1 (set_clock false (delay_us 1 (set_clock true l))))

  unfoldable pub read_raw : Gain → Line → Line × ℤ
  unfolding shift_in extra_pulses sign_extend_24
  read_raw gain l =
      let shifted = shift_in 24 0 l in
      (extra_pulses (gain_pulses gain) (shifted.0), sign_extend_24 (shifted.1))

  abbrev pub read_when : Gain → Line × Bool → Line × Option ℤ
  read_when gain (l, false) = (l, none)
  read_when gain (l, true) = let got = read_raw gain l in (got.0, some (got.1))

  unfoldable pub hx711_read : Gain → ℕ → Line → Line × Option ℤ
  unfolding read_raw wait_ready
  hx711_read gain polls l = read_when gain (wait_ready polls l)
