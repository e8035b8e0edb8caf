-- ===== src/Hx711/Pulses.antt =====
-- A conversion as the chip sees it (src/hx711.rs).
use rs_smarthome_nodes.Base.{
  ℕ, zero, suc, ◌+◌, ◌*◌, ◌%◌, ◌^◌, ◌≤◌, ◌<◌, ◌≡◌, ap, ◌∙◌, Bool, true, false, Option, none, some,
  arith, if-keeps,
}
use rs_smarthome_nodes.Base.Int.{ℤ, pos, negsuc, ◌≤ℤ◌}
use rs_smarthome_nodes.Base.Words.{u32_mod}
use rs_smarthome_nodes.Hx711.{
  Pins, Gain, gain_pulses, sign_extend_24, bit_of, shift_in, extra_pulses, wait_ready, read_raw,
  read_when, hx711_read,
}

abbrev pub Is24Bit : ℤ → Type 0
Is24Bit z = (negsuc 8_388_607 ≤ℤ z) × (z ≤ℤ pos 8_388_607)

sign_extend_24-Is24Bit : (raw : ℕ) → raw < 2 ^ 24 → Is24Bit (sign_extend_24 raw)
unfolding sign_extend_24
sign_extend_24-Is24Bit raw h = ground arith

bit_of-le : (b : Bool) → bit_of b ≤ 1
bit_of-le true = omega arith
bit_of-le false = omega arith

doubled : ℕ → ℕ → ℕ
doubled zero n = n
doubled (suc k) n = doubled k (2 * n)

wrapped-lt :
    (value bound : ℕ) (bit : Bool) → value < bound → (2 * value + bit_of bit) % u32_mod < 2 * bound
wrapped-lt value bound true h = omega arith
wrapped-lt value bound false h = omega arith

module _ (pins : Pins) where
  open pins use {
    Line, set_clock, delay_us, data_is_high, data_is_low, poll_pause, pulses, pulses-rise,
    pulses-fall, pulses-delay, pulses-high, pulses-low, pulses-pause,
  }

  shift_in-pulses :
      (left value : ℕ) (l : Line) → pulses (shift_in pins left value l).0 ≡ pulses l + left
  unfolding shift_in
  shift_in-pulses zero value l = omega arith
  shift_in-pulses (suc left) value l =
      shift_in-pulses left _ _
      ∙ simp (pulses-delay, pulses-fall, pulses-high, pulses-rise) (omega arith)

  shift_in-lt :
      (left value bound : ℕ) (l : Line)
      → value < bound
      → (shift_in pins left value l).1 < doubled left bound
  unfolding shift_in doubled
  shift_in-lt zero value bound l h = h
  shift_in-lt (suc left) value bound l h =
      shift_in-lt left _ (2 * bound) _
        (wrapped-lt value bound (data_is_high (delay_us 1 (set_clock true l))).1 h)

  extra_pulses-pulses : (left : ℕ) (l : Line) → pulses (extra_pulses pins left l) ≡ pulses l + left
  unfolding extra_pulses
  extra_pulses-pulses zero l = omega arith
  extra_pulses-pulses (suc left) l =
      extra_pulses-pulses left _ ∙ simp (pulses-delay, pulses-fall, pulses-rise) (omega arith)

  wait_ready-pulses : (polls : ℕ) (l : Line) → pulses (wait_ready pins polls l).0 ≡ pulses l
  unfolding wait_ready
  wait_ready-pulses zero l = pulses-low l
  wait_ready-pulses (suc polls) l =
      if-keeps (λ (p : Line × Bool). pulses (p.0) ≡ pulses l) (data_is_low l).1 (pulses-low l)
        (wait_ready-pulses polls (poll_pause (data_is_low l).0)
          ∙ pulses-pause (data_is_low l).0
          ∙ pulses-low l)

  -- What a read that succeeds gives, and what it does to the clock.
  abbrev pub IsClocked : Gain → Line → Line × Option ℤ → Type 0
  IsClocked gain before (after, none) = pulses after ≡ pulses before
  IsClocked gain before (after, some z) =
      Is24Bit z × (pulses after ≡ pulses before + 24 + gain_pulses gain)

  read_raw-IsClocked :
      (gain : Gain) (l : Line)
      → Is24Bit (read_raw pins gain l).1
        × (pulses (read_raw pins gain l).0 ≡ pulses l + 24 + gain_pulses gain)
  unfolding read_raw
  read_raw-IsClocked gain l = (
    sign_extend_24-Is24Bit (shift_in pins 24 0 l).1
        (unfold doubled in shift_in-lt 24 0 1 l (omega arith)),
    extra_pulses-pulses (gain_pulses gain) (shift_in pins 24 0 l).0
        ∙ ap (λ n. n + gain_pulses gain) (shift_in-pulses 24 0 l),
  )

  read_when-IsClocked :
      (gain : Gain) (before : Line) (p : Line × Bool)
      → pulses (p.0) ≡ pulses before
      → IsClocked gain before (read_when pins gain p)
  read_when-IsClocked gain before (l, false) e = e
  read_when-IsClocked gain before (l, true) e =
      let (small, clocked) = read_raw-IsClocked gain l in
      (small, clocked ∙ ap (λ n. n + 24 + gain_pulses gain) e)

  -- A read gives 24 bits in two's complement and clocks the chip by 24 pulses and those of the gain,
  -- or, if the chip is never ready, gives nothing and does not clock it.
  pub hx711_read-IsClocked :
      (gain : Gain) (polls : ℕ) (l : Line) → IsClocked gain l (hx711_read pins gain polls l)
  unfolding hx711_read
  hx711_read-IsClocked gain polls l =
      read_when-IsClocked gain l (wait_ready pins polls l) (wait_ready-pulses polls l)
