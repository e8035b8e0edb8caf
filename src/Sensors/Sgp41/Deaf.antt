-- ===== src/Sensors/Sgp41/Deaf.antt =====
-- One sample of the gas sensor on a bus that takes no command (`sample_once` and `detect` of
-- src/sensors/sgp41.rs).
use rs_smarthome_nodes.Base.{
  ℕ, suc, ◌≡◌, refl, ◌⊎◌, inl, inr, Bool, true, false, Option, none, some, ◌==◌, arith,
  if◌then◌else◌,
}
use rs_smarthome_nodes.Base.Bytes.{Bytes}
use rs_smarthome_nodes.Sensors.I2c.{I2c}
use rs_smarthome_nodes.Sensors.Sgp41.Published.{is_none}
use rs_smarthome_nodes.Sensors.Sgp41.{
  GasIndex, Part, sgp40, sgp41, Attempt, answered, command_refused, silent_after_command,
  corrupt_answer, Driver, cmd_measure_raw_signals, cmd_measure_raw, cmd_execute_conditioning,
  measure_ms, measure_sgp40_ms, write_measure_cmd, try_part, tried, as_sgp40, as_sgp41, detect_from,
  detect, conditioned, signals, measure_part, sampled, sample_once,
}

module _ (i2c : I2c) (gas : GasIndex) where
  open i2c use {Bus, write}

  -- A sensor that is not detected, or is done with its conditioning.
  abbrev pub IsPlain : Driver i2c gas → Type 0
  IsPlain s = (s.part ≡ none) ⊎ (s.conditioning_left ≡ 0)

  abbrev pub IsFailing : Driver i2c gas → Type 0
  IsFailing s = IsPlain s × (is_none i2c gas s.fault ≡ false)

  tried-refused :
      (ms len : ℕ) (p : Driver i2c gas × Bool)
      → p.1 ≡ false
      → p.0.part ≡ none
      → ((tried i2c gas ms len p).1 ≡ command_refused) × ((tried i2c gas ms len p).0.part ≡ none)
  tried-refused ms len (s, true) e h = absurd (cc)
  tried-refused ms len (s, false) e h = (refl, h)

  as_sgp40-IsFailing :
      (first : Attempt) (p : Driver i2c gas × Attempt)
      → p.1 ≡ command_refused
      → p.0.part ≡ none
      → IsFailing (sampled i2c gas (as_sgp40 i2c gas first p))
  as_sgp40-IsFailing first (s, command_refused) e h = (inl h, refl)
  as_sgp40-IsFailing first (s, answered) e h = absurd (cc)
  as_sgp40-IsFailing first (s, silent_after_command) e h = absurd (cc)
  as_sgp40-IsFailing first (s, corrupt_answer) e h = absurd (cc)

  signals-IsFailing :
      (part : Part) (ms len : ℕ) (p : Driver i2c gas × Bool)
      → p.1 ≡ false
      → p.0.conditioning_left ≡ 0
      → IsFailing (signals i2c gas part ms len p)
  signals-IsFailing part ms len (s, true) e h = absurd (cc)
  signals-IsFailing part ms len (s, false) e h = (inr h, refl)

  -- A detected part, so many steps before the end of its conditioning, without a fault.
  abbrev pub IsStep : ℕ → Part → Driver i2c gas → Type 0
  IsStep n part s = (s.part ≡ some part) × (s.conditioning_left ≡ n) × (s.fault ≡ none)

  conditioned-IsStep :
      (n : ℕ) (part : Part) (p : Driver i2c gas × Bool)
      → p.1 ≡ false
      → IsStep (suc n) part (p.0)
      → IsStep n part (conditioned i2c gas p)
  conditioned-IsStep n part (s, true) e h = absurd (cc)
  conditioned-IsStep n part (s, false) e (known, left, clear) = (known, omega arith, clear)

  choice-IsStep :
      (n : ℕ) (part : Part) (s : Driver i2c gas) (done : Bool) (now next : Driver i2c gas)
      → (s.conditioning_left == 0) ≡ done
      → s.conditioning_left ≡ suc n
      → IsStep n part next
      → IsStep n part (if done then now else next)
  choice-IsStep n part s true now next e left h = absurd (ground arith)
  choice-IsStep n part s false now next e left h = h

  detect_from-IsStep :
      (n : ℕ) (part : Part) (found : Option Part) (s : Driver i2c gas)
      → found ≡ some part
      → IsStep (suc n) part s
      → IsStep n part (conditioned i2c gas (write_measure_cmd i2c gas cmd_execute_conditioning s))
      → IsStep n part (sampled i2c gas (detect_from i2c gas found s))
  detect_from-IsStep n part none s e h next = absurd (cc)
  detect_from-IsStep n part (some p) s e (known, left, clear) next =
      choice-IsStep n part s (s.conditioning_left == 0) (measure_part i2c gas p s)
        (conditioned i2c gas (write_measure_cmd i2c gas cmd_execute_conditioning s)) refl left next

  module _ (deaf : (b : Bus) (at : ℕ) (bytes : Bytes) → (write b at bytes).1 ≡ false) where
    refused : (cmd : ℕ) (s : Driver i2c gas) → (write_measure_cmd i2c gas cmd s).1 ≡ false
    unfolding write_measure_cmd
    refused cmd s = deaf s.bus _ _

    try_part-refused :
        (cmd ms len : ℕ) (s : Driver i2c gas)
        → s.part ≡ none
        → ((try_part i2c gas cmd ms len s).1 ≡ command_refused)
          × ((try_part i2c gas cmd ms len s).0.part ≡ none)
    unfolding try_part
    try_part-refused cmd ms len s h =
        tried-refused ms len (write_measure_cmd i2c gas cmd s) (refused cmd s)
          (unfold write_measure_cmd in h)

    as_sgp41-IsFailing :
        (p : Driver i2c gas × Attempt)
        → p.1 ≡ command_refused
        → p.0.part ≡ none
        → IsFailing (sampled i2c gas (as_sgp41 i2c gas p))
    as_sgp41-IsFailing (s, command_refused) e h =
        let (second, off) = try_part-refused cmd_measure_raw measure_sgp40_ms 3 s h in
        as_sgp40-IsFailing command_refused (try_part i2c gas cmd_measure_raw measure_sgp40_ms 3 s)
          second off
    as_sgp41-IsFailing (s, answered) e h = absurd (cc)
    as_sgp41-IsFailing (s, silent_after_command) e h = absurd (cc)
    as_sgp41-IsFailing (s, corrupt_answer) e h = absurd (cc)

    measure_part-IsFailing :
        (part : Part) (s : Driver i2c gas)
        → s.conditioning_left ≡ 0
        → IsFailing (measure_part i2c gas part s)
    measure_part-IsFailing sgp41 s h =
        signals-IsFailing sgp41 measure_ms 6 (write_measure_cmd i2c gas cmd_measure_raw_signals s)
          (refused _ s) (unfold write_measure_cmd in h)
    measure_part-IsFailing sgp40 s h =
        signals-IsFailing sgp40 measure_sgp40_ms 3 (write_measure_cmd i2c gas cmd_measure_raw s)
          (refused _ s) (unfold write_measure_cmd in h)

    sampled-IsFailing :
        (part : Part) (s : Driver i2c gas) (done : Bool)
        → (s.conditioning_left == 0) ≡ done
        → s.conditioning_left ≡ 0
        → IsFailing (
            if done
            then measure_part i2c gas part s
            else conditioned i2c gas (write_measure_cmd i2c gas cmd_execute_conditioning s))
    sampled-IsFailing part s true e h = measure_part-IsFailing part s h
    sampled-IsFailing part s false e h = absurd (ground arith)

    detect_from-IsFailing :
        (part : Option Part) (s : Driver i2c gas)
        → s.part ≡ part
        → IsPlain s
        → IsFailing (sampled i2c gas (detect_from i2c gas part s))
    detect_from-IsFailing none s e h =
        let (first, off) = try_part-refused cmd_measure_raw_signals measure_ms 6 s e in
        as_sgp41-IsFailing (try_part i2c gas cmd_measure_raw_signals measure_ms 6 s) first off
    detect_from-IsFailing (some part) s e (inl h) = absurd (cc)
    detect_from-IsFailing (some part) s e (inr h) =
        sampled-IsFailing part s (s.conditioning_left == 0) refl h

    pub sample_once-IsFailing : (s : Driver i2c gas) → IsPlain s → IsFailing (sample_once i2c gas s)
    unfolding sample_once detect
    sample_once-IsFailing s h = detect_from-IsFailing s.part s refl h

    pub sample_once-conditions :
        (n : ℕ) (part : Part) (s : Driver i2c gas)
        → IsStep (suc n) part s
        → IsStep n part (sample_once i2c gas s)
    unfolding sample_once detect
    sample_once-conditions n part s h = detect_from-IsStep n part s.part s h.0 h (
        conditioned-IsStep n part (write_measure_cmd i2c gas cmd_execute_conditioning s)
          (refused cmd_execute_conditioning s) (unfold write_measure_cmd in h))
