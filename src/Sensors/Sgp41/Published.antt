-- ===== src/Sensors/Sgp41/Published.antt =====
-- Which indices the gas sensor publishes (src/sensors/sgp41.rs), and its tick (src/platform.rs).
use rs_smarthome_nodes.Base.{
  ℕ, ◌-◌, ◌≡◌, refl, Bool, true, false, Option, none, some, ◌>>=◌, take, ◌==◌, if◌then◌else◌,
  if-keeps, Bool-cases, inl, inr, arith, subst, sym, ==_iff,
}
use rs_smarthome_nodes.Base.Bytes.{Bytes}
use rs_smarthome_nodes.Base.Int.{ℤ, pos, ◌≤ℤ◌, ltb_ℤ}
use rs_smarthome_nodes.Crc.{crc_word}
use rs_smarthome_nodes.Sensors.I2c.{I2c}
use rs_smarthome_nodes.Sensors.Sgp41.Cadence.{Cadence, due, record_result}
use rs_smarthome_nodes.Sensors.Sgp41.{
  GasIndex, Indices, Part, sgp40, sgp41, Attempt, is_answered, only_positive, Driver,
  cmd_measure_raw_signals, cmd_measure_raw, cmd_execute_conditioning, measure_ms, measure_sgp40_ms,
  write_measure_cmd, read_after, try_part, tried, as_sgp40, as_sgp41, detect_from, detect,
  conditioned, nox_step, nox_word, indices, measured, got_signals, signals, measure_part, sampled,
  sample_once,
}

abbrev pub IsPositive : Option ℤ → Type 0
IsPositive none = Unit {0}
IsPositive (some n) = pos 1 ≤ℤ n

-- Indices stand there only once the conditioning is done, and are above 0: the algorithm's 0 is no
-- index.
abbrev pub IsShown : Option Indices → ℕ → Type 0
IsShown none left = Unit {0}
IsShown (some i) left = (left ≡ 0) × (pos 1 ≤ℤ i.voc) × IsPositive i.nox

IsShown-zero : (latest : Option Indices) (left : ℕ) → IsShown latest left → IsShown latest 0
IsShown-zero none left h = tt
IsShown-zero (some i) left (e, v, n) = (refl, v, n)

IsShown-less :
    (latest : Option Indices) (left : ℕ) → IsShown latest left → IsShown latest (left - 1)
IsShown-less none left h = tt
IsShown-less (some i) left (e, v, n) = (omega arith, v, n)

only_positive-IsPositive : (nox : Option ℤ) → IsPositive (nox >>= only_positive)
only_positive-IsPositive none = tt
only_positive-IsPositive (some n) = elim (Bool-cases (ltb_ℤ (pos 0) n)) [
  | inl above ↦ rw above (ground arith)
  | inr not_above ↦ rw not_above tt
]

module _ (i2c : I2c) (gas : GasIndex) where
  abbrev pub Shown : Driver i2c gas → Type 0
  Shown s = IsShown s.latest s.conditioning_left

  indices-IsShown : (voc : ℤ) (nox : Option ℤ) → IsShown (indices i2c gas voc nox) 0
  indices-IsShown voc nox = elim (Bool-cases (ltb_ℤ (pos 0) voc)) [
    | inl above ↦ rw above (refl, ground arith, only_positive-IsPositive nox)
    | inr not_above ↦ rw not_above tt
  ]

  tried-Shown :
      (ms len : ℕ) (p : Driver i2c gas × Bool) → Shown (p.0) → Shown (tried i2c gas ms len p).0
  tried-Shown ms len (s, true) h = h
  tried-Shown ms len (s, false) h = h

  as_sgp40-Shown :
      (first : Attempt) (p : Driver i2c gas × Attempt)
      → Shown (p.0)
      → Shown (as_sgp40 i2c gas first p).0
  as_sgp40-Shown first (s, second) h =
      if-keeps (λ (p : Driver i2c gas × Option Part). Shown (p.0)) (is_answered second)
        (IsShown-zero s.latest s.conditioning_left h) h

  as_sgp41-Shown : (p : Driver i2c gas × Attempt) → Shown (p.0) → Shown (as_sgp41 i2c gas p).0
  as_sgp41-Shown (s, first) h =
      if-keeps (λ (p : Driver i2c gas × Option Part). Shown (p.0)) (is_answered first) h
        (as_sgp40-Shown first (try_part i2c gas cmd_measure_raw measure_sgp40_ms 3 s)
          (unfold try_part write_measure_cmd in tried-Shown measure_sgp40_ms 3 _ h))

  detect_from-Shown :
      (part : Option Part) (s : Driver i2c gas) → Shown s → Shown (detect_from i2c gas part s).0
  detect_from-Shown (some part) s h = h
  detect_from-Shown none s h =
      as_sgp41-Shown (try_part i2c gas cmd_measure_raw_signals measure_ms 6 s)
        (unfold try_part write_measure_cmd in tried-Shown measure_ms 6 _ h)

  measured-Shown :
      (part : Part) (buf : Bytes) (raw : Option ℕ) (s : Driver i2c gas)
      → s.conditioning_left ≡ 0
      → Shown s
      → Shown (measured i2c gas part buf raw s)
  measured-Shown part buf none s e h = h
  measured-Shown part buf (some raw) s e h =
      subst
        (IsShown (
          indices i2c gas (gas.process s.voc (pos raw)).1
            (nox_step i2c gas s.nox (nox_word i2c gas part buf)).1))
        (sym e)
        (indices-IsShown (gas.process s.voc (pos raw)).1
          (nox_step i2c gas s.nox (nox_word i2c gas part buf)).1)

  got_signals-Shown :
      (part : Part) (p : Driver i2c gas × Option Bytes)
      → (p.0).conditioning_left ≡ 0
      → Shown (p.0)
      → Shown (got_signals i2c gas part p)
  got_signals-Shown part (s, none) e h = h
  got_signals-Shown part (s, some buf) e h = measured-Shown part buf (crc_word (take 3 buf)) s e h

  signals-Shown :
      (part : Part) (ms len : ℕ) (p : Driver i2c gas × Bool)
      → (p.0).conditioning_left ≡ 0
      → Shown (p.0)
      → Shown (signals i2c gas part ms len p)
  signals-Shown part ms len (s, false) e h = h
  signals-Shown part ms len (s, true) e h = got_signals-Shown part (read_after i2c gas ms len s) e h

  measure_part-Shown :
      (part : Part) (s : Driver i2c gas)
      → s.conditioning_left ≡ 0
      → Shown s
      → Shown (measure_part i2c gas part s)
  unfolding write_measure_cmd
  measure_part-Shown sgp41 s e h =
      signals-Shown sgp41 measure_ms 6 (write_measure_cmd i2c gas cmd_measure_raw_signals s) e h
  measure_part-Shown sgp40 s e h =
      signals-Shown sgp40 measure_sgp40_ms 3 (write_measure_cmd i2c gas cmd_measure_raw s) e h

  conditioned-Shown : (p : Driver i2c gas × Bool) → Shown (p.0) → Shown (conditioned i2c gas p)
  conditioned-Shown (s, true) h = IsShown-less s.latest s.conditioning_left h
  conditioned-Shown (s, false) h = IsShown-less s.latest s.conditioning_left h

  choice-Shown :
      (done : Bool) (part : Part) (s : Driver i2c gas)
      → (s.conditioning_left == 0) ≡ done
      → Shown s
      → Shown (
          if done
          then measure_part i2c gas part s
          else conditioned i2c gas (write_measure_cmd i2c gas cmd_execute_conditioning s))
  choice-Shown true part s e h = measure_part-Shown part s ((==_iff s.conditioning_left 0).0 e) h
  choice-Shown false part s e h =
      conditioned-Shown (write_measure_cmd i2c gas cmd_execute_conditioning s)
        (unfold write_measure_cmd in h)

  sampled-Shown : (p : Driver i2c gas × Option Part) → Shown (p.0) → Shown (sampled i2c gas p)
  sampled-Shown (s, none) h = tt
  sampled-Shown (s, some part) h = choice-Shown (s.conditioning_left == 0) part s refl h

  -- Over any steps on any bus, the indices that are there to be published are above 0, and stand
  -- there only once the conditioning is done.
  pub sample_once-IsShown :
      (s : Driver i2c gas)
      → IsShown s.latest s.conditioning_left
      → IsShown (sample_once i2c gas s).latest (sample_once i2c gas s).conditioning_left
  unfolding sample_once
  sample_once-IsShown s h = sampled-Shown (detect i2c gas s) (detect_from-Shown s.part s h)

  abbrev pub is_none : {A : Type 0} → Option A → Bool
  is_none none = true
  is_none (some a) = false

  abbrev pub stepped : Cadence × Bool → Driver i2c gas → Cadence × Driver i2c gas
  stepped (c, false) s = (c, s)
  stepped (c, true) s =
      let after = sample_once i2c gas s in (record_result (is_none after.fault) c, after)

  -- `step_gas`, but for its log.
  unfoldable pub step_gas : Cadence → Driver i2c gas → Cadence × Driver i2c gas
  unfolding sample_once due record_result
  step_gas c s = stepped (due c) s
