-- ===== src/Sensors/Sht31/Explained.antt =====
-- What a round of the temperature and humidity sensor reports (src/sensors/sht31.rs).
use rs_smarthome_nodes.Base.{
  ℕ, ◌≡◌, ◌⊎◌, inl, inr, refl, Bool, true, false, Option, none, some, List, [],
}
use rs_smarthome_nodes.Base.Bytes.{Bytes}
use rs_smarthome_nodes.Sensors.{Reading}
use rs_smarthome_nodes.Sensors.I2c.{I2c}
use rs_smarthome_nodes.Sensors.Sht31.{
  Sht31, Fault, be16, cmd_single_high, words_of, readings_of, temp_tenths, rh_tenths, soft_reset,
  decoded, read_back, commanded, sample, retried, reported, measure,
}

-- A full round: two readings of words that passed their checksums, both remembered, and no fault;
-- or an empty one with a fault and nothing remembered.
abbrev pub IsAccounted : {B : Type 0} → Sht31 B → List Reading → Type 0
IsAccounted s readings =
    ((t : ℕ) × (rh : ℕ) × (readings ≡ readings_of t rh)
      × (s.last_t_tenths ≡ some (temp_tenths t))
      × (s.last_rh_tenths ≡ some (rh_tenths rh))
      × (s.fault ≡ none))
    ⊎ ((fault : Fault) × (readings ≡ [])
        × (s.last_t_tenths ≡ none)
        × (s.last_rh_tenths ≡ none)
        × (s.fault ≡ some fault))

abbrev Sampled : {B : Type 0} → Sht31 B × Option (ℕ × ℕ) → Type 0
Sampled (s, some words) = s.fault ≡ none
Sampled (s, none) =
    (fault : Fault) × (s.fault ≡ some fault) × (s.last_t_tenths ≡ none) × (s.last_rh_tenths ≡ none)

abbrev IsBlank : {B : Type 0} → Sht31 B → Type 0
IsBlank s = (s.last_t_tenths ≡ none) × (s.last_rh_tenths ≡ none)

module _ (i2c : I2c) where
  open i2c use {Bus, write, read, after}

  decoded-Sampled :
      (words : Option (ℕ × ℕ)) (s : Sht31 Bus) → IsBlank s → Sampled (decoded i2c words s)
  decoded-Sampled (some words) s h = refl
  decoded-Sampled none s (t, rh) = (Fault.spoiled, refl, t, rh)

  read_back-Sampled :
      (got : Option Bytes) (s : Sht31 Bus) → IsBlank s → Sampled (read_back i2c got s)
  read_back-Sampled none s (t, rh) = (Fault.silent, refl, t, rh)
  read_back-Sampled (some buf) s h = decoded-Sampled (words_of buf) s h

  commanded-Sampled :
      (s : Sht31 Bus) (written : Bus × Bool) → IsBlank s → Sampled (commanded i2c s written)
  commanded-Sampled s (bus, false) (t, rh) = (Fault.refused, refl, t, rh)
  commanded-Sampled s (bus, true) h = read_back-Sampled _ _ h

  sample-Sampled : (s : Sht31 Bus) → IsBlank s → Sampled (sample i2c s)
  unfolding sample
  sample-Sampled s h = commanded-Sampled s (write s.bus s.address (be16 cmd_single_high)) h

  retried-Sampled : (p : Sht31 Bus × Option (ℕ × ℕ)) → Sampled p → Sampled (retried i2c p)
  retried-Sampled (s, some words) h = h
  retried-Sampled (s, none) (fault, e, t, rh) =
      sample-Sampled (soft_reset i2c s) (unfold soft_reset in (t, rh))

  reported-IsAccounted :
      (p : Sht31 Bus × Option (ℕ × ℕ))
      → Sampled p
      → IsAccounted (reported i2c p).0 (reported i2c p).1
  reported-IsAccounted (s, some (t, rh)) h = inl (t, rh, refl, refl, refl, h)
  reported-IsAccounted (s, none) (fault, e, t, rh) = inr (fault, refl, t, rh, e)

  -- A round gives both readings, remembers them and clears the fault, or gives none, remembers
  -- nothing and has a fault that says why.
  pub measure-IsExplained : (s : Sht31 Bus) → IsAccounted (measure i2c s).0 (measure i2c s).1
  unfolding measure
  measure-IsExplained s = reported-IsAccounted _ (retried-Sampled _ (sample-Sampled _ (refl, refl)))
