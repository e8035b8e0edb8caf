-- ===== src/Sensors/Sgp41/Silent.antt =====
-- A gas sensor that takes no command, tick by tick (`step_gas` of src/platform.rs).
use rs_smarthome_nodes.Base.{ℕ, zero, suc, ◌+◌, Option, none, some}
use rs_smarthome_nodes.Base.Bytes.{Bytes}
use rs_smarthome_nodes.Sensors.I2c.{I2c}
use rs_smarthome_nodes.Sensors.Sgp41.Cadence.{Cadence, due, count_due}
use rs_smarthome_nodes.Sensors.Sgp41.Published.{step_gas}
use rs_smarthome_nodes.Sensors.Sgp41.{GasIndex, Part, Driver}

module _ (i2c : I2c) (gas : GasIndex) where
  open i2c use {Bus, write}

  -- How often the sensor is tried in so many ticks.
  unfoldable pub tries : ℕ → Cadence → Driver i2c gas → ℕ
  unfolding step_gas
  tries zero c s = 0
  tries (suc ticks) c s =
      let next = step_gas i2c gas c s in count_due (due c).1 + tries ticks next.0 next.1

  abbrev pub left_of : Option Part → ℕ → ℕ
  left_of none left = 0
  left_of (some part) left = left

  -- The steps of the conditioning that a driver has before it.
  abbrev pub steps_left : Driver i2c gas → ℕ
  steps_left s = left_of s.part s.conditioning_left
