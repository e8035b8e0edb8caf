-- ===== src/Sensors/Sht31.antt =====
-- The temperature and humidity sensor (src/sensors/sht31.rs). The messages of the faults are
-- constructors.
pub mod Explained
use rs_smarthome_nodes.Base.{
  ℕ, ◌*◌, ◌/◌, ◌%◌, Bool, true, false, Option, none, some, List, [], ◌∷◌, ◌>>=◌, take, drop,
}
use rs_smarthome_nodes.Base.Bytes.{Bytes}
use rs_smarthome_nodes.Base.Int.{ℤ, pos, sub_ℕ}
use rs_smarthome_nodes.Base.Text.{codes}
use rs_smarthome_nodes.Crc.{crc_word}
use rs_smarthome_nodes.Sensors.{Reading, write_tenths}
use rs_smarthome_nodes.Sensors.I2c.{I2c}

abbrev pub addr : ℕ
addr = 0x44

abbrev pub cmd_single_high : ℕ
cmd_single_high = 0x2400

abbrev pub cmd_soft_reset : ℕ
cmd_soft_reset = 0x30a2

abbrev pub conversion_ms : ℕ
conversion_ms = 17

abbrev pub reset_ms : ℕ
reset_ms = 2

abbrev pub temp_tenths : ℕ → ℤ
temp_tenths raw = sub_ℕ (1750 * raw / 65535) 450

abbrev pub rh_tenths : ℕ → ℤ
rh_tenths raw = pos (1000 * raw / 65535)

pub data Fault : Type 0 where
  refused silent spoiled : Fault

-- `B` is the bus.
pub record Sht31 (B : Type 0) : Type 0 where
  pub bus : B
  pub address : ℕ
  pub last_rh_tenths : Option ℤ
  pub last_t_tenths : Option ℤ
  pub fault : Option Fault

abbrev pub with_address : {B : Type 0} → B → ℕ → Sht31 B
with_address bus address = record {
  bus = bus;
  address = address;
  last_rh_tenths = none;
  last_t_tenths = none;
  fault = none;
}

abbrev pub new : {B : Type 0} → B → Sht31 B
new bus = with_address bus addr

abbrev pub be16 : ℕ → Bytes
be16 w = w / 256 ∷ w % 256 ∷ []

abbrev pub words_of : Bytes → Option (ℕ × ℕ)
words_of buf = do t ← crc_word (take 3 buf); rh ← crc_word (take 3 (drop 3 buf)); some (t, rh)

abbrev pub readings_of : ℕ → ℕ → List Reading
readings_of t_raw rh_raw =
    record { key = codes "temperature"; value = write_tenths (temp_tenths t_raw) }
    ∷ record { key = codes "humidity"; value = write_tenths (rh_tenths rh_raw) }
    ∷ []

module _ (i2c : I2c) where
  open i2c use {Bus, write, read, after}

  unfoldable pub soft_reset : Sht31 Bus → Sht31 Bus
  soft_reset s = record s { bus = after (write s.bus s.address (be16 cmd_soft_reset)).0 reset_ms }

  abbrev pub decoded : Option (ℕ × ℕ) → Sht31 Bus → Sht31 Bus × Option (ℕ × ℕ)
  decoded (some words) s = (record s { fault = none }, some words)
  decoded none s = (record s { fault = some spoiled }, none)

  abbrev pub read_back : Option Bytes → Sht31 Bus → Sht31 Bus × Option (ℕ × ℕ)
  read_back none s = (record s { fault = some silent }, none)
  read_back (some buf) s = decoded (words_of buf) s

  abbrev pub commanded : Sht31 Bus → Bus × Bool → Sht31 Bus × Option (ℕ × ℕ)
  commanded s (bus, false) = (record s { bus = bus; fault = some refused }, none)
  commanded s (bus, true) =
      let got = read (after bus conversion_ms) s.address 6 in
      read_back (got.1) (record s { bus = got.0 })

  unfoldable pub sample : Sht31 Bus → Sht31 Bus × Option (ℕ × ℕ)
  sample s = commanded s (write s.bus s.address (be16 cmd_single_high))

  -- One retry behind a reset.
  abbrev pub retried : Sht31 Bus × Option (ℕ × ℕ) → Sht31 Bus × Option (ℕ × ℕ)
  retried (s, some words) = (s, some words)
  retried (s, none) = sample (soft_reset s)

  abbrev pub reported : Sht31 Bus × Option (ℕ × ℕ) → Sht31 Bus × List Reading
  reported (s, none) = (s, [])
  reported (s, some (t_raw, rh_raw)) = (
    record s { last_rh_tenths = some (rh_tenths rh_raw); last_t_tenths = some (temp_tenths t_raw) },
    readings_of t_raw rh_raw,
  )

  unfoldable pub measure : Sht31 Bus → Sht31 Bus × List Reading
  measure s = reported (retried (sample (record s { last_rh_tenths = none; last_t_tenths = none })))

  unfoldable pub measure_temperature_tenths : Sht31 Bus → Sht31 Bus × Option ℤ
  measure_temperature_tenths s = let after = (measure s).0 in (after, after.last_t_tenths)
