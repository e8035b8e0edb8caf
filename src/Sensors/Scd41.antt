-- ===== src/Sensors/Scd41.antt =====
-- The CO₂ sensor: its conversions and the driver (src/sensors/scd41.rs).
pub mod Explained
pub mod Idle
use rs_smarthome_nodes.Base.{
  ℕ, ◌+◌, ◌*◌, ◌/◌, ◌%◌, min, bit_and, Bool, true, false, not, Option, none, some, List, [], ◌∷◌,
  ◌>>=◌, take, drop, ◌==◌, if◌then◌else◌,
}
use rs_smarthome_nodes.Base.Bytes.{Bytes}
use rs_smarthome_nodes.Base.Int.{ℤ, pos, negsuc, sub_ℕ}
use rs_smarthome_nodes.Base.Text.{codes}
use rs_smarthome_nodes.Crc.{crc8_sensirion, crc_word}
use rs_smarthome_nodes.Sensors.{Reading, write_tenths, write_int}
use rs_smarthome_nodes.Sensors.I2c.{I2c}

abbrev pub addr : ℕ
addr = 0x62

abbrev pub cmd_start_low_power_periodic : ℕ
cmd_start_low_power_periodic = 0x21ac

abbrev pub cmd_read_measurement : ℕ
cmd_read_measurement = 0xec05

abbrev pub cmd_measure_single_shot : ℕ
cmd_measure_single_shot = 0x219d

abbrev pub cmd_stop_periodic : ℕ
cmd_stop_periodic = 0x3f86

abbrev pub cmd_get_data_ready : ℕ
cmd_get_data_ready = 0xe4b8

abbrev pub cmd_set_temperature_offset : ℕ
cmd_set_temperature_offset = 0x241d

abbrev pub cmd_get_serial_number : ℕ
cmd_get_serial_number = 0x3682

abbrev pub cmd_perform_self_test : ℕ
cmd_perform_self_test = 0x3639

abbrev pub self_test_ms : ℕ
self_test_ms = 10000

abbrev pub single_shot_ms : ℕ
single_shot_ms = 5000

abbrev pub cmd_delay_ms : ℕ
cmd_delay_ms = 2

abbrev pub default_offset_centi : ℤ
default_offset_centi = pos 400

abbrev pub max_offset_centi : ℕ
max_offset_centi = 2000

abbrev pub co2_ppm : ℕ → ℤ
co2_ppm raw = pos raw

abbrev pub temp_tenths : ℕ → ℤ
temp_tenths raw = sub_ℕ (1750 * raw / 65535) 450

abbrev pub rh_tenths : ℕ → ℤ
rh_tenths raw = pos (1000 * raw / 65535)

unfoldable pub offset_raw : ℤ → ℕ
offset_raw (pos n) = min n max_offset_centi * 65535 / 17500 % 65536
offset_raw (negsuc n) = 0

abbrev pub offset_centi_of : ℕ → ℤ
offset_centi_of raw = pos (17500 * raw / 65535)

abbrev pub data_ready : ℕ → Bool
data_ready status = not (bit_and status 0x07ff == 0)

abbrev pub self_test_passed : ℕ → Bool
self_test_passed status = status == 0

-- `<<` and `|` on words of 16 bits add.
abbrev pub serial_from_words : ℕ × ℕ × ℕ → ℕ
serial_from_words (a, b, c) = a * 0x1_0000_0000 + b * 0x1_0000 + c

pub data Fault : Type 0 where
  offset_rejected start_rejected never_ready ready_unreadable : Fault
  measurement_unreadable no_valid_sample warming : Fault

pub data Mode : Type 0 where
  periodic single_shot : Mode

-- `B` is the bus.
pub record Scd41 (B : Type 0) : Type 0 where
  pub bus : B
  pub mode : Mode
  pub started : Bool
  pub offset_centi : ℤ
  pub written_offset : Option ℤ
  pub known_idle : Bool
  pub fault : Option Fault

abbrev pub new : {B : Type 0} → B → Mode → Scd41 B
new bus mode = record {
  bus = bus;
  mode = mode;
  started = false;
  offset_centi = default_offset_centi;
  written_offset = none;
  known_idle = false;
  fault = none;
}

unfoldable pub same_int : ℤ → ℤ → Bool
same_int (pos a) (pos b) = a == b
same_int (negsuc a) (negsuc b) = a == b
same_int _ _ = false

unfoldable pub is_written : Option ℤ → ℤ → Bool
is_written (some w) centi = same_int w centi
is_written none centi = false

abbrev pub set_temperature_offset : {B : Type 0} → ℤ → Scd41 B → Scd41 B
set_temperature_offset centi s =
    if not (same_int centi s.offset_centi)
    then record s { offset_centi = centi; written_offset = none }
    else s

-- `to_be_bytes` of a `u16`
abbrev pub be16 : ℕ → Bytes
be16 w = w / 256 ∷ w % 256 ∷ []

abbrev pub words_of : Bytes → Option (ℕ × ℕ × ℕ)
words_of buf = do
  a ← crc_word (take 3 buf)
  b ← crc_word (take 3 (drop 3 buf))
  c ← crc_word (take 3 (drop 6 buf))
  some (a, b, c)

module _ (i2c : I2c) where
  open i2c use {Bus, write, read, after}

  abbrev pub failed : {A : Type 0} → Fault → Scd41 Bus → Scd41 Bus × Option A
  failed fault s = (record s { fault = some fault }, none)

  -- What `command` and `write_word` have in common.
  unfoldable pub send : Bytes → Scd41 Bus → Scd41 Bus × Bool
  send bytes s =
      let written = write s.bus addr bytes in
      if not written.1
      then (record s { bus = written.0 }, false)
      else (record s { bus = after written.0 cmd_delay_ms }, true)

  abbrev pub command : ℕ → Scd41 Bus → Scd41 Bus × Bool
  command cmd = send (be16 cmd)

  abbrev pub write_word : ℕ → ℕ → Scd41 Bus → Scd41 Bus × Bool
  write_word cmd arg =
      send (cmd / 256 ∷ cmd % 256 ∷ arg / 256 ∷ arg % 256 ∷ crc8_sensirion (be16 arg) ∷ [])

  abbrev pub settled : Scd41 Bus × Bool → Scd41 Bus
  settled (s, true) = record s { bus = after s.bus 500; started = false; known_idle = true }
  settled (s, false) = record s { started = false; known_idle = true }

  unfoldable pub stop_periodic : Scd41 Bus → Scd41 Bus
  stop_periodic s = settled (command cmd_stop_periodic s)

  unfoldable pub ensure_idle : Scd41 Bus → Scd41 Bus
  ensure_idle s = if not s.known_idle then stop_periodic s else s

  abbrev pub idle_in : Mode → Scd41 Bus → Scd41 Bus
  idle_in periodic s = ensure_idle s
  idle_in single_shot s = s

  abbrev pub offset_sent : Scd41 Bus × Bool → Scd41 Bus × Bool
  offset_sent (s, true) = (record s { written_offset = some s.offset_centi }, true)
  offset_sent (s, false) = (record s { fault = some offset_rejected }, false)

  unfoldable pub sync_offset : Scd41 Bus → Scd41 Bus × Bool
  sync_offset s =
      let sent =
        offset_sent
          (write_word cmd_set_temperature_offset (offset_raw s.offset_centi) (idle_in s.mode s)) in
      if is_written s.written_offset s.offset_centi then (s, true) else sent

  -- A command that is answered by bytes, some time later.
  abbrev pub answered :
      {A : Type 0} → (Bus → Bus) → ℕ → (Bytes → Option A) → Scd41 Bus × Bool → Scd41 Bus × Option A
  answered pause n parse (s, false) = (s, none)
  answered pause n parse (s, true) =
      let got = read (pause s.bus) addr n in (record s { bus = got.0 }, got.1 >>= parse)

  unfoldable pub serial_number : Scd41 Bus → Scd41 Bus × Option ℕ
  serial_number s =
      answered (λ bus. bus) 9 (λ buf. do words ← words_of buf; some (serial_from_words words))
        (command cmd_get_serial_number (ensure_idle s))

  unfoldable pub self_test : Scd41 Bus → Scd41 Bus × Option Bool
  self_test s =
      answered (λ bus. after bus self_test_ms) 3
        (λ buf. do status ← crc_word buf; some (self_test_passed status))
        (command cmd_perform_self_test (ensure_idle s))

  unfoldable pub ready : Scd41 Bus → Scd41 Bus × Option Bool
  ready s =
      answered (λ bus. bus) 3 (λ buf. do status ← crc_word buf; some (data_ready status))
        (command cmd_get_data_ready s)

  unfoldable pub read_measurement : Scd41 Bus → Scd41 Bus × Option (ℕ × ℕ × ℕ)
  read_measurement s = answered (λ bus. bus) 9 words_of (command cmd_read_measurement s)

  abbrev pub or_unreadable : Scd41 Bus × Option (ℕ × ℕ × ℕ) → Scd41 Bus × Option (ℕ × ℕ × ℕ)
  or_unreadable (s, some sample) = (s, some sample)
  or_unreadable (s, none) = failed measurement_unreadable s

  abbrev pub begun : Scd41 Bus × Bool → Scd41 Bus × Option (ℕ × ℕ × ℕ)
  begun (s, false) = failed start_rejected s
  begun (s, true) = failed warming (record s { started = true; known_idle = false })

  abbrev pub when_ready : Scd41 Bus × Option Bool → Scd41 Bus × Option (ℕ × ℕ × ℕ)
  when_ready (s, none) = failed ready_unreadable s
  when_ready (s, some false) = failed never_ready s
  when_ready (s, some true) = or_unreadable (read_measurement s)

  abbrev pub shot : Scd41 Bus × Bool → Scd41 Bus × Option (ℕ × ℕ × ℕ)
  shot (s, false) = failed start_rejected s
  shot (s, true) = or_unreadable (read_measurement (record s { bus = after s.bus single_shot_ms }))

  abbrev pub sample_in : Mode → Scd41 Bus → Scd41 Bus × Option (ℕ × ℕ × ℕ)
  sample_in periodic s =
      let first = begun (command cmd_start_low_power_periodic (ensure_idle s)) in
      if not s.started then first else when_ready (ready s)
  sample_in single_shot s = shot (command cmd_measure_single_shot s)

  abbrev pub synced : Scd41 Bus × Bool → Scd41 Bus × Option (ℕ × ℕ × ℕ)
  synced (s, false) = (s, none)
  synced (s, true) = sample_in s.mode s

  unfoldable pub sample : Scd41 Bus → Scd41 Bus × Option (ℕ × ℕ × ℕ)
  sample s = synced (sync_offset (record s { fault = none }))

  abbrev pub readings_of : ℕ → ℕ → ℕ → List Reading
  readings_of co2_raw t_raw rh_raw =
      record { key = codes "co2"; value = write_int (co2_ppm co2_raw) }
      ∷ record { key = codes "temperature"; value = write_tenths (temp_tenths t_raw) }
      ∷ record { key = codes "humidity"; value = write_tenths (rh_tenths rh_raw) }
      ∷ []

  abbrev pub reported : Scd41 Bus × Option (ℕ × ℕ × ℕ) → Scd41 Bus × List Reading
  reported (s, none) = (s, [])
  reported (s, some (co2_raw, t_raw, rh_raw)) =
      if co2_raw == 0
      then (record s { fault = some no_valid_sample }, [])
      else (s, readings_of co2_raw t_raw rh_raw)

  unfoldable pub measure : Scd41 Bus → Scd41 Bus × List Reading
  measure s = reported (sample s)
