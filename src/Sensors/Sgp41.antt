-- ===== src/Sensors/Sgp41.antt =====
-- The gas sensor: its cadence and the driver (src/sensors/sgp41.rs). The gas index algorithm is
-- another crate's, and a parameter. The messages of the faults are constructors.
pub mod Cadence
mod Tests
pub mod Published
pub mod Deaf
pub mod Silent
use rs_smarthome_nodes.Base.{
  ℕ, ◌+◌, ◌-◌, ◌*◌, ◌/◌, ◌%◌, min, Bool, true, false, Option, none, some, List, [], ◌∷◌, ◌>>=◌,
  take, drop, ◌==◌, if◌then◌else◌,
}
use rs_smarthome_nodes.Base.Bytes.{Bytes}
use rs_smarthome_nodes.Base.Int.{ℤ, pos, negsuc, ltb_ℤ, ◌+ℤ◌}
use rs_smarthome_nodes.Base.Text.{codes}
use rs_smarthome_nodes.Crc.{crc8_sensirion, crc_word}
use rs_smarthome_nodes.Sensors.{Reading, write_int}
use rs_smarthome_nodes.Sensors.I2c.{I2c}

abbrev pub addr : ℕ
addr = 0x59

abbrev pub cmd_measure_raw_signals : ℕ
cmd_measure_raw_signals = 0x2619

abbrev pub cmd_measure_raw : ℕ
cmd_measure_raw = 0x260f

abbrev pub cmd_execute_conditioning : ℕ
cmd_execute_conditioning = 0x2612

abbrev pub cmd_turn_heater_off : ℕ
cmd_turn_heater_off = 0x3615

abbrev pub cmd_get_serial_number : ℕ
cmd_get_serial_number = 0x3682

abbrev pub measure_ms : ℕ
measure_ms = 50

abbrev pub measure_sgp40_ms : ℕ
measure_sgp40_ms = 30

abbrev pub cmd_delay_ms : ℕ
cmd_delay_ms = 2

abbrev pub conditioning_steps : ℕ
conditioning_steps = 10

abbrev pub default_rh_ticks : ℕ
default_rh_ticks = 0x8000

abbrev pub default_t_ticks : ℕ
default_t_ticks = 0x6666

-- `GasIndexAlgorithm`: what it keeps, and one step on a raw signal.
pub record GasIndex : Type 1 where
  pub State : Type 0
  pub fresh_voc : State
  pub fresh_nox : State
  pub process : State → ℤ → State × ℤ

pub data Attempt : Type 0 where
  answered command_refused silent_after_command corrupt_answer : Attempt

pub data Fault : Type 0 where
  corrupt silent refusing stopped returned_nothing noisy : Fault

unfoldable pub fault_for : Attempt → Attempt → Fault
fault_for corrupt_answer _ = corrupt
fault_for answered corrupt_answer = corrupt
fault_for command_refused corrupt_answer = corrupt
fault_for silent_after_command corrupt_answer = corrupt
fault_for silent_after_command _ = silent
fault_for answered silent_after_command = silent
fault_for command_refused silent_after_command = silent
fault_for _ _ = refusing

pub data Part : Type 0 where
  sgp40 sgp41 : Part

abbrev pub clamp_to : ℕ → ℤ → ℕ
clamp_to top (pos n) = min n top
clamp_to top (negsuc n) = 0

-- Rounded to the nearest tick.
unfoldable pub rh_ticks : ℤ → ℕ
rh_ticks rh_tenths = (clamp_to 1000 rh_tenths * 65535 + 500) / 1000 % 65536

unfoldable pub t_ticks : ℤ → ℕ
t_ticks t_tenths = (clamp_to 1750 (t_tenths +ℤ pos 450) * 65535 + 875) / 1750 % 65536

pub record Indices : Type 0 where
  pub voc : ℤ
  pub nox : Option ℤ

-- `B` is the bus, and `G` what the two algorithms keep.
pub record Sgp41 (B G : Type 0) : Type 0 where
  pub bus : B
  pub part : Option Part
  pub voc : G
  pub nox : G
  pub latest : Option Indices
  pub conditioning_left : ℕ
  pub rh : ℕ
  pub t : ℕ
  pub fault : Option Fault

abbrev pub is_answered : Attempt → Bool
is_answered answered = true
is_answered _ = false

-- Every word of three bytes, a shorter one too, passes its checksum.
unfoldable pub words_ok : Bytes → Bool
words_ok (a ∷ b ∷ c ∷ rest) =
    let others = words_ok rest in
    elim (crc_word (a ∷ b ∷ c ∷ [])) [ none ↦ false | some w ↦ others ]
words_ok [] = true
words_ok _ = false

abbrev pub only_positive : ℤ → Option ℤ
only_positive n = if ltb_ℤ (pos 0) n then some n else none

abbrev pub push_nox : Option ℤ → List Reading
push_nox none = []
push_nox (some nox) = record { key = codes "nox_index"; value = write_int nox } ∷ []

abbrev pub readings_of : Option Indices → List Reading
readings_of none = []
readings_of (some i) = record { key = codes "voc_index"; value = write_int i.voc } ∷ push_nox i.nox

-- `<<` and `|` on words of 16 bits add.
abbrev pub serial_of : Bytes → Option ℕ
serial_of buf = do
  a ← crc_word (take 3 buf)
  b ← crc_word (take 3 (drop 3 buf))
  c ← crc_word (take 3 (drop 6 buf))
  some ((a * 0x1_0000 + b) * 0x1_0000 + c)

module _ (i2c : I2c) (gas : GasIndex) where
  open i2c use {Bus, write, read, after}
  open gas use {State, fresh_voc, fresh_nox, process}

  abbrev pub Driver : Type 0
  Driver = Sgp41 Bus State

  abbrev pub new : Bus → Driver
  new bus = record {
    bus = bus;
    part = none;
    voc = fresh_voc;
    nox = fresh_nox;
    latest = none;
    conditioning_left = conditioning_steps;
    rh = default_rh_ticks;
    t = default_t_ticks;
    fault = none;
  }

  unfoldable pub compensate : ℤ → ℤ → Driver → Driver
  compensate rh_tenths t_tenths s = record s { rh = rh_ticks rh_tenths; t = t_ticks t_tenths }

  unfoldable pub write_cmd : ℕ → Driver → Driver × Bool
  write_cmd cmd s =
      let written = write s.bus addr (cmd / 256 ∷ cmd % 256 ∷ []) in
      if written.1
      then (record s { bus = after written.0 cmd_delay_ms }, true)
      else (record s { bus = written.0 }, false)

  abbrev pub serial_read : Driver × Bool → Driver × Option ℕ
  serial_read (s, false) = (s, none)
  serial_read (s, true) =
      let got = read s.bus addr 9 in (record s { bus = got.0 }, got.1 >>= serial_of)

  unfoldable pub serial_number : Driver → Driver × Option ℕ
  unfolding write_cmd
  serial_number s = serial_read (write_cmd cmd_get_serial_number s)

  abbrev pub measure_frame : ℕ → Driver → Bytes
  measure_frame cmd s =
      cmd / 256
      ∷ cmd % 256
      ∷ s.rh / 256
      ∷ s.rh % 256
      ∷ crc8_sensirion (s.rh / 256 ∷ s.rh % 256 ∷ [])
      ∷ s.t / 256
      ∷ s.t % 256
      ∷ crc8_sensirion (s.t / 256 ∷ s.t % 256 ∷ [])
      ∷ []

  unfoldable pub write_measure_cmd : ℕ → Driver → Driver × Bool
  write_measure_cmd cmd s =
      let written = write s.bus addr (measure_frame cmd s) in
      (record s { bus = written.0 }, written.1)

  -- A read behind a wait.
  abbrev pub read_after : ℕ → ℕ → Driver → Driver × Option Bytes
  read_after ms len s =
      let got = read (after s.bus ms) addr len in (record s { bus = got.0 }, got.1)

  abbrev pub attempt_of : Option Bytes → Attempt
  attempt_of none = silent_after_command
  attempt_of (some buf) = if words_ok buf then answered else corrupt_answer

  abbrev pub tried : ℕ → ℕ → Driver × Bool → Driver × Attempt
  tried ms len (s, false) = (s, command_refused)
  tried ms len (s, true) = let got = read_after ms len s in (got.0, attempt_of (got.1))

  unfoldable pub try_part : ℕ → ℕ → ℕ → Driver → Driver × Attempt
  try_part cmd ms len s = tried ms len (write_measure_cmd cmd s)

  abbrev pub as_sgp40 : Attempt → Driver × Attempt → Driver × Option Part
  as_sgp40 first (s, second) =
      if is_answered second
      then (record s { part = some sgp40; conditioning_left = 0; fault = none }, some sgp40)
      else (record s { fault = some (fault_for first second) }, none)

  abbrev pub as_sgp41 : Driver × Attempt → Driver × Option Part
  as_sgp41 (s, first) =
      if is_answered first
      then (record s { part = some sgp41; fault = none }, some sgp41)
      else as_sgp40 first (try_part cmd_measure_raw measure_sgp40_ms 3 s)

  abbrev pub detect_from : Option Part → Driver → Driver × Option Part
  detect_from (some part) s = (s, some part)
  detect_from none s = as_sgp41 (try_part cmd_measure_raw_signals measure_ms 6 s)

  unfoldable pub detect : Driver → Driver × Option Part
  detect s = detect_from s.part s

  abbrev pub conditioned : Driver × Bool → Driver
  conditioned (s, false) = record s { conditioning_left = s.conditioning_left - 1 }
  conditioned (s, true) =
      let got = (read_after measure_ms 3 s).0 in
      record got { conditioning_left = got.conditioning_left - 1 }

  abbrev pub failed : Fault → Driver → Driver
  failed fault s = record s { fault = some fault }

  -- The second algorithm runs on the second word, if there is one that passes its checksum.
  abbrev pub nox_step : State → Option ℕ → State × Option ℤ
  nox_step state none = (state, none)
  nox_step state (some raw) = let next = process state (pos raw) in (next.0, some (next.1))

  abbrev pub nox_word : Part → Bytes → Option ℕ
  nox_word sgp40 buf = none
  nox_word sgp41 buf = crc_word (take 3 (drop 3 buf))

  abbrev pub indices : ℤ → Option ℤ → Option Indices
  indices voc nox =
      if ltb_ℤ (pos 0) voc then some (record { voc = voc; nox = nox >>= only_positive }) else none

  abbrev pub measured : Part → Bytes → Option ℕ → Driver → Driver
  measured part buf none s = failed noisy s
  measured part buf (some raw) s =
      let voc = process s.voc (pos raw) in
      let nox = nox_step s.nox (nox_word part buf) in
      record s { fault = none; voc = voc.0; nox = nox.0; latest = indices (voc.1) (nox.1) }

  abbrev pub got_signals : Part → Driver × Option Bytes → Driver
  got_signals part (s, none) = failed returned_nothing s
  got_signals part (s, some buf) = measured part buf (crc_word (take 3 buf)) s

  abbrev pub signals : Part → ℕ → ℕ → Driver × Bool → Driver
  signals part ms len (s, false) = failed stopped s
  signals part ms len (s, true) = got_signals part (read_after ms len s)

  abbrev pub measure_part : Part → Driver → Driver
  measure_part sgp41 s = signals sgp41 measure_ms 6 (write_measure_cmd cmd_measure_raw_signals s)
  measure_part sgp40 s = signals sgp40 measure_sgp40_ms 3 (write_measure_cmd cmd_measure_raw s)

  abbrev pub sampled : Driver × Option Part → Driver
  sampled (s, none) = record s { latest = none }
  sampled (s, some part) =
      if s.conditioning_left == 0
      then measure_part part s
      else conditioned (write_measure_cmd cmd_execute_conditioning s)

  unfoldable pub sample_once : Driver → Driver
  unfolding detect try_part write_measure_cmd
  sample_once s = sampled (detect s)

  unfoldable pub turn_heater_off : Driver → Driver
  turn_heater_off s = (write_cmd cmd_turn_heater_off s).0

  unfoldable pub readings : Driver → List Reading
  readings s = readings_of s.latest
