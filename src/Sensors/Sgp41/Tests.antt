-- ===== src/Sensors/Sgp41/Tests.antt =====
-- A sensor that answers every read with its default words, and an index that is the raw signal.
use rs_smarthome_nodes.Base.{ℕ, ◌+◌, ◌≡◌, refl, Bool, true, false, none, some, List, [], ◌∷◌, take}
use rs_smarthome_nodes.Base.Bytes.{Bytes}
use rs_smarthome_nodes.Base.Int.{pos}
use rs_smarthome_nodes.Crc.{crc_word, crc8_sensirion, crc8_sensirion_loop, crc8_sensirion_bits}
use rs_smarthome_nodes.Sensors.I2c.{I2c}
use rs_smarthome_nodes.Sensors.Sgp41.{GasIndex, sgp41, Driver, new, words_ok, sample_once}
use rs_smarthome_nodes.Sensors.Sgp41.Cadence
use rs_smarthome_nodes.Sensors.Sgp41.Published.{IsShown, sample_once-IsShown}

abbrev bus : I2c
bus = record {
  Bus = List (Bytes × Bool);
  write = λ b addr bytes. ((bytes, true) ∷ b, true);
  read = λ b addr n. (b, some (take n (0x80 ∷ 0 ∷ 0xa2 ∷ 0x66 ∷ 0x66 ∷ 0x93 ∷ [])));
  after = λ b ms. b;
  sent = λ b. b;
  sent-write = λ b addr bytes. refl;
  sent-read = λ b addr n. refl;
  sent-after = λ b ms. refl;
}

abbrev counting : GasIndex
counting = record {
  State = ℕ;
  fresh_voc = 0;
  fresh_nox = 0;
  process = λ steps raw. (steps + 1, raw);
}

abbrev warm : Driver bus counting
warm = record (new bus counting []) { conditioning_left = 0 }

warm_shows :
    (sample_once bus counting warm).latest
    ≡ some (record { voc = pos 0x8000; nox = some (pos 0x6666) })
unfolding sample_once crc_word crc8_sensirion crc8_sensirion_loop crc8_sensirion_bits words_ok
warm_shows = refl

sample_once-IsShown_example :
    IsShown (sample_once bus counting warm).latest (sample_once bus counting warm).conditioning_left
sample_once-IsShown_example = sample_once-IsShown bus counting warm tt

abbrev deaf_bus : I2c
deaf_bus = record {
  Bus = List (Bytes × Bool);
  write = λ b addr bytes. ((bytes, false) ∷ b, false);
  read = λ b addr n. (b, none);
  after = λ b ms. b;
  sent = λ b. b;
  sent-write = λ b addr bytes. refl;
  sent-read = λ b addr n. refl;
  sent-after = λ b ms. refl;
}

-- Detected, and eight steps before the end of its conditioning.
abbrev heating : Driver deaf_bus counting
heating = record (new deaf_bus counting []) { part = some sgp41; conditioning_left = 8 }
