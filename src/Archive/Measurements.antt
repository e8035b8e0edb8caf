-- ===== src/Archive/Measurements.antt =====
-- What a payload says: the parsers of timeseries/src/mqtt.rs. JSON is a parameter.
use rs_smarthome_nodes.Base.{
  ℕ, min, Bool, false, ◌&&◌, ◌||◌, not, Option, none, some, [], ◌∷◌, length, ◌==◌, ◌>>=◌,
  if◌then◌else◌,
}
use rs_smarthome_nodes.Base.Bytes.{Bytes}
use rs_smarthome_nodes.Base.Double.{Float64, is_finite}
use rs_smarthome_nodes.Base.Int.{ℤ, pos, ◌*ℤ◌, ltb_ℤ}
use rs_smarthome_nodes.Base.Text.{codes, bytes_eq, from_utf8, trim, split_once}
use rs_smarthome_nodes.Archive.{Availability, online, offline, ChannelMeta}

-- `serde_json::Value` with the accessors that are used; `number` is the `Number` of a value.
pub record Json : Type 1 where
  pub Value : Type 0
  pub Number : Type 0
  pub from_slice : Bytes → Option Value
  pub field : Value → Bytes → Option Value
  pub number : Value → Option Number
  pub as_f64 : Number → Option ℕ
  pub show_number : Number → Bytes
  pub as_i64 : Value → Option ℤ
  pub as_str : Value → Option Bytes
  pub as_bool : Value → Option Bool

abbrev pub finite : ℕ → Option ℕ
finite v = if is_finite v then some v else none

unfoldable pub parse_value : Float64 → Bytes → Option ℕ
parse_value f payload = from_utf8 payload >>= λ text. f.parse (trim text) >>= finite

abbrev pub max_decimals : ℕ
max_decimals = 6

unfoldable pub contains : Bytes → ℕ → Bool
contains [] c = false
contains (x ∷ xs) c = x == c || contains xs c

abbrev pub fraction_len : Option (Bytes × Bytes) → ℕ
fraction_len none = 0
fraction_len (some (whole, fraction)) = min (length fraction) max_decimals

unfoldable pub decimals_in : Bytes → ℕ
unfolding contains
decimals_in text =
    let trimmed = trim text in
    if contains trimmed b'e' || contains trimmed b'E'
    then 0
    else fraction_len (split_once b'.' trimmed)

pub record Measurement : Type 0 where
  pub value : ℕ
  pub at : Option ℤ
  pub decimals : ℕ

abbrev pub sane_from_ms : ℤ
sane_from_ms = pos 1_735_689_600_000

abbrev pub sane_until_ms : ℤ
sane_until_ms = pos 4_102_444_800_000

abbrev pub is_sane : ℤ → Bool
is_sane ms = not (ltb_ℤ ms sane_from_ms) && ltb_ℤ ms sane_until_ms

unfoldable pub sane_micros : ℤ → Option ℤ
sane_micros ms = if is_sane ms then some (ms *ℤ pos 1000) else none

abbrev pub decimals_of_text : Option Bytes → ℕ
decimals_of_text none = 0
decimals_of_text (some text) = decimals_in text

abbrev pub bare : Bytes → ℕ → Measurement
bare payload v = record { value = v; at = none; decimals = decimals_of_text (from_utf8 payload) }

abbrev pub or_else {ℓ} : {A : Type ℓ} → Option A → Option A → Option A
or_else none b = b
or_else (some a) b = some a

abbrev pub or_bare : Option Measurement → Bytes → Option ℕ → Option Measurement
or_bare json payload none = json
or_bare json payload (some v) = some (bare payload v)

abbrev pub availability_of : Bytes → Option Availability
availability_of text =
    if bytes_eq text (codes "online")
    then some online
    else if bytes_eq text (codes "offline")
    then some offline
    else none

unfoldable pub parse_availability : Bytes → Option Availability
parse_availability payload = from_utf8 payload >>= λ text. availability_of (trim text)

abbrev pub or_default : Option Bytes → Bytes
or_default none = []
or_default (some text) = text

module _ (j : Json) where
  abbrev pub number_at : j.Value → Option j.Number
  number_at json = j.field json (codes "v") >>= j.number

  abbrev pub time_at : j.Value → Option ℤ
  time_at json = j.field json (codes "t") >>= λ t. j.as_i64 t >>= sane_micros

  unfoldable pub parse_json : Bytes → Option Measurement
  parse_json payload = j.from_slice payload >>= λ json. number_at json >>= λ number.
      j.as_f64 number >>= finite >>= λ v.
      some (record { value = v; at = time_at json; decimals = decimals_in (j.show_number number) })

  unfoldable pub parse_measurement : Float64 → Bytes → Option Measurement
  parse_measurement f payload = or_bare (parse_json payload) payload (parse_value f payload)

  unfoldable pub label : j.Value → Bytes → Bytes → Bytes
  label json short long = or_default (or_else (j.field json short) (j.field json long) >>= j.as_str)

  unfoldable pub parse_discovery : Bytes → Option ChannelMeta
  unfolding label
  parse_discovery payload = j.from_slice payload >>= λ json. some (record {
    name = label json (codes "name") (codes "name");
    unit = label json (codes "unit_of_meas") (codes "unit_of_measurement");
    device_class = label json (codes "dev_cla") (codes "device_class");
    state_class = label json (codes "stat_cla") (codes "state_class");
    entity_category = label json (codes "ent_cat") (codes "entity_category");
    node_name = or_default (
        or_else (j.field json (codes "dev")) (j.field json (codes "device")) >>= λ dev.
        j.field dev (codes "name") >>= j.as_str);
  })
