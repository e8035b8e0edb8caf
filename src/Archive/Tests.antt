-- ===== src/Archive/Tests.antt =====
-- A house with one node, a parser of one JSON text, and values that are integers.
use rs_smarthome_nodes.Base.{
  ℕ, ◌+◌, ◌-◌, ◌*◌, ◌/◌, ◌%◌, ◌≡◌, refl, Bool, true, false, ◌||◌, Option, none, some, List, [], ◌∷◌,
  ◌==◌, if◌then◌else◌, arith,
}
use rs_smarthome_nodes.Base.Bytes.{Bytes}
use rs_smarthome_nodes.Base.Double.{Float64, is_finite}
use rs_smarthome_nodes.Base.Int.{ℤ, pos, negsuc, ◌-ℤ◌, ◌*ℤ◌, ltb_ℤ}
use rs_smarthome_nodes.Base.Keyed.{get, insert, remove}
use rs_smarthome_nodes.Base.Text.{
  codes, bytes_eq, is_utf8, from_utf8, trim_start, trim_end, trim, split, split_once, lacks-Lacks,
}
use rs_smarthome_nodes.Base.Text.Decimal.{is_digit}
use rs_smarthome_nodes.Archive.{Reading, Record}
use rs_smarthome_nodes.Archive.Handling.{
  Mqtt, Message, Event, con_ack, publish, lost, handle_reading, handle_status, handle_as, handle,
  readings_filter, meter_filter, discovery_filter, step, run,
}
use rs_smarthome_nodes.Archive.Handling.Accounting.{IsAccounted, run-IsAccounted, due, stored}
use rs_smarthome_nodes.Archive.Handling.Replays.{IsSane, handle-replay}
use rs_smarthome_nodes.Archive.Handling.Subscribed.{matches, classify-covered}
use rs_smarthome_nodes.Archive.Handling.Transitions.{rows, transitions, claims, run-transitions}
use rs_smarthome_nodes.Archive.Measurements.{
  Json, parse_value, decimals_in, contains, sane_micros, parse_json, parse_measurement,
  parse_availability,
}
use rs_smarthome_nodes.Archive.Shared.{
  new, record_reading, skip, observe, observe_precision, set_online, online, set_broker_connected,
}
use rs_smarthome_nodes.Archive.Topics.{node_topic, namespace_topic, classify_parts, classify}

abbrev pub toy_json : Json
toy_json = record {
  Value = Bytes;
  Number = ℕ;
  from_slice = λ payload. some payload;
  field = λ json key. some json;
  number = λ json. some 42;
  as_f64 = λ n. some n;
  show_number = λ n. codes "21.5";
  as_i64 = λ json. some (pos 1_789_675_200_123);
  as_str = λ json. some json;
  as_bool = λ json. none;
}

abbrev pub parse_digit : Bytes → Option ℕ
parse_digit [] = none
parse_digit (c ∷ cs) = if is_digit c then some (c - 48) else none

-- An integer as a pattern: the even ones are not negative.
abbrev pub value : ℕ → ℤ
value v = if v % 2 == 0 then pos (v / 2) else negsuc (v / 2)

abbrev pub pattern_of : ℤ → ℕ
pattern_of (pos n) = 2 * n
pattern_of (negsuc n) = 2 * n + 1

pub value-pattern_of : (z : ℤ) → value (pattern_of z) ≡ z
value-pattern_of (pos n) = ground arith
value-pattern_of (negsuc n) = ground arith

abbrev pub toy_floats : Float64
toy_floats = record {
  parse = parse_digit;
  show = λ v. codes "1.0";
  sub = λ a b. pattern_of (value a -ℤ value b);
  less = λ a b. ltb_ℤ (value a) (value b);
}

abbrev house : Mqtt
house = record { namespace = codes "smarthome"; discovery_prefix = codes "homeassistant" }

abbrev message : Bytes → Bytes → Bool → Message
message topic payload retained = record {
  topic = topic;
  payload = payload;
  retained = retained;
  now = pos 1_800_000_000_000_000;
}

abbrev co2 : Message
co2 = message (codes "smarthome/bed/co2") (codes "{}") true

abbrev undated : Message
undated = message (codes "smarthome/bed/co2") (codes "7.25") true

abbrev fresh : Message
fresh = message (codes "smarthome/bed/main/value") (codes "7.25") false

abbrev up : Message
up = message (codes "smarthome/bed/status") (codes "online") true

abbrev down : Message
down = message (codes "smarthome/bed/status") (codes " offline") false

abbrev evening : List Event
evening =
    con_ack
    ∷ publish up
    ∷ publish co2
    ∷ publish undated
    ∷ publish up
    ∷ lost
    ∷ publish down
    ∷ publish fresh
    ∷ []

evening-rows : rows (codes "bed") (run toy_json toy_floats house evening new).1 ≡ true ∷ false ∷ []
unfolding run step handle handle_as handle_reading handle_status classify classify_parts
    namespace_topic node_topic split bytes_eq is_utf8 from_utf8 trim trim_start trim_end
    parse_availability parse_measurement parse_json parse_value decimals_in contains split_once
    sane_micros is_finite set_online observe observe_precision skip record_reading
    set_broker_connected get insert remove rows readings_filter meter_filter discovery_filter
evening-rows = refl

run-transitions_example :
    rows (codes "bed") (run toy_json toy_floats house evening new).1
    ≡ transitions (online new (codes "bed")) (claims (codes "bed") house evening)
run-transitions_example = run-transitions (codes "bed") toy_json toy_floats house evening new

run-IsAccounted_example :
    IsAccounted new.stats
      (run toy_json toy_floats house evening new).0.stats
      (due house evening)
      (stored (run toy_json toy_floats house evening new).1)
run-IsAccounted_example =
    run-IsAccounted toy_json toy_floats house evening new (omega arith) (omega arith)

abbrev pub co2_reading : Reading
co2_reading = record {
  node = codes "bed";
  sensor = codes "co2";
  value = 42;
  at = pos 1_789_675_200_123_000;
}

handle-replay_example :
    ((handle toy_json toy_floats house (record co2 { now = pos 5 }) new).1
      ≡ some (Record.reading co2_reading))
    × IsSane co2_reading.at
unfolding handle handle_as handle_reading classify classify_parts namespace_topic node_topic split
    bytes_eq is_utf8 from_utf8 trim trim_start trim_end parse_measurement parse_json parse_value
    decimals_in contains split_once sane_micros is_finite observe observe_precision record_reading
    get insert remove ◌*ℤ◌
handle-replay_example =
    handle-replay toy_json toy_floats house co2 (pos 5) new new {r = co2_reading} refl refl

classify-covered_example :
    (matches (readings_filter (codes "smarthome")) (codes "smarthome/bed/co2")
      || matches (meter_filter (codes "smarthome")) (codes "smarthome/bed/co2")
      || matches (discovery_filter (codes "homeassistant")) (codes "smarthome/bed/co2"))
    ≡ true
unfolding classify classify_parts namespace_topic node_topic split bytes_eq
classify-covered_example =
    classify-covered (codes "smarthome") (codes "homeassistant")
      (lacks-Lacks 47 (codes "smarthome") refl) (lacks-Lacks 47 (codes "homeassistant") refl)
      (codes "smarthome/bed/co2") (λ e. cc)
