-- ===== src/Archive/Handling.antt =====
-- The ingest task: `handle` and `run` (timeseries/src/mqtt.rs). The broker is the list of events;
-- what the task does outside itself, subscribing and handing records to the writer, is its output.
pub mod Transitions
pub mod Accounting
pub mod Channels
pub mod Replays
pub mod Subscribed
use rs_smarthome_nodes.Base.{Bool, true, false, Option, none, some, List, [], ◌∷◌, ◌++◌}
use rs_smarthome_nodes.Base.Bytes.{Bytes}
use rs_smarthome_nodes.Base.Double.{Float64}
use rs_smarthome_nodes.Base.Int.{ℤ}
use rs_smarthome_nodes.Base.Text.{codes}
use rs_smarthome_nodes.Archive.{Reading, Availability, online, offline, ChannelMeta, Record}
use rs_smarthome_nodes.Archive.Measurements.{
  Json, Measurement, parse_measurement, parse_availability, parse_discovery,
}
use rs_smarthome_nodes.Archive.Shared.{
  Shared, observe, observe_precision, skip, set_online, set_meta, forget_meta, set_broker_connected,
}
use rs_smarthome_nodes.Archive.Topics.{Parsed, reading, status, discovery, ignored, classify}

-- The settings that the task reads.
pub record Mqtt : Type 0 where
  pub namespace : Bytes
  pub discovery_prefix : Bytes

-- A message, with the clock when it is handled.
pub record Message : Type 0 where
  pub topic : Bytes
  pub payload : Bytes
  pub retained : Bool
  pub now : ℤ

-- `none` drops the reading: it is retained and does not say when it was taken.
abbrev pub dated : Bool → ℤ → Option ℤ → Option ℤ
dated retained now (some at) = some at
dated true now none = none
dated false now none = some now

abbrev pub is_online : Availability → Bool
is_online online = true
is_online offline = false

abbrev pub handle_dated : Bytes → Bytes → Measurement → Option ℤ → Shared → Shared × Option Record
handle_dated node sensor m none s = (skip s, none)
handle_dated node sensor m (some at) s =
    let r : Reading = record { node = node; sensor = sensor; value = m.value; at = at } in
    (observe_precision node sensor m.decimals (observe r s), some (Record.reading r))

unfoldable pub handle_reading :
    Bytes → Bytes → Bool → ℤ → Option Measurement → Shared → Shared × Option Record
handle_reading node sensor retained now none s = (skip s, none)
handle_reading node sensor retained now (some m) s =
    handle_dated node sensor m (dated retained now m.at) s

abbrev pub recorded : Bytes → Bool → ℤ → Shared × Bool → Shared × Option Record
recorded node up now (s, true) = (s, some (Record.status node up now))
recorded node up now (s, false) = (s, none)

unfoldable pub handle_status : Bytes → ℤ → Option Availability → Shared → Shared × Option Record
handle_status node now none s = (s, none)
handle_status node now (some state) s =
    recorded node (is_online state) now (set_online node (is_online state) s)

abbrev pub labelled : Bytes → Bytes → Option ChannelMeta → Shared → Shared
labelled node sensor none s = s
labelled node sensor (some m) s = set_meta node sensor m s

-- What the loop of `run` does to the outside, and what `poll` hands it.
pub data Effect : Type 0 where
  subscribe : Bytes → Effect
  send : Record → Effect

pub data Event : Type 0 where
  con_ack : Event
  publish : Message → Event
  other : Event
  lost : Event

unfoldable pub readings_filter : Bytes → Bytes
readings_filter namespace = namespace ++ codes "/+/+"

unfoldable pub meter_filter : Bytes → Bytes
meter_filter namespace = namespace ++ codes "/+/+/+"

unfoldable pub discovery_filter : Bytes → Bytes
discovery_filter prefix = prefix ++ codes "/sensor/+/+/config"

abbrev pub sends : Option Record → List Effect
sends none = []
sends (some r) = send r ∷ []

abbrev pub parsed : Mqtt → Message → Parsed
parsed mqtt m = classify mqtt.namespace mqtt.discovery_prefix m.topic

unfoldable pub handle_discovery : Json → Bytes → Bytes → Bytes → Shared → Shared
handle_discovery j node sensor [] s = forget_meta node sensor s
handle_discovery j node sensor (c ∷ cs) s = labelled node sensor (parse_discovery j (c ∷ cs)) s

unfoldable pub handle_as : Json → Float64 → Parsed → Message → Shared → Shared × Option Record
unfolding handle_discovery
handle_as j f (reading node sensor) m s =
    handle_reading node sensor m.retained m.now (parse_measurement j f m.payload) s
handle_as j f (status node) m s = handle_status node m.now (parse_availability m.payload) s
handle_as j f (discovery node sensor) m s = (handle_discovery j node sensor m.payload s, none)
handle_as j f ignored m s = (s, none)

module _ (j : Json) (f : Float64) (mqtt : Mqtt) where
  unfoldable pub handle : Message → Shared → Shared × Option Record
  unfolding handle_as
  handle m s = handle_as j f (parsed mqtt m) m s

  unfoldable pub step : Event → Shared → Shared × List Effect
  unfolding handle readings_filter meter_filter discovery_filter
  step con_ack s = (
    set_broker_connected true s,
    subscribe (readings_filter mqtt.namespace)
        ∷ subscribe (meter_filter mqtt.namespace)
        ∷ subscribe (discovery_filter mqtt.discovery_prefix)
        ∷ [],
  )
  step (publish m) s = ((handle m s).0, sends (handle m s).1)
  step other s = (s, [])
  step lost s = (set_broker_connected false s, [])

  unfoldable pub run : List Event → Shared → Shared × List Effect
  unfolding step
  run [] s = (s, [])
  run (e ∷ es) s =
      let after = step e s in let rest = run es (after.0) in (rest.0, after.1 ++ rest.1)
