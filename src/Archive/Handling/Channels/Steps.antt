-- ===== src/Archive/Handling/Channels/Steps.antt =====
-- What one event of the broker does to what the service remembers of a channel: its live value
-- and its precision (timeseries/src/mqtt.rs, timeseries/src/state.rs).
use rs_smarthome_nodes.Base.{
  ℕ, max, ◌≡◌, refl, ap, ◌∙◌, sym, Bool, true, false, Option, none, some, List, [], ◌∷◌, ◌++◌,
  arith, ◌==◌, if-keeps, if◌then◌else◌,
}
use rs_smarthome_nodes.Base.Bytes.{Bytes}
use rs_smarthome_nodes.Base.Double.{Float64}
use rs_smarthome_nodes.Base.Int.{ℤ}
use rs_smarthome_nodes.Base.Keyed.{get, get-insert, pair_key, pair_same, pair_same→eq}
use rs_smarthome_nodes.Base.Words.{quot_ℤ}
use rs_smarthome_nodes.Archive.{Reading, Availability, Record, ChannelMeta}
use rs_smarthome_nodes.Archive.Handling.{
  Mqtt, Message, Event, con_ack, publish, other, lost, Effect, subscribe, send, sends, dated,
  is_online, handle_dated, handle_reading, handle_status, handle_discovery, handle_as, handle, step,
  parsed, recorded, labelled,
}
use rs_smarthome_nodes.Archive.Measurements.{
  Json, Measurement, parse_measurement, parse_availability, parse_discovery,
}
use rs_smarthome_nodes.Archive.Shared.{
  Shared, observe, observe_precision, skip, set_online, set_meta, forget_meta, set_broker_connected,
  live, precision, or_zero,
}
use rs_smarthome_nodes.Archive.Topics.{Parsed, reading, status, discovery, ignored}

unfoldable pub widest : ℕ → List ℕ → ℕ
widest seen [] = seen
widest seen (n ∷ ns) = widest (max seen n) ns

pub widest-append : (seen : ℕ) (a b : List ℕ) → widest seen (a ++ b) ≡ widest (widest seen a) b
unfolding widest
widest-append seen [] b = refl
widest-append seen (n ∷ a) b = widest-append (max seen n) a b

module _ (node sensor : Bytes) where
  -- What a message says of the channel and is not dropped: its decimals.
  abbrev pub width_of : Measurement → Option ℤ → List ℕ
  width_of m none = []
  width_of m (some at) = m.decimals ∷ []

  abbrev pub width_in : Bool → ℤ → Option Measurement → List ℕ
  width_in retained now none = []
  width_in retained now (some m) = width_of m (dated retained now m.at)

  abbrev pub width_as : Json → Float64 → Parsed → Message → List ℕ
  width_as j f (reading n key) m =
      if pair_same (n, key) (node, sensor)
      then width_in m.retained m.now (parse_measurement j f m.payload)
      else []
  width_as j f (status n) m = []
  width_as j f (discovery n key) m = []
  width_as j f ignored m = []

  abbrev pub width : Json → Float64 → Mqtt → Event → List ℕ
  width j f mqtt (publish m) = width_as j f (parsed mqtt m) m
  width j f mqtt con_ack = []
  width j f mqtt other = []
  width j f mqtt lost = []

  -- The decimals of all the channel's readings that were stored.
  unfoldable pub widths : Json → Float64 → Mqtt → List Event → List ℕ
  widths j f mqtt [] = []
  widths j f mqtt (e ∷ es) = width j f mqtt e ++ widths j f mqtt es

  abbrev pub newer : Effect → Option (ℕ × ℤ) → Option (ℕ × ℤ)
  newer (send (Record.reading r)) before =
      if pair_same (r.node, r.sensor) (node, sensor)
      then some (r.value, quot_ℤ r.at 1000)
      else before
  newer (send (Record.status n up at)) before = before
  newer (subscribe filter) before = before

  -- The last of the channel's readings that were handed to the writer, in milliseconds.
  unfoldable pub newest : Option (ℕ × ℤ) → List Effect → Option (ℕ × ℤ)
  newest before [] = before
  newest before (e ∷ es) = newest (newer e before) es

  pub newest-append :
      (before : Option (ℕ × ℤ)) (a b : List Effect)
      → newest before (a ++ b) ≡ newest (newest before a) b
  unfolding newest
  newest-append before [] b = refl
  newest-append before (e ∷ a) b = newest-append (newer e before) a b

  abbrev pub seen : Shared → ℕ
  seen s = or_zero (precision s node sensor)

  -- What one step does to the two of them.
  pub record Remembers (s : Shared) (after : Shared × List Effect) (ws : List ℕ) : Type 0 where
    pub live_lem : live (after.0) node sensor ≡ newest (live s node sensor) (after.1)
    pub precision_lem : seen (after.0) ≡ widest (seen s) ws

  abbrev sent : Shared × Option Record → Shared × List Effect
  sent (s, r) = (s, sends r)

  precision-observe :
      (n key : Bytes) (decimals : ℕ) (s : Shared)
      → seen (observe_precision n key decimals s)
        ≡ widest (seen s) (if pair_same (n, key) (node, sensor) then decimals ∷ [] else [])
  unfolding observe_precision precision widest
  precision-observe n key decimals s = ground (
    arith,
    get-insert s.precisions (n, key) (node, sensor)
        (max (or_zero (get s.precisions (n, key))) decimals),
    pair_same→eq (n, key) (node, sensor),
  )

  live-observe_precision :
      (n key : Bytes) (decimals : ℕ) (s : Shared)
      → live (observe_precision n key decimals s) node sensor ≡ live s node sensor
  unfolding observe_precision live
  live-observe_precision n key decimals s =
      if-keeps (λ (t : Shared). get t.lives (node, sensor) ≡ get s.lives (node, sensor))
        (decimals == 0) refl refl

  handle_dated-Remembers :
      (n key : Bytes) (m : Measurement) (at : Option ℤ) (s : Shared)
      → Remembers s
          (sent (handle_dated n key m at s))
          (if pair_same (n, key) (node, sensor) then width_of m at else [])
  handle_dated-Remembers n key m none s = unfold skip live precision newest widest in ground arith
  handle_dated-Remembers n key m (some at) s =
      let r : Reading = record { node = n; sensor = key; value = m.value; at = at } in
      record {
        live_lem =
            live-observe_precision n key m.decimals (observe r s)
            ∙ (unfold live observe newest in
                get-insert s.lives (n, key) (node, sensor) (m.value, quot_ℤ at 1000));
        precision_lem =
            precision-observe n key m.decimals (observe r s) ∙ (unfold precision observe in refl);
      }

  handle_reading-Remembers :
      (n key : Bytes) (retained : Bool) (now : ℤ) (m : Option Measurement) (s : Shared)
      → Remembers s
          (sent (handle_reading n key retained now m s))
          (if pair_same (n, key) (node, sensor) then width_in retained now m else [])
  unfolding handle_reading
  handle_reading-Remembers n key retained now none s =
      unfold skip live precision newest widest in ground arith
  handle_reading-Remembers n key retained now (some m) s =
      handle_dated-Remembers n key m (dated retained now m.at) s

  -- What leaves both maps alone, and sends no reading.
  Quiet : Shared → Shared × Option Record → Type 0
  Quiet s (after, r) =
      (after.lives ≡ s.lives)
      × (after.precisions ≡ s.precisions)
      × ((before : Option (ℕ × ℤ)) → newest before (sends r) ≡ before)

  Quiet-Remembers : (s : Shared) (p : Shared × Option Record) → Quiet s p → Remembers s (sent p) []
  unfolding Quiet live precision widest
  Quiet-Remembers s (after, r) (a, b, c) = record {
    live_lem = ap (λ m. get m (node, sensor)) a ∙ sym (c _);
    precision_lem = ap (λ m. or_zero (get m (node, sensor))) b;
  }

  recorded-Quiet :
      (n : Bytes) (up : Bool) (now : ℤ) (s : Shared) (news : Bool) (t : Shared)
      → (t.lives ≡ s.lives) × (t.precisions ≡ s.precisions)
      → Quiet s (recorded n up now (t, news))
  unfolding Quiet newest
  recorded-Quiet n up now s true t (a, b) = (a, b, λ before. refl)
  recorded-Quiet n up now s false t (a, b) = (a, b, λ before. refl)

  handle_status-Quiet :
      (n : Bytes) (now : ℤ) (state : Option Availability) (s : Shared)
      → Quiet s (handle_status n now state s)
  unfolding handle_status Quiet newest
  handle_status-Quiet n now none s = (refl, refl, λ before. refl)
  handle_status-Quiet n now (some state) s =
      recorded-Quiet n (is_online state) now s (set_online n (is_online state) s).1
        (set_online n (is_online state) s).0 (unfold set_online in (refl, refl))

  labelled-maps :
      (n key : Bytes) (m : Option ChannelMeta) (s : Shared)
      → ((labelled n key m s).lives ≡ s.lives) × ((labelled n key m s).precisions ≡ s.precisions)
  unfolding set_meta
  labelled-maps n key none s = (refl, refl)
  labelled-maps n key (some m) s = (refl, refl)

  handle_discovery-maps :
      (j : Json) (n key payload : Bytes) (s : Shared)
      → ((handle_discovery j n key payload s).lives ≡ s.lives)
        × ((handle_discovery j n key payload s).precisions ≡ s.precisions)
  unfolding handle_discovery
  handle_discovery-maps j n key [] s = unfold forget_meta in (refl, refl)
  handle_discovery-maps j n key (c ∷ cs) s = labelled-maps n key (parse_discovery j (c ∷ cs)) s

  handle_as-Remembers :
      (j : Json) (f : Float64) (what : Parsed) (m : Message) (s : Shared)
      → Remembers s (sent (handle_as j f what m s)) (width_as j f what m)
  unfolding handle_as
  handle_as-Remembers j f (reading n key) m s =
      handle_reading-Remembers n key m.retained m.now (parse_measurement j f m.payload) s
  handle_as-Remembers j f (status n) m s =
      Quiet-Remembers s _ (handle_status-Quiet n m.now (parse_availability m.payload) s)
  handle_as-Remembers j f (discovery n key) m s =
      let (a, b) = handle_discovery-maps j n key m.payload s in
      Quiet-Remembers s (handle_discovery j n key m.payload s, none)
        (unfold Quiet newest in (a, b, λ before. refl))
  handle_as-Remembers j f ignored m s =
      Quiet-Remembers s (s, none) (unfold Quiet newest in (refl, refl, λ before. refl))

  module _ (j : Json) (f : Float64) (mqtt : Mqtt) where
    pub step-Remembers :
        (e : Event) (s : Shared) → Remembers s (step j f mqtt e s) (width j f mqtt e)
    unfolding step
    step-Remembers (publish m) s = unfold handle in handle_as-Remembers j f (parsed mqtt m) m s
    step-Remembers con_ack s =
        unfold set_broker_connected live precision newest widest in
        record { live_lem = refl; precision_lem = refl }
    step-Remembers lost s =
        unfold set_broker_connected live precision newest widest in
        record { live_lem = refl; precision_lem = refl }
    step-Remembers other s =
        unfold newest widest in record { live_lem = refl; precision_lem = refl }
