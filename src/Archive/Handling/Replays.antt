-- ===== src/Archive/Handling/Replays.antt =====
-- Retained readings, which the broker replays on every connect (timeseries/src/mqtt.rs).
use rs_smarthome_nodes.Base.{
  ℕ, ◌^◌, ◌-◌, ◌≡◌, refl, ◌∙◌, sym, subst, Bool, true, false, Option, none, some, arith, ◌>>=◌,
  bind-eq-some,
}
use rs_smarthome_nodes.Base.Bytes.{Bytes}
use rs_smarthome_nodes.Base.Double.{Float64}
use rs_smarthome_nodes.Base.Int.{ℤ, pos, negsuc, ◌≤ℤ◌, ◌*ℤ◌}
use rs_smarthome_nodes.Archive.{Reading, Availability, Record}
use rs_smarthome_nodes.Archive.Handling.{
  Mqtt, Message, dated, is_online, handle_dated, handle_reading, handle_status, handle_as, handle,
  parsed, recorded,
}
use rs_smarthome_nodes.Archive.Measurements.{
  Json, Measurement, finite, parse_value, parse_json, parse_measurement, parse_availability,
  sane_micros, time_at, number_at, or_bare,
}
use rs_smarthome_nodes.Archive.Shared.{Shared, set_online}
use rs_smarthome_nodes.Archive.Topics.{Parsed, reading, status, discovery, ignored}

-- Between 2025 and 2100, in microseconds; as nanoseconds it still fits an `i64`.
abbrev pub IsSane : ℤ → Type 0
IsSane at =
    (pos 1_735_689_600_000_000 ≤ℤ at)
    × (at ≤ℤ pos 4_102_444_799_999_000)
    × (at *ℤ pos 1000 ≤ℤ pos (2 ^ 63 - 1))

sane_micros-IsSane : (ms : ℤ) {at : ℤ} → sane_micros ms ≡ some at → IsSane at
unfolding sane_micros ◌*ℤ◌
sane_micros-IsSane (pos n) e = ground arith
sane_micros-IsSane (negsuc n) e = ground arith

-- By what a measurement says of its time.
abbrev SaysSane : Option ℤ → Type 0
SaysSane none = Unit {0}
SaysSane (some at) = IsSane at

abbrev AllSane : Option Measurement → Type 0
AllSane none = Unit {0}
AllSane (some m) = SaysSane m.at

bind-AllSane {ℓ} :
    {A : Type ℓ} (o : Option A) (f : A → Option Measurement)
    → ((a : A) → AllSane (f a))
    → AllSane (o >>= f)
bind-AllSane none f h = tt
bind-AllSane (some a) f h = h a

module _ (j : Json) where
  time_at-SaysSane : (json : j.Value) (at : Option ℤ) → time_at j json ≡ at → SaysSane at
  time_at-SaysSane json none e = tt
  time_at-SaysSane json (some at) e =
      let (t, _, timed) = bind-eq-some (j.field json _) _ e in
      let (ms, _, sane) = bind-eq-some (j.as_i64 t) sane_micros timed in sane_micros-IsSane ms sane

  parse_json-AllSane : (payload : Bytes) → AllSane (parse_json j payload)
  unfolding parse_json
  parse_json-AllSane payload = bind-AllSane (j.from_slice payload) _ λ json.
      bind-AllSane (number_at j json) _ λ number.
        bind-AllSane (j.as_f64 number >>= finite) _ λ v. time_at-SaysSane json (time_at j json) refl

  or_bare-AllSane :
      (json : Option Measurement) (payload : Bytes) (v : Option ℕ)
      → AllSane json
      → AllSane (or_bare json payload v)
  or_bare-AllSane json payload none h = h
  or_bare-AllSane json payload (some v) h = tt

  parse_measurement-AllSane :
      (f : Float64) (payload : Bytes) → AllSane (parse_measurement j f payload)
  unfolding parse_measurement
  parse_measurement-AllSane f payload =
      or_bare-AllSane (parse_json j payload) payload (parse_value f payload)
        (parse_json-AllSane payload)

-- What is sent of a retained message does not hang on the clock or the state.
abbrev Replayed : Option Record → Option Record → Type 0
Replayed (some (Record.reading r)) again = (again ≡ some (Record.reading r)) × IsSane r.at
Replayed (some (Record.status n up at)) again = Unit {0}
Replayed none again = Unit {0}

dated-Replayed :
    (n sensor : Bytes) (now later : ℤ) (m : Measurement) (s t : Shared) (at : Option ℤ)
    → SaysSane at
    → Replayed
        (handle_dated n sensor m (dated true now at) s).1
        (handle_dated n sensor m (dated true later at) t).1
dated-Replayed n sensor now later m s t none h = tt
dated-Replayed n sensor now later m s t (some at) h = (refl, h)

handle_reading-Replayed :
    (n sensor : Bytes) (now later : ℤ) (m : Option Measurement) (s t : Shared)
    → AllSane m
    → Replayed (handle_reading n sensor true now m s).1 (handle_reading n sensor true later m t).1
unfolding handle_reading
handle_reading-Replayed n sensor now later none s t h = tt
handle_reading-Replayed n sensor now later (some m) s t h =
    dated-Replayed n sensor now later m s t m.at h

recorded-Replayed :
    (n : Bytes) (up : Bool) (now : ℤ) (p : Shared × Bool) (again : Option Record)
    → Replayed (recorded n up now p).1 again
recorded-Replayed n up now (s, true) again = tt
recorded-Replayed n up now (s, false) again = tt

handle_status-Replayed :
    (n : Bytes) (now : ℤ) (state : Option Availability) (s : Shared) (again : Option Record)
    → Replayed (handle_status n now state s).1 again
unfolding handle_status
handle_status-Replayed n now none s again = tt
handle_status-Replayed n now (some state) s again =
    recorded-Replayed n (is_online state) now (set_online n (is_online state) s) again

module _ (j : Json) (f : Float64) where
  handle_as-Replayed :
      (what : Parsed) (m : Message) (later : ℤ) (s t : Shared)
      → m.retained ≡ true
      → Replayed (handle_as j f what m s).1 (handle_as j f what (record m { now = later }) t).1
  unfolding handle_as
  handle_as-Replayed (reading n sensor) m later s t h =
      subst
        (λ kept.
          Replayed (handle_reading n sensor kept m.now (parse_measurement j f m.payload) s).1
            (handle_reading n sensor kept later (parse_measurement j f m.payload) t).1)
        (sym h)
        (handle_reading-Replayed n sensor m.now later (parse_measurement j f m.payload) s t
          (parse_measurement-AllSane j f m.payload))
  handle_as-Replayed (status n) m later s t h =
      handle_status-Replayed n m.now (parse_availability m.payload) s _
  handle_as-Replayed (discovery n sensor) m later s t h = tt
  handle_as-Replayed ignored m later s t h = tt

Replayed-same :
    (a : Option Record) {again : Option Record} {r : Reading}
    → Replayed a again
    → a ≡ some (Record.reading r)
    → (again ≡ a) × IsSane r.at
Replayed-same (some (Record.reading q)) h e = ground (arith, h)
Replayed-same (some (Record.status n up at)) h e = cc
Replayed-same none h e = cc

-- A retained reading that is stored was dated by its node: its time lies between 2025 and 2100 and
-- fits an `i64` in nanoseconds, and a replay of the message at any time, in any state, stores the
-- same row.
pub handle-replay :
    (j : Json) (f : Float64) (mqtt : Mqtt) (m : Message) (later : ℤ) (s t : Shared) {r : Reading}
    → m.retained ≡ true
    → (handle j f mqtt m s).1 ≡ some (Record.reading r)
    → ((handle j f mqtt (record m { now = later }) t).1 ≡ some (Record.reading r)) × IsSane r.at
unfolding handle
handle-replay j f mqtt m later s t h e =
    let (same, sane) =
      Replayed-same (handle_as j f (parsed mqtt m) m s).1
        (handle_as-Replayed j f (parsed mqtt m) m later s t h) e in
    (same ∙ e, sane)
