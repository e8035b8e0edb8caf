-- ===== src/Archive/Handling/Accounting.antt =====
-- The counters of the ingest task (timeseries/src/mqtt.rs, timeseries/src/state.rs).
use rs_smarthome_nodes.Base.{
  ℕ, ◌+◌, ◌-◌, ◌≤◌, ◌<◌, ◌%◌, ◌≡◌, refl, Bool, Option, none, some, List, [], ◌∷◌, ◌++◌, arith, ◌==◌,
  if-keeps,
}
use rs_smarthome_nodes.Base.Bytes.{Bytes}
use rs_smarthome_nodes.Base.Double.{Float64}
use rs_smarthome_nodes.Base.Int.{ℤ}
use rs_smarthome_nodes.Base.Words.{u64_mod}
use rs_smarthome_nodes.Archive.{Availability, Record, ChannelMeta}
use rs_smarthome_nodes.Archive.Handling.{
  Mqtt, Message, Event, con_ack, publish, other, lost, Effect, subscribe, send, sends, dated,
  is_online, handle_dated, handle_reading, handle_status, handle_discovery, handle_as, handle, step,
  run, parsed, recorded, labelled,
}
use rs_smarthome_nodes.Archive.Measurements.{
  Json, Measurement, parse_measurement, parse_availability, parse_discovery,
}
use rs_smarthome_nodes.Archive.Shared.{
  Shared, Stats, observe, observe_precision, skip, set_online, set_meta, forget_meta,
  set_broker_connected,
}
use rs_smarthome_nodes.Archive.Topics.{Parsed, reading, status, discovery, ignored}

abbrev pub is_reading_row : Effect → ℕ
is_reading_row (send (Record.reading r)) = 1
is_reading_row (send (Record.status n up at)) = 0
is_reading_row (subscribe filter) = 0

-- How many readings the writer was handed.
unfoldable pub stored : List Effect → ℕ
stored [] = 0
stored (e ∷ es) = is_reading_row e + stored es

abbrev pub is_due_as : Parsed → ℕ
is_due_as (reading node sensor) = 1
is_due_as (status node) = 0
is_due_as (discovery node sensor) = 0
is_due_as ignored = 0

abbrev pub is_due : Mqtt → Event → ℕ
is_due mqtt (publish m) = is_due_as (parsed mqtt m)
is_due mqtt con_ack = 0
is_due mqtt other = 0
is_due mqtt lost = 0

-- How many messages came on topics of readings.
unfoldable pub due : Mqtt → List Event → ℕ
due mqtt [] = 0
due mqtt (e ∷ es) = is_due mqtt e + due mqtt es

-- Of `arrived` readings `kept` were stored and the others were skipped.
pub record IsAccounted (before after : Stats) (arrived kept : ℕ) : Type 0 where
  pub within : kept ≤ arrived
  pub readings_counted : after.readings ≡ (before.readings + kept) % u64_mod
  pub skipped_counted : after.skipped ≡ (before.skipped + (arrived - kept)) % u64_mod
  pub written_kept : after.rows_written ≡ before.rows_written

InRange : Stats → Type 0
InRange s = (s.readings < u64_mod) × (s.skipped < u64_mod)

stored-append : (a b : List Effect) → stored (a ++ b) ≡ stored a + stored b
unfolding stored
stored-append [] b = omega arith
stored-append (e ∷ a) b = omega (arith, stored-append a b)

Accounts : Shared → ℕ → Shared × Option Record → Type 0
Accounts s arrived (after, r) = IsAccounted s.stats after.stats arrived (stored (sends r))

observe_precision-stats :
    (n sensor : Bytes) (decimals : ℕ) (s : Shared)
    → (observe_precision n sensor decimals s).stats ≡ s.stats
unfolding observe_precision
observe_precision-stats n sensor decimals s =
    if-keeps (λ (t : Shared). t.stats ≡ s.stats) (decimals == 0) refl refl

module _ (n sensor : Bytes) where
  handle_dated-Accounts :
      (m : Measurement) (at : Option ℤ) (s : Shared)
      → InRange s.stats
      → Accounts s 1 (handle_dated n sensor m at s)
  unfolding Accounts stored skip observe InRange
  handle_dated-Accounts m none s h = omega arith
  handle_dated-Accounts m (some at) s h = ground (
    arith,
    observe_precision-stats n sensor m.decimals
        (observe (record { node = n; sensor = sensor; value = m.value; at = at }) s),
  )

  handle_reading-Accounts :
      (retained : Bool) (now : ℤ) (m : Option Measurement) (s : Shared)
      → InRange s.stats
      → Accounts s 1 (handle_reading n sensor retained now m s)
  unfolding handle_reading Accounts stored skip InRange
  handle_reading-Accounts retained now none s h = omega arith
  handle_reading-Accounts retained now (some m) s h =
      handle_dated-Accounts m (dated retained now m.at) s h

  labelled-stats : (m : Option ChannelMeta) (s : Shared) → (labelled n sensor m s).stats ≡ s.stats
  unfolding set_meta
  labelled-stats none s = refl
  labelled-stats (some m) s = refl

  handle_discovery-stats :
      (j : Json) (payload : Bytes) (s : Shared)
      → (handle_discovery j n sensor payload s).stats ≡ s.stats
  unfolding handle_discovery
  handle_discovery-stats j [] s = unfold forget_meta in refl
  handle_discovery-stats j (c ∷ cs) s = labelled-stats (parse_discovery j (c ∷ cs)) s

recorded-Accounts :
    (n : Bytes) (up : Bool) (now : ℤ) (s : Shared) (news : Bool) (t : Shared)
    → t.stats ≡ s.stats
    → InRange s.stats
    → Accounts s 0 (recorded n up now (t, news))
unfolding Accounts stored InRange
recorded-Accounts n up now s Bool.true t e h = ground arith
recorded-Accounts n up now s Bool.false t e h = ground arith

handle_status-Accounts :
    (n : Bytes) (now : ℤ) (state : Option Availability) (s : Shared)
    → InRange s.stats
    → Accounts s 0 (handle_status n now state s)
unfolding handle_status
handle_status-Accounts n now none s h = unfold Accounts InRange stored in omega arith
handle_status-Accounts n now (some state) s h =
    recorded-Accounts n (is_online state) now s (set_online n (is_online state) s).1
      (set_online n (is_online state) s).0 (unfold set_online in refl) h

handle_as-Accounts :
    (j : Json) (f : Float64) (what : Parsed) (m : Message) (s : Shared)
    → InRange s.stats
    → Accounts s (is_due_as what) (handle_as j f what m s)
unfolding handle_as
handle_as-Accounts j f (reading n sensor) m s h =
    handle_reading-Accounts n sensor m.retained m.now (parse_measurement j f m.payload) s h
handle_as-Accounts j f (status n) m s h =
    handle_status-Accounts n m.now (parse_availability m.payload) s h
handle_as-Accounts j f (discovery n sensor) m s h =
    unfold Accounts InRange stored in ground (arith, handle_discovery-stats n sensor j m.payload s)
handle_as-Accounts j f ignored m s h = unfold Accounts InRange stored in omega arith

IsAccounted-chain :
    (a b c : Stats) (arrived kept more_arrived more_kept : ℕ)
    → IsAccounted a b arrived kept
    → IsAccounted b c more_arrived more_kept
    → IsAccounted a c (arrived + more_arrived) (kept + more_kept)
IsAccounted-chain a b c arrived kept more_arrived more_kept h k = omega arith

module _ (j : Json) (f : Float64) (mqtt : Mqtt) where
  step-IsAccounted :
      (e : Event) (s : Shared)
      → InRange s.stats
      → IsAccounted s.stats
          (step j f mqtt e s).0.stats
          (is_due mqtt e)
          (stored (step j f mqtt e s).1)
  unfolding step
  step-IsAccounted (publish m) s h =
      unfold handle Accounts in handle_as-Accounts j f (parsed mqtt m) m s h
  step-IsAccounted con_ack s h = unfold set_broker_connected InRange stored in omega arith
  step-IsAccounted lost s h = unfold set_broker_connected InRange stored in omega arith
  step-IsAccounted other s h = unfold InRange stored in omega arith

  -- Of the messages on topics of readings, each is either handed to the writer and counted as a
  -- reading, or counted as skipped, where the counters wrap as `u64`. The rows written are not
  -- counted here.
  pub run-IsAccounted :
      (es : List Event) (s : Shared)
      → s.stats.readings < u64_mod
      → s.stats.skipped < u64_mod
      → IsAccounted s.stats (run j f mqtt es s).0.stats (due mqtt es) (stored (run j f mqtt es s).1)
  unfolding run due
  run-IsAccounted [] s h k = unfold stored in omega arith
  run-IsAccounted (e ∷ es) s h k =
      let after = step j f mqtt e s in
      let first = step-IsAccounted e s (unfold InRange in (h, k)) in
      rw (stored-append (after.1) (run j f mqtt es (after.0)).1) (
        IsAccounted-chain _ _ _ _ _ _ _ first
          (run-IsAccounted es (after.0) (omega (arith, first)) (omega (arith, first))))
