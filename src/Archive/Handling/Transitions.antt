-- ===== src/Archive/Handling/Transitions.antt =====
-- The status rows that the ingest task writes (timeseries/src/mqtt.rs).
use rs_smarthome_nodes.Base.{
  ◌≡◌, refl, Bool, true, false, Option, none, some, List, [], ◌∷◌, ◌++◌, append_assoc, if-keeps,
  if◌then◌else◌, arith, ◌==◌, ℕ,
}
use rs_smarthome_nodes.Base.Bytes.{Bytes}
use rs_smarthome_nodes.Base.Double.{Float64}
use rs_smarthome_nodes.Base.Int.{ℤ}
use rs_smarthome_nodes.Base.Keyed.{get, get-insert, bytes_key}
use rs_smarthome_nodes.Base.Text.{bytes_eq, bytes_eq→eq}
use rs_smarthome_nodes.Archive.{ChannelMeta, Availability, Record}
use rs_smarthome_nodes.Archive.Handling.{
  Mqtt, Message, Event, con_ack, publish, other, lost, Effect, subscribe, send, sends, is_online,
  dated, handle_dated, handle_reading, handle_status, handle_discovery, handle_as, handle, step,
  run, parsed, labelled,
}
use rs_smarthome_nodes.Archive.Measurements.{
  Json, Measurement, parse_measurement, parse_availability, parse_discovery,
}
use rs_smarthome_nodes.Archive.Shared.{
  Shared, observe, observe_precision, skip, set_online, set_meta, forget_meta, set_broker_connected,
  online, is_news,
}
use rs_smarthome_nodes.Archive.Topics.{Parsed, reading, status, discovery, ignored}

-- What is left of a list of availabilities without those that repeat the one before.
unfoldable pub transitions : Option Bool → List Bool → List Bool
transitions before [] = []
transitions (some true) (true ∷ ups) = transitions (some true) ups
transitions (some false) (false ∷ ups) = transitions (some false) ups
transitions before (up ∷ ups) = up ∷ transitions (some up) ups

module _ (node : Bytes) where
  abbrev pub row_of : Effect → List Bool
  row_of (send (Record.status n up at)) = if bytes_eq n node then up ∷ [] else []
  row_of (send (Record.reading r)) = []
  row_of (subscribe filter) = []

  -- The status rows of the node.
  unfoldable pub rows : List Effect → List Bool
  rows [] = []
  rows (e ∷ es) = row_of e ++ rows es

  rows-append : (a b : List Effect) → rows (a ++ b) ≡ rows a ++ rows b
  unfolding rows
  rows-append [] b = refl
  rows-append (e ∷ a) b = simp (rows-append a b, append_assoc)

  abbrev pub told : Option Availability → List Bool
  told none = []
  told (some state) = is_online state ∷ []

  abbrev pub claim_as : Parsed → Bytes → List Bool
  claim_as (status n) payload = if bytes_eq n node then told (parse_availability payload) else []
  claim_as (reading n sensor) payload = []
  claim_as (discovery n sensor) payload = []
  claim_as ignored payload = []

  unfoldable pub claim : Mqtt → Event → List Bool
  claim mqtt (publish m) = claim_as (parsed mqtt m) m.payload
  claim mqtt con_ack = []
  claim mqtt other = []
  claim mqtt lost = []

  -- What the node's status messages say.
  unfoldable pub claims : Mqtt → List Event → List Bool
  unfolding claim
  claims mqtt [] = []
  claims mqtt (e ∷ es) = claim mqtt e ++ claims mqtt es

  -- One step writes what the claim adds to the transitions.
  abbrev Steps : Shared → Shared × List Effect → List Bool → Type 0
  Steps s after said =
      (more : List Bool)
      → rows (after.1) ++ transitions (online (after.0) node) more
        ≡ transitions (online s node) (said ++ more)

  abbrev sent : Shared × Option Record → Shared × List Effect
  sent (s, r) = (s, sends r)

  transitions-news :
      (before : Option Bool) (up : Bool) (more : List Bool)
      → transitions before (up ∷ more) ≡ (
          if is_news before up then up ∷ transitions (some up) more else transitions (some up) more)
  unfolding transitions
  transitions-news none up more = refl
  transitions-news (some true) true more = refl
  transitions-news (some true) false more = refl
  transitions-news (some false) true more = refl
  transitions-news (some false) false more = refl

  observe_precision-online :
      (n sensor : Bytes) (decimals : ℕ) (s : Shared)
      → online (observe_precision n sensor decimals s) node ≡ online s node
  unfolding observe_precision online
  observe_precision-online n sensor decimals s =
      if-keeps (λ (t : Shared). get t.onlines node ≡ get s.onlines node) (decimals == 0) refl refl

  handle_dated-Steps :
      (n sensor : Bytes) (m : Measurement) (at : Option ℤ) (s : Shared)
      → Steps s (sent (handle_dated n sensor m at s)) []
  unfolding rows skip online
  handle_dated-Steps n sensor m none s more = refl
  handle_dated-Steps n sensor m (some at) s more =
      rw observe_precision-online (unfold observe in refl)

  handle_reading-Steps :
      (n sensor : Bytes) (retained : Bool) (now : ℤ) (m : Option Measurement) (s : Shared)
      → Steps s (sent (handle_reading n sensor retained now m s)) []
  unfolding handle_reading rows skip online
  handle_reading-Steps n sensor retained now none s more = refl
  handle_reading-Steps n sensor retained now (some m) s more =
      handle_dated-Steps n sensor m (dated retained now m.at) s more

  handle_status-Steps :
      (n : Bytes) (now : ℤ) (state : Option Availability) (s : Shared)
      → Steps s (sent (handle_status n now state s)) (if bytes_eq n node then told state else [])
  unfolding handle_status rows set_online online
  handle_status-Steps n now none s more = ground arith
  handle_status-Steps n now (some state) s more = ground (
    arith,
    get-insert s.onlines n node (is_online state),
    transitions-news (get s.onlines node) (is_online state) more,
    bytes_eq→eq n node,
  )

  labelled-online :
      (n sensor : Bytes) (m : Option ChannelMeta) (s : Shared)
      → online (labelled n sensor m s) node ≡ online s node
  unfolding set_meta online
  labelled-online n sensor none s = refl
  labelled-online n sensor (some m) s = refl

  handle_discovery-online :
      (j : Json) (n sensor payload : Bytes) (s : Shared)
      → online (handle_discovery j n sensor payload s) node ≡ online s node
  unfolding handle_discovery
  handle_discovery-online j n sensor [] s = unfold forget_meta online in refl
  handle_discovery-online j n sensor (c ∷ cs) s =
      labelled-online n sensor (parse_discovery j (c ∷ cs)) s

  handle_as-Steps :
      (j : Json) (f : Float64) (what : Parsed) (m : Message) (s : Shared)
      → Steps s (sent (handle_as j f what m s)) (claim_as what m.payload)
  unfolding handle_as
  handle_as-Steps j f (reading n sensor) m s more =
      handle_reading-Steps n sensor m.retained m.now (parse_measurement j f m.payload) s more
  handle_as-Steps j f (status n) m s more =
      handle_status-Steps n m.now (parse_availability m.payload) s more
  handle_as-Steps j f (discovery n sensor) m s more =
      rw (handle_discovery-online j n sensor m.payload s) (unfold rows in refl)
  handle_as-Steps j f ignored m s more = unfold rows in refl

  step-Steps :
      (j : Json) (f : Float64) (mqtt : Mqtt) (e : Event) (s : Shared)
      → Steps s (step j f mqtt e s) (claim mqtt e)
  unfolding step claim
  step-Steps j f mqtt (publish m) s more =
      unfold handle in handle_as-Steps j f (parsed mqtt m) m s more
  step-Steps j f mqtt con_ack s more = unfold rows set_broker_connected online in refl
  step-Steps j f mqtt lost s more = unfold rows set_broker_connected online in refl
  step-Steps j f mqtt other s more = unfold rows in refl

  -- The status rows that a node gets are the transitions of what its status messages say, from the
  -- availability that was known before: each change once, and no repetition.
  pub run-transitions :
      (j : Json) (f : Float64) (mqtt : Mqtt) (es : List Event) (s : Shared)
      → rows (run j f mqtt es s).1 ≡ transitions (online s node) (claims mqtt es)
  unfolding run claims
  run-transitions j f mqtt [] s = unfold rows transitions in refl
  run-transitions j f mqtt (e ∷ es) s =
      rw
        (
          rows-append (step j f mqtt e s).1 (run j f mqtt es (step j f mqtt e s).0).1,
          run-transitions j f mqtt es (step j f mqtt e s).0,
        )
        (step-Steps j f mqtt e s (claims mqtt es))
