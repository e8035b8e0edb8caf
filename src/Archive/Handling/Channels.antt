-- ===== src/Archive/Handling/Channels.antt =====
-- What the service remembers of a channel after a run: its live value and its precision
-- (timeseries/src/mqtt.rs, timeseries/src/state.rs).
pub mod Steps
use rs_smarthome_nodes.Base.{◌≡◌, refl, ap, ◌∙◌, sym, List, [], ◌∷◌}
use rs_smarthome_nodes.Base.Bytes.{Bytes}
use rs_smarthome_nodes.Base.Double.{Float64}
use rs_smarthome_nodes.Archive.Handling.{Mqtt, Event, step, run}
use rs_smarthome_nodes.Archive.Measurements.{Json}
use rs_smarthome_nodes.Archive.Shared.{Shared, live}
use rs_smarthome_nodes.Archive.Handling.Channels.Steps.{
  newest, newest-append, widest, widest-append, width, widths, seen, step-Remembers,
}

module _ (node sensor : Bytes) (j : Json) (f : Float64) (mqtt : Mqtt) where
  -- The live value of a channel is that of the last of its readings that was handed to the
  -- writer, and what it was before if there was none.
  pub run-live :
      (es : List Event) (s : Shared)
      → live (run j f mqtt es s).0 node sensor
        ≡ newest node sensor (live s node sensor) (run j f mqtt es s).1
  unfolding run
  run-live [] s = unfold newest in refl
  run-live (e ∷ es) s =
      let after = step j f mqtt e s in
      run-live es (after.0)
      ∙ ap (λ v. newest node sensor v (run j f mqtt es (after.0)).1)
          ((step-Remembers node sensor j f mqtt e s).live_lem)
      ∙ sym (newest-append node sensor (live s node sensor) (after.1) (run j f mqtt es (after.0)).1)

  -- The precision of a channel is the largest number of decimals of all its readings that were
  -- stored and of what it was before.
  pub run-precision :
      (es : List Event) (s : Shared)
      → seen node sensor (run j f mqtt es s).0
        ≡ widest (seen node sensor s) (widths node sensor j f mqtt es)
  unfolding run widths
  run-precision [] s = unfold widest in refl
  run-precision (e ∷ es) s =
      let after = step j f mqtt e s in
      run-precision es (after.0)
      ∙ ap (λ n. widest n (widths node sensor j f mqtt es))
          ((step-Remembers node sensor j f mqtt e s).precision_lem)
      ∙ sym (
          widest-append (seen node sensor s) (width node sensor j f mqtt e)
            (widths node sensor j f mqtt es))
