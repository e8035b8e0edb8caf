-- ===== src/Archive/Writer/Tests.antt =====
-- Two rows, a database that is away at first, and lines read back.
use rs_smarthome_nodes.Base.{◌≡◌, refl, true, false, some, List, [], ◌∷◌, ◌++◌, arith}
use rs_smarthome_nodes.Base.Int.{pos}
use rs_smarthome_nodes.Base.Text.{codes}
use rs_smarthome_nodes.Archive.{Record}
use rs_smarthome_nodes.Archive.Lines.{escape_tag, ilp_reading, nanos}
use rs_smarthome_nodes.Archive.Lines.Escaping.{
  read_tag, read_reading, read_tag-cut, read_reading-ilp_reading,
}
use rs_smarthome_nodes.Archive.Shared.{new_stats}
use rs_smarthome_nodes.Archive.Tests.{toy_floats, co2_reading}
use rs_smarthome_nodes.Archive.Writer.{Settings, Pending, Answer, Event, arrived, tick, run}
use rs_smarthome_nodes.Archive.Writer.Conserved.{
  Conserves, settled, all_written, all_dropped, lines_in, rows_in, run-Conserves,
}
use rs_smarthome_nodes.Archive.Writer.Delivered.{run-delivers}

abbrev tables : Settings
tables = record { table = codes "readings"; status_table = codes "node_status"; batch_max = 2 }

abbrev idle : Pending
idle = record { body = []; lines = 0; stats = new_stats }

abbrev away : Answer
away = record { accepted = false; now = pos 0 }

abbrev there : Answer
there = record { accepted = true; now = pos 1_800_000_000_000_000 }

abbrev outage : List Event
outage =
    arrived (Record.reading co2_reading) away
    ∷ tick away
    ∷ arrived (Record.status (codes "bed") true (pos 7)) away
    ∷ []

run-Conserves_example :
    Conserves idle
      (lines_in toy_floats tables outage)
      (rows_in outage)
      (run toy_floats tables outage there idle).0
      (run toy_floats tables outage there idle).1
run-Conserves_example = run-Conserves toy_floats tables outage there idle (omega arith)

run-delivers_example :
    (settled (run toy_floats tables outage there idle).1 ≡ lines_in toy_floats tables outage)
    × (all_written (run toy_floats tables outage there idle).1 ≡ rows_in outage)
    × (all_dropped (run toy_floats tables outage there idle).1 ≡ 0)
unfolding rows_in
run-delivers_example =
    run-delivers toy_floats tables outage (pos 1_800_000_000_000_000) idle refl refl (omega arith)
      (omega arith)

read_reading-ilp_reading_example :
    read_reading (ilp_reading toy_floats (codes "readings") co2_reading)
    ≡ some (
      codes "readings",
      codes "bed",
      codes "co2",
      toy_floats.show 42 ++ 32 ∷ (nanos co2_reading.at ++ 10 ∷ []),
    )
read_reading-ilp_reading_example =
    read_reading-ilp_reading toy_floats (codes "readings") co2_reading
      (refl, (refl, (refl, (refl, (refl, (refl, (refl, (refl, tt)))))))) (refl, (refl, (refl, tt)))
      (refl, (refl, (refl, tt)))

read_tag-cut_example :
    read_tag (escape_tag (codes "a" ++ 10 ∷ codes "b") ++ codes ",sensor=x")
    ≡ (codes "a", 32 ∷ (escape_tag (codes "b") ++ codes ",sensor=x"))
read_tag-cut_example = read_tag-cut (codes "a") 10 (codes "b") (codes ",sensor=x") (refl, tt) refl
