-- ===== src/Archive/Writer.antt =====
-- The writer task: `run` and `flush` (timeseries/src/questdb/writer.rs). The database is the answer
-- that comes with an event; nothing is received while a batch is on its way, since the task waits.
pub mod Conserved
mod Tests
pub mod Delivered
use rs_smarthome_nodes.Base.{
  ℕ, ◌+◌, Bool, true, false, List, [], ◌∷◌, ◌++◌, ltb, leb, if◌then◌else◌,
}
use rs_smarthome_nodes.Base.Bytes.{Bytes}
use rs_smarthome_nodes.Base.Double.{Float64}
use rs_smarthome_nodes.Base.Int.{ℤ}
use rs_smarthome_nodes.Archive.{Record, reading, status}
use rs_smarthome_nodes.Archive.Lines.{ilp_reading, ilp_status}
use rs_smarthome_nodes.Archive.Shared.{Stats, record_write, record_write_error, record_dropped}

abbrev pub max_pending_lines : ℕ
max_pending_lines = 100_000

pub record Settings : Type 0 where
  pub table : Bytes
  pub status_table : Bytes
  pub batch_max : ℕ

pub record Pending : Type 0 where
  pub body : Bytes
  pub lines : ℕ
  pub stats : Stats

-- Whether the database takes a batch, and the clock when it has answered.
pub record Answer : Type 0 where
  pub accepted : Bool
  pub now : ℤ

-- What became of a batch, with its rows.
pub data Outcome : Type 0 where
  written : Bytes → ℕ → Outcome
  kept : Bytes → ℕ → Outcome
  dropped : Bytes → ℕ → Outcome

abbrev pub answered : Bool → ℤ → Pending → Pending × List Outcome
answered true now p = (
  record p { body = []; lines = 0; stats = record_write now p.lines p.stats },
  written p.body p.lines ∷ [],
)
answered false now p =
    let failed = record_write_error p.stats in
    if leb max_pending_lines p.lines
    then (
      record p { body = []; lines = 0; stats = record_dropped p.lines failed },
      dropped p.body p.lines ∷ [],
    )
    else (record p { stats = failed }, kept p.body p.lines ∷ [])

unfoldable pub flush : Answer → Pending → Pending × List Outcome
flush a p = answered a.accepted a.now p

-- The ticker, and the end of the channel.
unfoldable pub flush_some : Answer → Pending → Pending × List Outcome
unfolding flush
flush_some a p = if ltb 0 p.lines then flush a p else (p, [])

unfoldable pub line_of : Float64 → Settings → Record → Bytes
line_of f settings (reading r) = ilp_reading f settings.table r
line_of f settings (status node online at) = ilp_status settings.status_table node online at

unfoldable pub received : Float64 → Settings → Record → Answer → Pending → Pending × List Outcome
unfolding flush line_of
received f settings r a p =
    let more = record p { body = p.body ++ line_of f settings r; lines = p.lines + 1 } in
    if leb settings.batch_max more.lines then flush a more else (more, [])

pub data Event : Type 0 where
  arrived : Record → Answer → Event
  tick : Answer → Event

unfoldable pub step : Float64 → Settings → Event → Pending → Pending × List Outcome
unfolding received flush_some
step f settings (arrived r a) p = received f settings r a p
step f settings (tick a) p = flush_some a p

-- The loop until the channel closes, which flushes once more.
unfoldable pub run : Float64 → Settings → List Event → Answer → Pending → Pending × List Outcome
unfolding step flush_some
run f settings [] a p = flush_some a p
run f settings (e ∷ es) a p =
    let after = step f settings e p in
    let rest = run f settings es a (after.0) in (rest.0, after.1 ++ rest.1)
