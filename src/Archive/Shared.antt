-- ===== src/Archive/Shared.antt =====
-- What the two halves of the service share: `Stats` and `Shared` (timeseries/src/state.rs). The lock
-- and the atomics make every method one step on this state.
use rs_smarthome_nodes.Base.{
  ℕ, ◌+◌, ◌%◌, ◌==◌, max, Bool, true, false, not, Option, none, some, List, [], map, if◌then◌else◌,
}
use rs_smarthome_nodes.Base.Bytes.{Bytes}
use rs_smarthome_nodes.Base.Int.{ℤ, pos, ltb_ℤ}
use rs_smarthome_nodes.Base.Words.{u64_mod, quot_ℤ}
use rs_smarthome_nodes.Base.Keyed.{get, insert, remove, bytes_key, pair_key}
use rs_smarthome_nodes.Archive.{Reading, ChannelMeta}

pub record Stats : Type 0 where
  pub readings : ℕ
  pub rows_written : ℕ
  pub write_errors : ℕ
  pub rows_dropped : ℕ
  pub skipped : ℕ
  pub last_write_ms : ℤ

-- `fetch_add` on an `AtomicU64`.
abbrev pub fetch_add : ℕ → ℕ → ℕ
fetch_add counter n = (counter + n) % u64_mod

unfoldable pub record_reading : Stats → Stats
record_reading s = record s { readings = fetch_add s.readings 1 }

unfoldable pub record_write : ℤ → ℕ → Stats → Stats
record_write now rows s = record s {
  rows_written = fetch_add s.rows_written rows;
  last_write_ms = quot_ℤ now 1000;
}

unfoldable pub record_write_error : Stats → Stats
record_write_error s = record s { write_errors = fetch_add s.write_errors 1 }

unfoldable pub record_dropped : ℕ → Stats → Stats
record_dropped rows s = record s { rows_dropped = fetch_add s.rows_dropped rows }

unfoldable pub record_skipped : Stats → Stats
record_skipped s = record s { skipped = fetch_add s.skipped 1 }

pub record StatsSnapshot : Type 0 where
  pub readings : ℕ
  pub rows_written : ℕ
  pub write_errors : ℕ
  pub rows_dropped : ℕ
  pub skipped : ℕ
  pub last_write_ms : Option ℤ

unfoldable pub snapshot : Stats → StatsSnapshot
snapshot s = record {
  readings = s.readings;
  rows_written = s.rows_written;
  write_errors = s.write_errors;
  rows_dropped = s.rows_dropped;
  skipped = s.skipped;
  last_write_ms = if ltb_ℤ (pos 0) s.last_write_ms then some s.last_write_ms else none;
}

abbrev pub Channel : Type 0
Channel = Bytes × Bytes

-- `Inner`, the counters and the flag of the connection. A live value has its milliseconds.
pub record Shared : Type 0 where
  pub metas : List (Channel × ChannelMeta)
  pub lives : List (Channel × (ℕ × ℤ))
  pub precisions : List (Channel × ℕ)
  pub onlines : List (Bytes × Bool)
  pub views : List Bytes
  pub stats : Stats
  pub broker_connected : Bool

abbrev pub new_stats : Stats
new_stats = record {
  readings = 0;
  rows_written = 0;
  write_errors = 0;
  rows_dropped = 0;
  skipped = 0;
  last_write_ms = pos 0;
}

abbrev pub new : Shared
new = record {
  metas = [];
  lives = [];
  precisions = [];
  onlines = [];
  views = [];
  stats = new_stats;
  broker_connected = false;
}

unfoldable pub set_broker_connected : Bool → Shared → Shared
set_broker_connected connected s = record s { broker_connected = connected }

unfoldable pub set_views : List Bytes → Shared → Shared
set_views views s = record s { views = views }

unfoldable pub skip : Shared → Shared
unfolding record_skipped
skip s = record s { stats = record_skipped s.stats }

unfoldable pub observe : Reading → Shared → Shared
unfolding record_reading
observe r s = record s {
  stats = record_reading s.stats;
  lives = insert s.lives (r.node, r.sensor) (r.value, quot_ℤ r.at 1000);
}

abbrev pub or_zero : Option ℕ → ℕ
or_zero none = 0
or_zero (some n) = n

unfoldable pub observe_precision : Bytes → Bytes → ℕ → Shared → Shared
observe_precision node sensor decimals s =
    let seen = or_zero (get s.precisions (node, sensor)) in
    if decimals == 0
    then s
    else record s { precisions = insert s.precisions (node, sensor) (max seen decimals) }

unfoldable pub precision : Shared → Bytes → Bytes → Option ℕ
precision s node sensor = get s.precisions (node, sensor)

unfoldable pub set_meta : Bytes → Bytes → ChannelMeta → Shared → Shared
set_meta node sensor m s = record s { metas = insert s.metas (node, sensor) m }

unfoldable pub forget_meta : Bytes → Bytes → Shared → Shared
forget_meta node sensor s = record s { metas = remove s.metas (node, sensor) }

unfoldable pub meta : Shared → Bytes → Bytes → Option ChannelMeta
meta s node sensor = get s.metas (node, sensor)

unfoldable pub known_channels : Shared → List Channel
known_channels s = map (λ entry. entry.0) s.metas

unfoldable pub live : Shared → Bytes → Bytes → Option (ℕ × ℤ)
live s node sensor = get s.lives (node, sensor)

abbrev pub differs : Bool → Bool → Bool
differs true b = not b
differs false b = b

abbrev pub is_news : Option Bool → Bool → Bool
is_news none online = true
is_news (some previous) online = differs previous online

-- The new state, and whether the node's availability changed.
unfoldable pub set_online : Bytes → Bool → Shared → Shared × Bool
set_online node online s =
    (record s { onlines = insert s.onlines node online }, is_news (get s.onlines node) online)

unfoldable pub seed_online : Bytes → Bool → Shared → Shared
seed_online node online s = record s { onlines = insert s.onlines node online }

unfoldable pub online : Shared → Bytes → Option Bool
online s node = get s.onlines node
