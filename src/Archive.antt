-- ===== src/Archive.antt =====
-- The time series service (timeseries/): what its halves agree on (timeseries/src/model.rs), and
-- the records of the ingest channel (timeseries/src/questdb/writer.rs).
mod Tests
pub mod Shared
pub mod Topics
pub mod Measurements
pub mod Handling
pub mod Database
pub mod Grouping
pub mod Lines
pub mod Writer
pub mod Rollup
pub mod Series
pub mod Periods
pub mod Retention
pub mod Settings
use rs_smarthome_nodes.Base.{ℕ, Bool}
use rs_smarthome_nodes.Base.Bytes.{Bytes}
use rs_smarthome_nodes.Base.Int.{ℤ}
use rs_smarthome_nodes.Base.Text.{codes}

-- Microseconds since 1970; `value` is the bit pattern of an `f64`.
pub record Reading : Type 0 where
  pub node : Bytes
  pub sensor : Bytes
  pub value : ℕ
  pub at : ℤ

pub data Availability : Type 0 where
  online : Availability
  offline : Availability

unfoldable pub as_str : Availability → Bytes
as_str online = codes "online"
as_str offline = codes "offline"

pub record ChannelMeta : Type 0 where
  pub name : Bytes
  pub unit : Bytes
  pub device_class : Bytes
  pub state_class : Bytes
  pub entity_category : Bytes
  pub node_name : Bytes

pub data Record : Type 0 where
  reading : Reading → Record
  status : Bytes → Bool → ℤ → Record
