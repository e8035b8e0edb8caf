-- ===== src/Base/Double.antt =====
-- `f64` as its bit pattern. What the pattern alone decides is defined here; parsing, printing and
-- arithmetic are parameters.
use Prim.Native.Nat.{ℕ, ◌%◌, ◌^◌}
use mathlib.Core.Bool.{Bool}
use mathlib.Core.Option.{Option}
use rs_smarthome_nodes.Base.Bytes.{Bytes}
use rs_smarthome_nodes.Base.Tests.{ltb}

-- The exponent is not all ones.
unfoldable pub is_finite : ℕ → Bool
is_finite v = ltb (v % 2 ^ 63) 0x7ff0_0000_0000_0000

-- `str::parse`, `{:?}`, `-` and `<`.
pub record Float64 : Type 0 where
  pub parse : Bytes → Option ℕ
  pub show : ℕ → Bytes
  pub sub : ℕ → ℕ → ℕ
  pub less : ℕ → ℕ → Bool
