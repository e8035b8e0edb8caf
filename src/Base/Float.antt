-- ===== src/Base/Float.antt =====
-- `f32` as its bit pattern. What the pattern alone decides is defined here; parsing, arithmetic and
-- conversion are parameters.
use Prim.Native.Nat.{ℕ, ◌%◌, ◌<◌}
use mathlib.Core.Path.{◌≡◌}
use mathlib.Core.Bool.{Bool, true, not, ◌&&◌, ◌||◌}
use mathlib.Core.Option.{Option, some}
use rs_smarthome_nodes.Base.Bytes.{Bytes}
use rs_smarthome_nodes.Base.Int.{ℤ, pos, ◌≤ℤ◌}
use rs_smarthome_nodes.Base.Tests.{ltb, leb, ◌==◌}
use rs_smarthome_nodes.Base.Words.{u32_mod, InI32}

abbrev pub sign_bit : ℕ
sign_bit = 0x8000_0000

-- The exponent is not all ones.
abbrev pub is_finite : ℕ → Bool
is_finite v = ltb (v % sign_bit) 0x7f80_0000

abbrev pub is_nan : ℕ → Bool
is_nan v = ltb 0x7f80_0000 (v % sign_bit)

abbrev pub is_zero : ℕ → Bool
is_zero v = v % sign_bit == 0

-- `v > 0.0`, `v <= 0.0`, `v >= 0.0` and `v >= 1.0`.
abbrev pub is_positive : ℕ → Bool
is_positive v = not (is_nan v) && not (is_zero v) && ltb v sign_bit

abbrev pub is_at_most_zero : ℕ → Bool
is_at_most_zero v = not (is_nan v) && (is_zero v || leb sign_bit v)

abbrev pub is_nonnegative : ℕ → Bool
is_nonnegative v = not (is_nan v) && (is_zero v || ltb v sign_bit)

abbrev pub is_at_least_one : ℕ → Bool
is_at_least_one v = not (is_nan v) && ltb v sign_bit && leb 0x3f80_0000 v

-- `==` on `f32`: a NaN is equal to nothing, and the two zeros are equal.
abbrev pub f32_eq : ℕ → ℕ → Bool
f32_eq a b = not (is_nan a) && not (is_nan b) && (a == b || is_zero a && is_zero b)

-- The operations, and the few of their documented properties that are used.
pub record Float32 : Type 0 where
  pub parse : Bytes → Option ℕ
  pub mul : ℕ → ℕ → ℕ
  pub add : ℕ → ℕ → ℕ
  pub sub : ℕ → ℕ → ℕ
  pub div : ℕ → ℕ → ℕ
  pub of_i32 : ℤ → ℕ
  -- `as i32` and `as u32`: towards zero, saturating, 0 for a NaN
  pub to_i32 : ℕ → ℤ
  pub to_u32 : ℕ → ℕ
  pub parse-lt : (s : Bytes) {v : ℕ} → parse s ≡ some v → v < u32_mod
  pub to_i32-InI32 : (v : ℕ) → InI32 (to_i32 v)
  pub to_i32_positive : (v : ℕ) → is_at_least_one v ≡ true → pos 1 ≤ℤ to_i32 v
