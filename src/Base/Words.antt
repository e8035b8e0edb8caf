-- ===== src/Base/Words.antt =====
-- Machine words: `u32` and `u64` as native numbers, `i32` as integers, with the wrap-around and
-- the saturation of Rust's operations written out.
use rs_smarthome_nodes.Base.Int.{ℤ, pos, negsuc, pos_part, neg_part, sub_ℕ, ◌≤ℤ◌, ltb_ℤ}
use rs_smarthome_nodes.Base.Tests.{ltb, if◌then◌else◌}
use Prim.Native.Nat.{ℕ, suc, ◌+◌, ◌-◌, ◌/◌, ◌%◌, ◌^◌, ◌<◌, min}
use mathlib.Core.Path.{◌≡◌}
use native.Mathlib.Omega.{arith}

abbrev pub u32_max : ℕ
u32_max = 0xffff_ffff

abbrev pub u32_mod : ℕ
u32_mod = 0x1_0000_0000

abbrev pub u64_mod : ℕ
u64_mod = 0x1_0000_0000_0000_0000

abbrev pub u64_max : ℕ
u64_max = 0xffff_ffff_ffff_ffff

-- `wrapping_add` on `u32`, and the `+` of a release build.
abbrev pub add_u32 : ℕ → ℕ → ℕ
add_u32 a b = (a + b) % u32_mod

-- `saturating_add` on `u32` and `u64`.
abbrev pub sat_add_u32 : ℕ → ℕ → ℕ
sat_add_u32 a b = min (a + b) u32_max

abbrev pub sat_add_u64 : ℕ → ℕ → ℕ
sat_add_u64 a b = min (a + b) u64_max

abbrev pub i32_max : ℤ
i32_max = pos 0x7fff_ffff

abbrev pub i32_min : ℤ
i32_min = negsuc 0x7fff_ffff

abbrev pub InI32 : ℤ → Type 0
InI32 z = (i32_min ≤ℤ z) × (z ≤ℤ i32_max)

abbrev pub min_ℤ : ℤ → ℤ → ℤ
min_ℤ a b = if ltb_ℤ b a then b else a

abbrev pub max_ℤ : ℤ → ℤ → ℤ
max_ℤ a b = if ltb_ℤ a b then b else a

-- `clamp` on `i32`; also what the saturating operations do to the exact result.
abbrev pub clamp_ℤ : ℤ → ℤ → ℤ → ℤ
clamp_ℤ lo hi z = if ltb_ℤ z lo then lo else if ltb_ℤ hi z then hi else z

abbrev pub sat_i32 : ℤ → ℤ
sat_i32 z = clamp_ℤ i32_min i32_max z

-- The two's complement pattern of an `i32`, and back.
abbrev pub to_u32 : ℤ → ℕ
to_u32 (pos n) = n % u32_mod
to_u32 (negsuc n) = u32_max - n % u32_mod

abbrev pub of_u32 : ℕ → ℤ
of_u32 w = if ltb w 0x8000_0000 then pos w else negsuc (u32_max - w)

-- `as i32` on a wider integer, and the wrap-around of `i32` operations.
abbrev pub wrap_i32 : ℤ → ℤ
wrap_i32 z = of_u32 (to_u32 z)

-- `>>` on `i32` rounds down, `/` rounds towards zero.
abbrev pub shr_ℤ : ℤ → ℕ → ℤ
shr_ℤ (pos n) k = pos (n / 2 ^ k)
shr_ℤ (negsuc n) k = negsuc (n / 2 ^ k)

abbrev pub quot_ℤ : ℤ → ℕ → ℤ
quot_ℤ (pos n) d = pos (n / d)
quot_ℤ (negsuc n) d = sub_ℕ 0 (suc n / d)

abbrev pub abs_ℕ : ℤ → ℕ
abs_ℕ z = pos_part z + neg_part z

pub of_u32-to_u32 : (z : ℤ) → InI32 z → of_u32 (to_u32 z) ≡ z
of_u32-to_u32 (pos n) h = ground arith
of_u32-to_u32 (negsuc n) h = ground arith

pub to_u32-lt : (z : ℤ) → to_u32 z < u32_mod
to_u32-lt (pos n) = omega arith
to_u32-lt (negsuc n) = omega arith
