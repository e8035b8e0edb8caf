-- ===== src/Base/Text/Decimal.antt =====
-- Decimal numbers: `str::parse` for the integer types, and `{}`.
use Prim.Native.Nat.{ℕ, zero, suc, ◌+◌, ◌-◌, ◌*◌, ◌/◌, ◌%◌}
use mathlib.Core.Bool.{Bool, ◌&&◌, ◌||◌, not}
use mathlib.Core.List.{[], ◌∷◌}
use mathlib.Core.Option.{Option, none, some}
use rs_smarthome_nodes.Base.Bytes.{Bytes}
use rs_smarthome_nodes.Base.Int.{ℤ, pos, sub_ℕ}
use rs_smarthome_nodes.Base.Tests.{ltb, leb, ◌==◌, if◌then◌else◌, ◌>>=◌}

abbrev pub is_digit : ℕ → Bool
is_digit c = leb 48 c && leb c 57

-- The digits that are left, onto the value so far; a value past `max` overflows the type.
unfoldable pub digits_from : ℕ → ℕ → Bytes → Option ℕ
digits_from max acc [] = some acc
digits_from max acc (c ∷ cs) =
    let next = acc * 10 + (c - 48) in
    let rest = digits_from max next cs in if not (is_digit c) || ltb max next then none else rest

some_digits : ℕ → Bytes → Option ℕ
some_digits max [] = none
some_digits max (c ∷ cs) = digits_from max 0 (c ∷ cs)

-- `str::parse` for an unsigned type with this largest value: a `+` may stand first.
unfoldable pub parse_uint : ℕ → Bytes → Option ℕ
unfolding some_digits
parse_uint max [] = none
parse_uint max (c ∷ cs) = if c == 43 then some_digits max cs else some_digits max (c ∷ cs)

abbrev pub parse_u32 : Bytes → Option ℕ
parse_u32 = parse_uint 0xffff_ffff

abbrev pub parse_u16 : Bytes → Option ℕ
parse_u16 = parse_uint 0xffff

abbrev pub parse_u8 : Bytes → Option ℕ
parse_u8 = parse_uint 0xff

unfoldable pub parse_i32 : Bytes → Option ℤ
unfolding some_digits
parse_i32 [] = none
parse_i32 (c ∷ cs) =
    if c == 45
    then (do n ← some_digits 0x8000_0000 cs; some (sub_ℕ 0 n))
    else (do n ← parse_uint 0x7fff_ffff (c ∷ cs); some (pos n))

unfoldable pub parse_i64 : Bytes → Option ℤ
unfolding some_digits
parse_i64 [] = none
parse_i64 (c ∷ cs) =
    if c == 45
    then (do n ← some_digits 0x8000_0000_0000_0000 cs; some (sub_ℕ 0 n))
    else (do n ← parse_uint 0x7fff_ffff_ffff_ffff (c ∷ cs); some (pos n))

-- `{}` on an unsigned number below 10 ^ fuel: its digits, the last one last.
unfoldable pub show_onto : ℕ → ℕ → Bytes → Bytes
show_onto zero n rest = rest
show_onto (suc fuel) n rest =
    let more = show_onto fuel (n / 10) ((48 + n % 10) ∷ rest) in
    if ltb n 10 then (48 + n) ∷ rest else more

-- Twenty digits hold any `u64`.
unfoldable pub show : ℕ → Bytes
unfolding show_onto
show n = show_onto 20 n []
