-- ===== src/Archive/Lines.antt =====
-- The lines of the database's line protocol: `escape_tag`, `ilp_reading` and `ilp_status`
-- (timeseries/src/questdb/writer.rs). Every character that it escapes is one byte.
pub mod Escaping
use rs_smarthome_nodes.Base.{
  ℕ, suc, ◌+◌, ◌-◌, ◌%◌, ◌^◌, Bool, true, false, ◌||◌, [], ◌∷◌, ◌++◌, ◌==◌, ltb, if◌then◌else◌,
}
use rs_smarthome_nodes.Base.Bytes.{Bytes}
use rs_smarthome_nodes.Base.Double.{Float64}
use rs_smarthome_nodes.Base.Int.{ℤ, pos, negsuc, ◌*ℤ◌}
use rs_smarthome_nodes.Base.Text.{codes}
use rs_smarthome_nodes.Base.Text.Decimal.{show}
use rs_smarthome_nodes.Archive.{Reading}

-- `,`, space, `=`, `\` and `"`.
abbrev pub is_special : ℕ → Bool
is_special c = c == 44 || c == 32 || c == 61 || c == 92 || c == 34

abbrev pub is_break : ℕ → Bool
is_break c = c == 10 || c == 13

abbrev pub escaped : ℕ → Bytes
escaped c = if is_special c then 92 ∷ c ∷ [] else if is_break c then 32 ∷ [] else c ∷ []

unfoldable pub escape_tag : Bytes → Bytes
escape_tag [] = []
escape_tag (c ∷ cs) = escaped c ++ escape_tag cs

-- The wrap-around of `i64`.
abbrev pub wrap_i64 : ℤ → ℤ
wrap_i64 (pos n) = let w = n % 2 ^ 64 in if ltb w (2 ^ 63) then pos w else negsuc (2 ^ 64 - 1 - w)
wrap_i64 (negsuc n) =
    let w = n % 2 ^ 64 in if ltb w (2 ^ 63) then negsuc w else pos (2 ^ 64 - 1 - w)

unfoldable pub show_i64 : ℤ → Bytes
show_i64 (pos n) = show n
show_i64 (negsuc n) = b'-' ∷ show (suc n)

unfoldable pub nanos : ℤ → Bytes
unfolding show_i64
nanos at = show_i64 (wrap_i64 (at *ℤ pos 1000))

unfoldable pub ilp_reading : Float64 → Bytes → Reading → Bytes
ilp_reading f table r =
    escape_tag table
    ++ (codes ",node="
        ++ (escape_tag r.node
            ++ (codes ",sensor="
                ++ (escape_tag r.sensor
                    ++ (codes " value=" ++ (f.show r.value ++ (32 ∷ (nanos r.at ++ 10 ∷ []))))))))

abbrev pub flag : Bool → Bytes
flag true = codes "t"
flag false = codes "f"

unfoldable pub ilp_status : Bytes → Bytes → Bool → ℤ → Bytes
ilp_status table node online at =
    escape_tag table
    ++ (codes ",node="
        ++ (escape_tag node ++ (codes " online=" ++ (flag online ++ (32 ∷ (nanos at ++ 10 ∷ []))))))
