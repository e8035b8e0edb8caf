-- ===== src/Archive/Lines/Escaping.antt =====
-- The lines as the database reads them (timeseries/src/questdb/writer.rs).
use rs_smarthome_nodes.Base.{
  ℕ, ◌≡◌, refl, Bool, true, false, ◌||◌, Option, some, [], ◌∷◌, ◌++◌, ◌==◌, if◌then◌else◌,
  append_assoc, arith, ◌>>=◌, All,
}
use rs_smarthome_nodes.Base.Bytes.{Bytes}
use rs_smarthome_nodes.Base.Double.{Float64}
use rs_smarthome_nodes.Base.Text.{codes, strip_prefix}
use rs_smarthome_nodes.Archive.{Reading}
use rs_smarthome_nodes.Archive.Lines.{is_break, escaped, escape_tag, nanos, ilp_reading}

-- What ends a table's name or a tag, if no backslash stands before it.
abbrev pub ends_tag : ℕ → Bool
ends_tag c = c == 44 || c == 32 || c == 61 || c == 10

abbrev onto : ℕ → Bytes × Bytes → Bytes × Bytes
onto c (tag, rest) = (c ∷ tag, rest)

-- How the protocol reads a name or a tag: the character behind a backslash is taken as it is.
unfoldable pub read_from : Bool → Bytes → Bytes × Bytes
read_from quoted [] = ([], [])
read_from true (c ∷ cs) = onto c (read_from false cs)
read_from false (c ∷ cs) =
    let behind = read_from true cs in
    let taken = onto c (read_from false cs) in
    if c == 92 then behind else if ends_tag c then ([], c ∷ cs) else taken

unfoldable pub read_tag : Bytes → Bytes × Bytes
unfolding read_from
read_tag = read_from false

-- No line break.
abbrev pub IsPlain : Bytes → Type 0
IsPlain s = All (λ c. is_break c ≡ false) s

read_tag-escaped :
    (c : ℕ) (s : Bytes) → is_break c ≡ false → read_tag (escaped c ++ s) ≡ onto c (read_tag s)
unfolding read_tag
read_tag-escaped c s h = ground arith

-- At a line break the code writes a space, which ends the tag.
read_tag-break : (c : ℕ) (s : Bytes) → is_break c ≡ true → read_tag (escaped c ++ s) ≡ ([], 32 ∷ s)
unfolding read_tag
read_tag-break c s h = ground arith

pub read_tag-end :
    (end : ℕ) (rest : Bytes) → ends_tag end ≡ true → read_tag (end ∷ rest) ≡ ([], end ∷ rest)
unfolding read_tag
read_tag-end end rest k = ground arith

pub read_tag-escape_tag :
    (raw : Bytes) (end : ℕ) (rest : Bytes)
    → IsPlain raw
    → ends_tag end ≡ true
    → read_tag (escape_tag raw ++ end ∷ rest) ≡ (raw, end ∷ rest)
unfolding escape_tag
read_tag-escape_tag [] end rest h k = read_tag-end end rest k
read_tag-escape_tag (c ∷ raw) end rest (h, hs) k =
    rw
      (
        append_assoc (escaped c) (escape_tag raw) (end ∷ rest),
        read_tag-escaped c (escape_tag raw ++ end ∷ rest) h,
        read_tag-escape_tag raw end rest hs k,
      )
      refl

-- A tag with a line break is cut there: what stands behind it is read as something else.
pub read_tag-cut :
    (raw : Bytes) (c : ℕ) (more rest : Bytes)
    → IsPlain raw
    → is_break c ≡ true
    → read_tag (escape_tag (raw ++ c ∷ more) ++ rest) ≡ (raw, 32 ∷ (escape_tag more ++ rest))
unfolding escape_tag
read_tag-cut [] c more rest h k =
    rw (append_assoc (escaped c) (escape_tag more) rest) (read_tag-break c _ k)
read_tag-cut (d ∷ raw) c more rest (h, hs) k =
    rw
      (
        append_assoc (escaped d) (escape_tag (raw ++ c ∷ more)) rest,
        read_tag-escaped d (escape_tag (raw ++ c ∷ more) ++ rest) h,
        read_tag-cut raw c more rest hs k,
      )
      refl

abbrev pub expect : Bytes → Bytes × Bytes → Option (Bytes × Bytes)
expect text (tag, rest) = strip_prefix text rest >>= λ after. some (tag, after)

-- A line of the readings, read by the protocol: the table, the node, the sensor, and what follows.
unfoldable pub read_reading : Bytes → Option (Bytes × Bytes × Bytes × Bytes)
unfolding read_tag
read_reading line = do
  (table, tags) ← expect (codes ",node=") (read_tag line)
  (node, more) ← expect (codes ",sensor=") (read_tag tags)
  (sensor, fields) ← expect (codes " value=") (read_tag more)
  some (table, node, sensor, fields)

-- The line of a reading is read by the protocol as its table, node and sensor, with the value and
-- the time behind them, unless one of them holds a line break.
pub read_reading-ilp_reading :
    (f : Float64) (table : Bytes) (r : Reading)
    → IsPlain table
    → IsPlain r.node
    → IsPlain r.sensor
    → read_reading (ilp_reading f table r)
      ≡ some (table, r.node, r.sensor, f.show r.value ++ 32 ∷ (nanos r.at ++ 10 ∷ []))
unfolding read_reading ilp_reading strip_prefix
read_reading-ilp_reading f table r h k l =
    rw
      (
        read_tag-escape_tag table 44 _ h refl,
        read_tag-escape_tag r.node 44 _ k refl,
        read_tag-escape_tag r.sensor 32 _ l refl,
      )
      refl
