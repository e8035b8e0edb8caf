-- ===== src/Presence/Median.antt =====
-- The median of the ring (`median` of src/presence.rs).
use rs_smarthome_nodes.Base.{
  ℕ, zero, suc, ◌-◌, ◌/◌, ◌%◌, ◌<◌, ◌≡◌, sym, ap, subst, ◌∙◌, All, List, [], ◌∷◌, Option, none,
  some, length, take, drop, get_or, take-append-drop, take_all, ◌==◌, arith, if◌then◌else◌, dec_lt,
  Bool-cases, inl, inr,
}
use rs_smarthome_nodes.Base.Int.{ℤ, pos, negsuc, ◌≤ℤ◌, ◌+ℤ◌, ◌-ℤ◌, +ℤ_parts, -ℤ_parts}
use rs_smarthome_nodes.Base.Words.{wrap_i32, quot_ℤ, InI32, of_u32-to_u32}
use rs_smarthome_nodes.Presence.Sorting.{
  sort, sort-append_swap, sort-IsSorted, IsSorted, All-sort, length-sort,
}
use rs_smarthome_nodes.Presence.Window.{
  IsValid, readings, length-readings, readings_long, readings_short, latest, push_all,
  push_all-latest, push_all-IsValid, new-IsValid,
}
use rs_smarthome_nodes.Presence.{Ring, new, middle, median}

-- The median of a list.
unfoldable pub median_of : List ℤ → Option ℤ
median_of xs = if length xs == 0 then none else some (middle (sort xs) (length xs))

sort-readings : (w : Ring) → IsValid w → sort (take w.len w.buf) ≡ sort (readings w)
sort-readings w v = elim (dec_lt w.len 32) [
  | yes h ↦ ap sort (sym (readings_short w h))
  | no h ↦
      ap sort (take_all w.len w.buf (omega (arith, v)))
      ∙ ap sort (sym (take-append-drop w.next w.buf))
      ∙ sort-append_swap (take w.next w.buf) (drop w.next w.buf)
      ∙ ap sort (sym (readings_long w (omega (arith, v))))
]

median-readings : (w : Ring) → IsValid w → median w ≡ median_of (readings w)
unfolding median median_of
median-readings w v = rw (sort-readings w v, length-readings w v)

All-drop {κ} : (P : ℤ → Type κ) (n : ℕ) (xs : List ℤ) → All P xs → All P (drop n xs)
All-drop P zero xs h = h
All-drop P (suc n) [] h = tt
All-drop P (suc n) (x ∷ xs) (p, h) = All-drop P n xs h

All-get_or {κ} :
    (P : ℤ → Type κ) (xs : List ℤ) (i : ℕ) (d : ℤ) → All P xs → i < length xs → P (get_or xs i d)
All-get_or P [] i d h lt = absurd (omega arith)
All-get_or P (x ∷ xs) zero d (p, h) lt = p
All-get_or P (x ∷ xs) (suc i) d (p, h) lt = All-get_or P xs i d h (omega arith)

-- A reading of the 24-bit converter.
abbrev pub InI24 : ℤ → Type 0
InI24 z = (negsuc 0x7f_ffff ≤ℤ z) × (z ≤ℤ pos 0x7f_ffff)

quot_half : (d : ℤ) → pos 0 ≤ℤ d → (pos 0 ≤ℤ quot_ℤ d 2) × (quot_ℤ d 2 ≤ℤ d)
quot_half (pos n) h = omega arith
quot_half (negsuc n) h = absurd (omega arith)

difference_InI32 : (a b : ℤ) → InI24 a → InI24 b → InI32 (b -ℤ a)
difference_InI32 a b ha hb = omega (arith, -ℤ_parts)

sum-Between :
    (a b h : ℤ)
    → InI24 a
    → InI24 b
    → pos 0 ≤ℤ h
    → h ≤ℤ b -ℤ a
    → InI32 (a +ℤ h) × ((a ≤ℤ a +ℤ h) × (a +ℤ h ≤ℤ b))
sum-Between a b h ha hb low high = omega (arith, -ℤ_parts, +ℤ_parts)

ordered_difference : (a b : ℤ) → a ≤ℤ b → pos 0 ≤ℤ b -ℤ a
ordered_difference a b h = omega (arith, -ℤ_parts)

sorted_pair :
    (xs : List ℤ) (i : ℕ) (d : ℤ)
    → IsSorted xs
    → suc i < length xs
    → get_or xs i d ≤ℤ get_or xs (suc i) d
sorted_pair [] i d s h = absurd (omega arith)
sorted_pair (x ∷ xs) zero d (a, s) h = All-get_or (λ y. x ≤ℤ y) xs zero d a (omega arith)
sorted_pair (x ∷ xs) (suc i) d (a, s) h = sorted_pair xs i d s (omega arith)

-- Half of a sum, rounded down.
abbrev pub IsHalf : ℤ → ℤ → ℤ → Type 0
IsHalf a b m = (m +ℤ m ≤ℤ a +ℤ b) × (a +ℤ b ≤ℤ m +ℤ m +ℤ pos 1)

-- The median of some readings, of which there are none where it is none: halfway between the two in
-- the middle of the sorted readings, which for an odd number of them are one and the same.
abbrev pub IsMedian : List ℤ → Option ℤ → Type 0
IsMedian [] found = found ≡ none
IsMedian (x ∷ xs) found =
    let sorted = sort (x ∷ xs) in
    let len = length (x ∷ xs) in
    (m : ℤ) × (found ≡ some m)
    × IsHalf (get_or sorted ((len - 1) / 2) (pos 0)) (get_or sorted (len / 2) (pos 0)) m

exact_half :
    (d : ℤ)
    → pos 0 ≤ℤ d
    → (quot_ℤ d 2 +ℤ quot_ℤ d 2 ≤ℤ d) × (d ≤ℤ quot_ℤ d 2 +ℤ quot_ℤ d 2 +ℤ pos 1)
exact_half (pos n) h = omega (arith, +ℤ_parts)
exact_half (negsuc n) h = absurd (omega arith)

halfway-IsHalf :
    (a b : ℤ)
    → InI24 a
    → InI24 b
    → a ≤ℤ b
    → IsHalf a b (wrap_i32 (a +ℤ quot_ℤ (wrap_i32 (b -ℤ a)) 2))
halfway-IsHalf a b ha hb ab =
    let rise = ordered_difference a b ab in
    let half = quot_half (b -ℤ a) rise in
    let exact = exact_half (b -ℤ a) rise in
    let (fits, between) = sum-Between a b (quot_ℤ (b -ℤ a) 2) ha hb half.0 half.1 in
    rw (of_u32-to_u32 (b -ℤ a) (difference_InI32 a b ha hb)) (
      rw (of_u32-to_u32 (a +ℤ quot_ℤ (b -ℤ a) 2) fits)
        (omega (arith, -ℤ_parts, +ℤ_parts), omega (arith, -ℤ_parts, +ℤ_parts)))

middle-IsHalf :
    (xs : List ℤ)
    → IsSorted xs
    → 0 < length xs
    → All InI24 xs
    → IsHalf
        (get_or xs ((length xs - 1) / 2) (pos 0))
        (get_or xs (length xs / 2) (pos 0))
        (middle xs (length xs))
unfolding middle
middle-IsHalf xs s h all = elim (Bool-cases (length xs % 2 == 1)) [
  | inl odd ↦
      let same : (length xs - 1) / 2 ≡ length xs / 2 = ground arith in
      rw (odd, same) (omega (arith, +ℤ_parts), omega (arith, +ℤ_parts))
  | inr even ↦
      let below : (length xs - 1) / 2 ≡ length xs / 2 - 1 = ground arith in
      let next : suc (length xs / 2 - 1) ≡ length xs / 2 = ground arith in
      rw (even, below)
        (halfway-IsHalf (get_or xs (length xs / 2 - 1) (pos 0)) (get_or xs (length xs / 2) (pos 0))
          (All-get_or InI24 xs (length xs / 2 - 1) (pos 0) all (ground arith))
          (All-get_or InI24 xs (length xs / 2) (pos 0) all (ground arith))
          (rw next at (sorted_pair xs (length xs / 2 - 1) (pos 0) s (ground arith))))
]

median_of-IsMedian : (xs : List ℤ) → All InI24 xs → IsMedian xs (median_of xs)
unfolding median_of
median_of-IsMedian [] all = λ i. none
median_of-IsMedian (x ∷ xs) all =
    let sorted = sort (x ∷ xs) in
    let found =
      middle-IsHalf sorted (sort-IsSorted (x ∷ xs)) (omega (arith, length-sort (x ∷ xs)))
        (All-sort _ (x ∷ xs) all) in
    (middle sorted (length (x ∷ xs)), ground arith, rw (length-sort (x ∷ xs)) at found)

-- After any readings of 24 bits, however often the ring went round, the median that is reported is
-- that of the last 32: none without a reading, the reading in the middle of an odd number of them,
-- and of an even number the half of the sum of the two in the middle, rounded down.
pub median-push_all : (xs : List ℤ) → All InI24 xs → IsMedian (latest xs) (median (push_all new xs))
median-push_all xs h =
    subst (IsMedian (latest xs))
      (sym (
        median-readings (push_all new xs) (push_all-IsValid new xs new-IsValid)
        ∙ ap median_of (push_all-latest xs)))
      (median_of-IsMedian (latest xs) (unfold latest in All-drop InI24 (length xs - 32) xs h))
