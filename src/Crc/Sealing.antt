-- ===== src/Crc/Sealing.antt =====
-- A blob that ends with the checksum of what stands before it.
use native.Mathlib.Nat.{add-zero}
use rs_smarthome_nodes.Base.{ℕ, ◌≡◌, ◌∙◌, ◌++◌, copy_at, replicate, take, length}
use rs_smarthome_nodes.Base.Bytes.{Bytes, le_bytes, le_at, from_le_lem}
use rs_smarthome_nodes.Base.Slices.{copy_at-append_right, get_or-append_right, take-append_right}
use rs_smarthome_nodes.Crc.{crc32}
use rs_smarthome_nodes.Crc.Bounds.{crc32-lt}

-- Writing the checksum into the four bytes behind `a`.
pub seal :
    (a : Bytes) (n : ℕ)
    → n ≡ length a
    → copy_at (a ++ replicate 4 0) n (le_bytes (crc32 (take n (a ++ replicate 4 0))))
      ≡ a ++ le_bytes (crc32 a)
seal a n e =
    rw (take-append_right a (replicate 4 0) n e)
      (copy_at-append_right a (replicate 4 0) n (le_bytes (crc32 a)) e)

le_at-append_right : (a b : Bytes) → le_at (a ++ b) (length a) ≡ le_at b 0
le_at-append_right a b =
    let first = get_or-append_right a b 0 0 in
    let second = get_or-append_right a b 1 0 in
    let third = get_or-append_right a b 2 0 in
    let fourth = get_or-append_right a b 3 0 in rw (rw add-zero at first, second, third, fourth)

-- What is read from such a blob: the checksum, and the bytes that it is of.
pub le_at-sealed : (a : Bytes) (n : ℕ) → n ≡ length a → le_at (a ++ le_bytes (crc32 a)) n ≡ crc32 a
le_at-sealed a n e =
    rw e (le_at-append_right a (le_bytes (crc32 a)) ∙ from_le_lem (crc32 a) (crc32-lt a))

pub take-sealed : (a : Bytes) (n : ℕ) → n ≡ length a → take n (a ++ le_bytes (crc32 a)) ≡ a
take-sealed a n e = take-append_right a (le_bytes (crc32 a)) n e
