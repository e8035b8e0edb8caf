-- ===== src/Flash.antt =====
-- The flash chip, behind the driver that the program takes from `esp-storage` (`Storage` and
-- `ReadStorage` of `embedded-storage`): a parameter of every module that loads or stores.
-- Blocks are read and written whole; what a failed write leaves behind in the sectors that it touches
-- is not known.
pub mod Memory
use rs_smarthome_nodes.Base.{
  ℕ, ◌+◌, ◌*◌, ◌/◌, ◌++◌, ◌≤◌, ◌≡◌, ◌⊎◌, Bool, true, Option, some, length,
}
use rs_smarthome_nodes.Base.Bytes.{Bytes}

pub record Storage : Type 1 where
  pub Chip : Type 0
  pub read : Chip → ℕ → ℕ → Option Bytes
  pub write : Chip → ℕ → Bytes → Chip × Bool
  -- what was written successfully is read back
  pub read-write :
      (c : Chip) (at : ℕ) (b : Bytes)
      → (write c at b).1 ≡ true
      → read (write c at b).0 at (length b) ≡ some b
  -- a successful write leaves every block beside it as it was
  pub read-write_apart :
      (c : Chip) (at : ℕ) (b : Bytes) (from len : ℕ)
      → (write c at b).1 ≡ true
      → (at + length b ≤ from) ⊎ (from + len ≤ at)
      → read (write c at b).0 from len ≡ read c from len
  -- a write erases the sectors that it touches and no other, also when it fails
  pub read-write_sectors :
      (c : Chip) (at : ℕ) (b : Bytes) (from len : ℕ)
      → ((at + length b + 4095) / 4096 * 4096 ≤ from) ⊎ (from + len ≤ at / 4096 * 4096)
      → read (write c at b).0 from len ≡ read c from len
  -- two blocks that adjoin are read as one
  pub read-adjoining :
      (c : Chip) (at m n : ℕ) {a b : Bytes}
      → read c at m ≡ some a
      → read c (at + m) n ≡ some b
      → read c at (m + n) ≡ some (a ++ b)
