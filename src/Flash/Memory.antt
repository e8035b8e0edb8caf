-- ===== src/Flash/Memory.antt =====
-- A chip that is a plain array of bytes and never fails: the interface can be met.
use native.Mathlib.Nat.{zero-add, add-zero, suc-add, add-suc}
use rs_smarthome_nodes.Base.{
  ◌*◌, ◌/◌, ◌++◌, ℕ, zero, suc, ◌+◌, ◌≤◌, ◌<◌, ◌≡◌, refl, ap, ap₂, ◌∙◌, ◌⊎◌, true, some, [], ◌∷◌,
  length, ◌==◌, if◌then◌else◌, arith,
}
use rs_smarthome_nodes.Base.Bytes.{Bytes}
use rs_smarthome_nodes.Flash.{Storage}

abbrev pub Cells : Type 0
Cells = ℕ → ℕ

unfoldable pub read_cells : Cells → ℕ → ℕ → Bytes
read_cells c at zero = []
read_cells c at (suc len) = c at ∷ read_cells c (suc at) len

pub write_cells : Cells → ℕ → Bytes → Cells
write_cells c at [] a = c a
write_cells c at (x ∷ b) a = if a == at then x else write_cells c (suc at) b a

write_cells-apart :
    (c : Cells) (at : ℕ) (b : Bytes) (a : ℕ)
    → (at + length b ≤ a) ⊎ (a < at)
    → write_cells c at b a ≡ c a
unfolding write_cells
write_cells-apart c at [] a h = refl
write_cells-apart c at (x ∷ b) a h = ground (arith, write_cells-apart c (suc at) b a)

read_cells-agree :
    (c d : Cells) (at len : ℕ)
    → ((a : ℕ) → at ≤ a → a < at + len → c a ≡ d a)
    → read_cells c at len ≡ read_cells d at len
unfolding read_cells
read_cells-agree c d at zero h = refl
read_cells-agree c d at (suc len) h =
    ap₂ (◌∷◌) (h at (omega arith) (omega arith))
      (read_cells-agree c d (suc at) len (λ a p q. h a (omega arith) (omega arith)))

write_cells-here : (c : Cells) (at x : ℕ) (b : Bytes) → write_cells c at (x ∷ b) at ≡ x
unfolding write_cells
write_cells-here c at x b = ground arith

write_cells-later :
    (c : Cells) (at x : ℕ) (b : Bytes) (a : ℕ)
    → at < a
    → write_cells c at (x ∷ b) a ≡ write_cells c (suc at) b a
unfolding write_cells
write_cells-later c at x b a h = ground arith

pub read_cells-write_cells :
    (c : Cells) (at : ℕ) (b : Bytes) → read_cells (write_cells c at b) at (length b) ≡ b
unfolding read_cells
read_cells-write_cells c at [] = refl
read_cells-write_cells c at (x ∷ b) = ap₂ (◌∷◌) (write_cells-here c at x b) (
    read_cells-agree _ (write_cells c (suc at) b) (suc at) (length b)
      (λ a p q. write_cells-later c at x b a p)
    ∙ read_cells-write_cells c (suc at) b)

pub read_cells-write_cells_apart :
    (c : Cells) (at : ℕ) (b : Bytes) (from len : ℕ)
    → (at + length b ≤ from) ⊎ (from + len ≤ at)
    → read_cells (write_cells c at b) from len ≡ read_cells c from len
read_cells-write_cells_apart c at b from len h =
    read_cells-agree _ c from len (λ a p q. write_cells-apart c at b a (omega arith))

read_cells-append :
    (c : Cells) (at m n : ℕ)
    → read_cells c at (m + n) ≡ read_cells c at m ++ read_cells c (at + m) n
unfolding read_cells
read_cells-append c at zero n = simp (zero-add, add-zero)
read_cells-append c at (suc m) n =
    simp (suc-add, add-suc) (ap (◌∷◌ (c at)) (read_cells-append c (suc at) m n ∙ simp (suc-add)))

pub read_cells-adjoining :
    (c : Cells) (at m n : ℕ) {a b : Bytes}
    → some (read_cells c at m) ≡ some a
    → some (read_cells c (at + m) n) ≡ some b
    → some (read_cells c at (m + n)) ≡ some (a ++ b)
read_cells-adjoining c at m n h k = ap some (read_cells-append c at m n) ∙ cc

pub sectors_apart :
    (at n from len : ℕ)
    → ((at + n + 4095) / 4096 * 4096 ≤ from) ⊎ (from + len ≤ at / 4096 * 4096)
    → (at + n ≤ from) ⊎ (from + len ≤ at)
sectors_apart at n from len h = omega arith

abbrev pub memory : Storage
memory = record {
  Chip = Cells;
  read = λ c at len. some (read_cells c at len);
  write = λ c at b. (write_cells c at b, true);
  read-write = λ c at b done. ap some (read_cells-write_cells c at b);
  read-write_apart =
      λ c at b from len done h. ap some (read_cells-write_cells_apart c at b from len h);
  read-write_sectors = λ c at b from len h.
      ap some
        (read_cells-write_cells_apart c at b from len (sectors_apart at (length b) from len h));
  read-adjoining = read_cells-adjoining;
}

-- An erased chip.
abbrev pub blank : Cells
blank a = 255
