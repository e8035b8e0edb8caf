-- ===== src/Ota/Writer/Confined.antt =====
-- Where the writer writes: `Writer` (src/ota.rs).
use rs_smarthome_nodes.Base.{
  ℕ, zero, suc, ◌+◌, ◌-◌, ◌*◌, ◌/◌, ◌%◌, ◌≤◌, ◌≡◌, ◌⊎◌, inl, inr, refl, sym, ◌∙◌, min, subst, not,
  [], ◌∷◌, take, drop, length, length-take, length-drop, copy_at, ltb, ◌==◌, ◌&&◌, Bool-cases,
  arith,
}
use rs_smarthome_nodes.Base.Bytes.{Bytes}
use rs_smarthome_nodes.Base.Result.{ok, err}
use rs_smarthome_nodes.Base.Words.{u32_mod}
use rs_smarthome_nodes.Flash.{Storage}
use rs_smarthome_nodes.Ota.Writer.{
  Writer, Done, writer_new, writer_flush, and_then, staged, flush_if_full, fill, writer_write,
  writer_finish, checked, image_magic, slot_offset, slot_size,
}
use rs_smarthome_nodes.Ota.Writer.Image.{writer_new_ok}
use rs_smarthome_nodes.Sha256.{update}

-- A block beside the slot.
abbrev pub IsBeside : ℕ → ℕ → ℕ → Type 0
IsBeside slot from len = (from + len ≤ slot_offset slot) ⊎ (slot_offset slot + slot_size ≤ from)

sectors_in_slot :
    (slot at len from n : ℕ)
    → at + len ≤ slot_size
    → IsBeside slot from n
    → ((slot_offset slot + at + len + 4095) / 4096 * 4096 ≤ from)
      ⊎ (from + n ≤ (slot_offset slot + at) / 4096 * 4096)
unfolding slot_offset slot_size
sectors_in_slot slot at len from n h beside = elim (Bool-cases (slot == 0)) [
  | inl first ↦ elim (rw first at beside) [
    | inl below ↦ rw first (inr (omega arith))
    | inr above ↦ rw first (inl (omega arith))
  ]
  | inr second ↦ elim (rw second at beside) [
    | inl below ↦ rw second (inr (omega arith))
    | inr above ↦ rw second (inl (omega arith))
  ]
]

module _ (flash : Storage) where
  open flash use {Chip, read, write, read-write_sectors}

  -- Every block beside the slot reads as it did at the start.
  abbrev pub Untouched : ℕ → Chip → Chip → Type 0
  Untouched slot start chip =
      (from n : ℕ) → IsBeside slot from n → read chip from n ≡ read start from n

  -- So many of the bytes taken are still to be staged.
  pub record Confined (slot : ℕ) (start : Chip) (rest : ℕ) (w : Writer Chip) : Type 0 where
    pub slot_is : w.slot ≡ slot
    pub staged_le : w.flushed + w.filled + rest ≤ w.taken
    pub taken_le : w.taken ≤ w.expected
    pub expected_le : w.expected ≤ slot_size
    pub untouched : Untouched slot start w.chip

  Confined-less :
      (slot : ℕ) (start : Chip) (rest : ℕ) (w : Writer Chip)
      → Confined slot start rest w
      → Confined slot start 0 w
  Confined-less slot start rest w c = record {
    slot_is = c.slot_is;
    staged_le = omega (arith, c.staged_le);
    taken_le = c.taken_le;
    expected_le = c.expected_le;
    untouched = c.untouched;
  }

  pub writer_new-Confined :
      (slot expected : ℕ) (buf : Bytes) (chip : Chip) (w : Writer Chip)
      → writer_new flash slot expected buf chip ≡ ok w
      → Confined slot chip 0 w
  writer_new-Confined slot expected buf chip w e =
      let (is, low, some_byte, fits, room) = writer_new_ok flash slot expected buf chip w e in
      subst (λ v. Confined slot chip 0 v) (sym is)
        record {
          slot_is = refl;
          staged_le = omega arith;
          taken_le = omega arith;
          expected_le = fits;
          untouched = λ from n beside. refl;
        }

  written-Untouched :
      (slot : ℕ) (start : Chip) (rest : ℕ) (w : Writer Chip)
      → Confined slot start rest w
      → Untouched slot start (write w.chip (slot_offset w.slot + w.flushed) (take w.filled w.buf)).0
  written-Untouched slot start rest w c from n beside =
      let short = length-take w.filled w.buf in
      read-write_sectors w.chip (slot_offset w.slot + w.flushed) (take w.filled w.buf) from n (
        rw c.slot_is (
          sectors_in_slot slot w.flushed (length (take w.filled w.buf)) from n
            (omega (arith, short, c.staged_le, c.taken_le, c.expected_le)) beside))
      ∙ c.untouched from n beside

  pub flush-Confined :
      (slot : ℕ) (start : Chip) (rest : ℕ) (w : Writer Chip)
      → Confined slot start rest w
      → Confined slot start rest (writer_flush flash w).0
  unfolding writer_flush slot_size
  flush-Confined slot start rest w c = elim (Bool-cases (w.filled == 0)) [
    | inl empty ↦ rw empty c
    | inr some_kept ↦
        elim (Bool-cases (write w.chip (slot_offset w.slot + w.flushed) (take w.filled w.buf)).1) [
          | inl good ↦
              rw (some_kept, good)
                record {
                  slot_is = c.slot_is;
                  staged_le = omega (arith, c.staged_le, c.taken_le, c.expected_le);
                  taken_le = c.taken_le;
                  expected_le = c.expected_le;
                  untouched = written-Untouched slot start rest w c;
                }
          | inr bad ↦
              rw (some_kept, bad)
                record {
                  slot_is = c.slot_is;
                  staged_le = c.staged_le;
                  taken_le = c.taken_le;
                  expected_le = c.expected_le;
                  untouched = written-Untouched slot start rest w c;
                }
        ]
  ]

  turn-Confined :
      (slot : ℕ) (start : Chip) (w : Writer Chip) (piece rest : Bytes) (n : ℕ)
      → Confined slot start n w
      → n ≡ length piece + length rest
      → Confined slot start (length rest) (flush_if_full flash (staged flash w piece)).0
  unfolding flush_if_full staged
  turn-Confined slot start w piece rest n c e =
      let w1 = record w { buf = copy_at w.buf w.filled piece; filled = w.filled + length piece } in
      let c1 : Confined slot start (length rest) w1 = record {
        slot_is = c.slot_is;
        staged_le = omega (arith, c.staged_le);
        taken_le = c.taken_le;
        expected_le = c.expected_le;
        untouched = c.untouched;
      } in
      elim (Bool-cases (w1.filled == length w1.buf)) [
        | inl full ↦ rw full (flush-Confined slot start (length rest) w1 c1)
        | inr more ↦ rw more c1
      ]

  and_then-Confined :
      (slot : ℕ) (start : Chip) (next : Writer Chip → Bytes → Done Chip) (r : Done Chip)
      (rest : Bytes)
      → Confined slot start (length rest) r.0
      → ((w : Writer Chip)
          → Confined slot start (length rest) w
          → Confined slot start 0 (next w rest).0)
      → Confined slot start 0 (and_then flash next r rest).0
  and_then-Confined slot start next (w, ok _) rest c ih = ih w c
  and_then-Confined slot start next (w, err e) rest c ih =
      Confined-less slot start (length rest) w c

  fill-Confined :
      (slot : ℕ) (start : Chip) (fuel : ℕ) (w : Writer Chip) (chunk : Bytes)
      → Confined slot start (length chunk) w
      → Confined slot start 0 (fill flash fuel w chunk).0
  unfolding fill
  fill-Confined slot start zero w chunk c = Confined-less slot start (length chunk) w c
  fill-Confined slot start (suc fuel) w [] c = c
  fill-Confined slot start (suc fuel) w (b ∷ bs) c =
      let n = min (length w.buf - w.filled) (length (b ∷ bs)) in
      and_then-Confined slot start (fill flash fuel)
        (flush_if_full flash (staged flash w (take n (b ∷ bs)))) (drop n (b ∷ bs))
        (turn-Confined slot start w (take n (b ∷ bs)) (drop n (b ∷ bs)) (length (b ∷ bs)) c
          (omega (arith, length-take n (b ∷ bs), length-drop n (b ∷ bs))))
        (λ w1. fill-Confined slot start fuel w1 (drop n (b ∷ bs)))

  pub writer_write-Confined :
      (slot : ℕ) (start : Chip) (w : Writer Chip) (b : Bytes)
      → length b ≤ 0x8000_0000
      → Confined slot start 0 w
      → Confined slot start 0 (writer_write flash w b).0
  unfolding writer_write slot_size
  writer_write-Confined slot start w [] short c = c
  writer_write-Confined slot start w (b ∷ bs) short c =
      let n = (w.taken + length (b ∷ bs)) % u32_mod in
      elim (Bool-cases (w.taken == 0 && not (b == image_magic))) [
        | inl wrong ↦ rw wrong c
        | inr right ↦ elim (Bool-cases (ltb w.expected n)) [
          | inl over ↦ rw (right, over) c
          | inr under ↦
              rw (right, under)
                (fill-Confined slot start _
                  (record w { hasher = update w.hasher (b ∷ bs); taken = n }) (b ∷ bs)
                  record {
                    slot_is = c.slot_is;
                    staged_le = omega (arith, c.staged_le, c.taken_le, c.expected_le, short);
                    taken_le = ground (arith, under);
                    expected_le = c.expected_le;
                    untouched = c.untouched;
                  })
        ]
      ]

  checked-Confined :
      (slot : ℕ) (start : Chip) (digest : Bytes) (r : Done Chip)
      → Untouched slot start r.0.chip
      → Untouched slot start (checked flash digest r).0
  checked-Confined slot start digest (w, ok _) u = u
  checked-Confined slot start digest (w, err e) u = u

  pub finish-Confined :
      (slot : ℕ) (start : Chip) (w : Writer Chip) (digest : Bytes)
      → Confined slot start 0 w
      → Untouched slot start (writer_finish flash w digest).0
  unfolding writer_finish
  finish-Confined slot start w digest c = elim (Bool-cases (w.taken == w.expected)) [
    | inl full ↦ rw full (
        checked-Confined slot start digest (writer_flush flash w)
          (flush-Confined slot start 0 w c).untouched)
    | inr short ↦ rw short c.untouched
  ]
