-- ===== src/Ota/Writer.antt =====
-- The image on its way into the slot that is not running: `Writer` (src/ota.rs).
pub mod Staging
pub mod Filling
pub mod Image
pub mod Confined
use rs_smarthome_nodes.Base.{
  ℕ, zero, suc, ◌+◌, ◌-◌, ◌%◌, min, not, ◌&&◌, ◌||◌, [], ◌∷◌, take, drop, copy_at, length, ltb, leb,
  ◌==◌, if◌then◌else◌,
}
use rs_smarthome_nodes.Base.Bytes.{Bytes}
use rs_smarthome_nodes.Base.Result.{Result, ok, err}
use rs_smarthome_nodes.Base.Text.{bytes_eq}
use rs_smarthome_nodes.Base.Words.{u32_mod}
use rs_smarthome_nodes.Flash.{Storage}
use rs_smarthome_nodes.Ota.{sector}
use rs_smarthome_nodes.Sha256.{Sha256, fresh_hasher, update, finish}

unfoldable pub slot_offset : ℕ → ℕ
slot_offset slot = if slot == 0 then 0x1_0000 else 0x20_0000

unfoldable pub slot_size : ℕ
slot_size = 0x1f_0000

abbrev pub image_magic : ℕ
image_magic = 0xe9

pub data WriterError : Type 0 where
  no_such_slot does_not_fit bad_buffer not_an_image too_much flash_failed too_short wrong_digest :
      WriterError

-- `C` is the chip that the driver writes.
pub record Writer (C : Type 0) : Type 0 where
  pub slot : ℕ
  pub expected : ℕ
  pub taken : ℕ
  pub flushed : ℕ
  pub buf : Bytes
  pub filled : ℕ
  pub hasher : Sha256
  pub chip : C

-- What `&mut self` leaves, and the result.
abbrev pub Done : Type 0 → Type 0
Done C = Writer C × Result WriterError (Unit {0})

unfoldable pub progress : {C : Type 0} → Writer C → ℕ × ℕ
progress w = (w.taken, w.expected)

module _ (flash : Storage) where
  open flash use {Chip, write}

  unfoldable pub writer_new : ℕ → ℕ → Bytes → Chip → Result WriterError (Writer Chip)
  writer_new slot expected buf chip =
      if leb 2 slot
      then err no_such_slot
      else if expected == 0 || ltb slot_size expected
      then err does_not_fit
      else if length buf == 0 || not (length buf % sector == 0)
      then err bad_buffer
      else ok record {
        slot = slot;
        expected = expected;
        taken = 0;
        flushed = 0;
        buf = buf;
        filled = 0;
        hasher = fresh_hasher;
        chip = chip;
      }

  unfoldable pub writer_flush : Writer Chip → Done Chip
  writer_flush w =
      let written = write w.chip (slot_offset w.slot + w.flushed) (take w.filled w.buf) in
      if w.filled == 0
      then (w, ok tt)
      else if written.1
      then (
        record w { chip = written.0; flushed = (w.flushed + w.filled) % u32_mod; filled = 0 },
        ok tt,
      )
      else (record w { chip = written.0 }, err flash_failed)

  abbrev pub and_then : (Writer Chip → Bytes → Done Chip) → Done Chip → Bytes → Done Chip
  and_then next (w, ok _) rest = next w rest
  and_then next (w, err e) rest = (w, err e)

  -- A turn's copy into the staging buffer.
  unfoldable pub staged : Writer Chip → Bytes → Writer Chip
  staged w piece = record w { buf = copy_at w.buf w.filled piece; filled = w.filled + length piece }

  unfoldable pub flush_if_full : Writer Chip → Done Chip
  flush_if_full w = if w.filled == length w.buf then writer_flush w else (w, ok tt)

  -- The loop over the chunk. Each turn takes a byte at least, but for a first one that only empties a
  -- buffer that an earlier call left full.
  unfoldable pub fill : ℕ → Writer Chip → Bytes → Done Chip
  fill zero w chunk = (w, ok tt)
  fill (suc fuel) w [] = (w, ok tt)
  fill (suc fuel) w (c ∷ cs) =
      let chunk = c ∷ cs in
      let n = min (length w.buf - w.filled) (length chunk) in
      and_then (fill fuel) (flush_if_full (staged w (take n chunk))) (drop n chunk)

  unfoldable pub writer_write : Writer Chip → Bytes → Done Chip
  writer_write w [] = (w, ok tt)
  writer_write w (c ∷ cs) =
      let chunk = c ∷ cs in
      let taken = (w.taken + length chunk) % u32_mod in
      if w.taken == 0 && not (c == image_magic)
      then (w, err not_an_image)
      else if ltb w.expected taken
      then (w, err too_much)
      else fill (suc (length chunk)) (record w { hasher = update w.hasher chunk; taken = taken })
          chunk

  abbrev pub checked : Bytes → Done Chip → Chip × Result WriterError ℕ
  checked expected_digest (w, err e) = (w.chip, err e)
  checked expected_digest (w, ok _) =
      (w.chip, if bytes_eq (finish w.hasher) expected_digest then ok w.slot else err wrong_digest)

  unfoldable pub writer_finish : Writer Chip → Bytes → Chip × Result WriterError ℕ
  writer_finish w expected_digest =
      if not (w.taken == w.expected)
      then (w.chip, err too_short)
      else checked expected_digest (writer_flush w)
