-- ===== src/Ota/Writer/Staging.antt =====
-- The staging buffer and what is in flash already: `Writer` (src/ota.rs).
use rs_smarthome_nodes.Base.{
  ℕ, ◌+◌, ◌%◌, ◌≤◌, ◌<◌, ◌≡◌, ◌≢◌, ◌⊎◌, inl, inr, refl, ap, sym, ◌∙◌, true, some, [], ◌∷◌, ◌++◌,
  append-nil, take, length, length-append, length-copy_at, ◌==◌, ==_iff, Bool-cases, arith,
}
use rs_smarthome_nodes.Base.Bytes.{Bytes}
use rs_smarthome_nodes.Base.Result.{ok, err}
use rs_smarthome_nodes.Base.Slices.{take-copy_at_behind}
use rs_smarthome_nodes.Base.Words.{u32_mod}
use rs_smarthome_nodes.Flash.{Storage}
use rs_smarthome_nodes.Ota.Writer.{
  Writer, WriterError, slot_offset, writer_flush, staged, flush_if_full,
}

nothing_of : (b : Bytes) → length b ≡ 0 → b ≡ []
nothing_of [] h = refl
nothing_of (x ∷ b) h = absurd (omega arith)

pub refused : {e : WriterError} {u : Unit {0}} → err e ≢ ok u
refused h = cc

module _ (flash : Storage) where
  open flash use {Chip, read, write, read-write, read-write_apart, read-adjoining}

  -- `sent` is in flash, from the beginning of the slot on, and `kept` in the buffer.
  pub record Held (w : Writer Chip) (sent kept : Bytes) : Type 0 where
    pub flushed_is : w.flushed ≡ length sent
    pub filled_is : w.filled ≡ length kept
    pub in_buf : take w.filled w.buf ≡ kept
    pub stored : (sent ≡ []) ⊎ (read w.chip (slot_offset w.slot) (length sent) ≡ some sent)
    pub in_room : w.filled ≤ length w.buf
    pub word : length sent + length kept < u32_mod

  -- What staging and flushing leave alone.
  pub record Alike (w w' : Writer Chip) : Type 0 where
    pub slot_same : w'.slot ≡ w.slot
    pub expected_same : w'.expected ≡ w.expected
    pub taken_same : w'.taken ≡ w.taken
    pub hasher_same : w'.hasher ≡ w.hasher
    pub buf_same : length w'.buf ≡ length w.buf

  pub Alike-self : (w : Writer Chip) → Alike w w
  Alike-self w = record {
    slot_same = refl;
    expected_same = refl;
    taken_same = refl;
    hasher_same = refl;
    buf_same = refl;
  }

  pub Alike-trans : (u v w : Writer Chip) → Alike u v → Alike v w → Alike u w
  Alike-trans u v w h k = record {
    slot_same = k.slot_same ∙ h.slot_same;
    expected_same = k.expected_same ∙ h.expected_same;
    taken_same = k.taken_same ∙ h.taken_same;
    hasher_same = k.hasher_same ∙ h.hasher_same;
    buf_same = k.buf_same ∙ h.buf_same;
  }

  -- A block written right behind what is stored.
  stored_more :
      (chip : Chip) (at : ℕ) (sent kept : Bytes)
      → (sent ≡ []) ⊎ (read chip at (length sent) ≡ some sent)
      → (write chip (at + length sent) kept).1 ≡ true
      → read (write chip (at + length sent) kept).0 at (length sent + length kept)
        ≡ some (sent ++ kept)
  stored_more chip at sent kept (inr old) done =
      read-adjoining _ at (length sent) (length kept)
        (read-write_apart chip (at + length sent) kept at (length sent) done (inr (omega arith))
          ∙ old)
        (read-write chip (at + length sent) kept done)
  stored_more chip at sent kept (inl none_yet) done =
      let here : at + length sent ≡ at = omega (arith, ap length none_yet) in
      let size : length sent + length kept ≡ length kept = omega (arith, ap length none_yet) in
      rw (here, size, none_yet)
        (read-write chip at kept (ap (λ a. (write chip a kept).1) (sym here) ∙ done))

  flushed-Held :
      (w : Writer Chip) (sent kept : Bytes) (chip : Chip)
      → Held w sent kept
      → read chip (slot_offset w.slot) (length sent + length kept) ≡ some (sent ++ kept)
      → Held
          (record w { chip = chip; flushed = (w.flushed + w.filled) % u32_mod; filled = 0 })
          (sent ++ kept)
          []
  flushed-Held w sent kept chip h there =
      let joined : length (sent ++ kept) ≡ length sent + length kept = length-append sent kept in
      record {
        flushed_is = omega (arith, h.flushed_is, h.filled_is, h.word, joined);
        filled_is = refl;
        in_buf = refl;
        stored = inr (rw joined there);
        in_room = omega arith;
        word = omega (arith, h.word, joined);
      }

  Held-none :
      (w : Writer Chip) (sent kept : Bytes)
      → kept ≡ []
      → Held w sent kept
      → Held w (sent ++ kept) []
  Held-none w sent kept e h = rw (e, append-nil sent) (rw e at h)

  written-Held :
      (w : Writer Chip) (sent kept : Bytes)
      → Held w sent kept
      → (write w.chip (slot_offset w.slot + w.flushed) (take w.filled w.buf)).1 ≡ true
      → read
          (write w.chip (slot_offset w.slot + w.flushed) (take w.filled w.buf)).0
          (slot_offset w.slot)
          (length sent + length kept)
        ≡ some (sent ++ kept)
  written-Held w sent kept h done =
      rw (h.in_buf, h.flushed_is)
        (stored_more w.chip (slot_offset w.slot) sent kept h.stored
          (rw (h.in_buf, h.flushed_is) at done))

  pub flush-Held :
      (w : Writer Chip) (sent kept : Bytes)
      → Held w sent kept
      → (writer_flush flash w).1 ≡ ok tt
      → Held (writer_flush flash w).0 (sent ++ kept) []
        × Alike w (writer_flush flash w).0
        × ((writer_flush flash w).0.filled ≡ 0)
  unfolding writer_flush
  flush-Held w sent kept h done = elim (Bool-cases (w.filled == 0)) [
    | inl empty ↦
        let zero_filled = (==_iff w.filled 0).0 empty in
        rw empty (
          Held-none w sent kept (nothing_of kept (sym h.filled_is ∙ zero_filled)) h,
          Alike-self w,
          zero_filled,
        )
    | inr some_kept ↦
        elim (Bool-cases (write w.chip (slot_offset w.slot + w.flushed) (take w.filled w.buf)).1) [
          | inl good ↦
              rw (some_kept, good)
                (
                  flushed-Held w sent kept _ h (written-Held w sent kept h good),
                  record {
                    slot_same = refl;
                    expected_same = refl;
                    taken_same = refl;
                    hasher_same = refl;
                    buf_same = refl;
                  },
                  refl,
                )
          | inr bad ↦ absurd (refused (rw (some_kept, bad) at done))
        ]
  ]

  pub flush_if_full-Held :
      (w : Writer Chip) (sent kept : Bytes)
      → Held w sent kept
      → 0 < length w.buf
      → (flush_if_full flash w).1 ≡ ok tt
      → (sent' : Bytes) × (kept' : Bytes) × (sent' ++ kept' ≡ sent ++ kept)
        × Held (flush_if_full flash w).0 sent' kept'
        × Alike w (flush_if_full flash w).0
        × ((flush_if_full flash w).0.filled < length w.buf)
  unfolding flush_if_full
  flush_if_full-Held w sent kept h room done = elim (Bool-cases (w.filled == length w.buf)) [
    | inl full ↦
        let (held, same, none_left) = flush-Held w sent kept h (rw full at done) in
        rw full
          (sent ++ kept, [], append-nil (sent ++ kept), held, same, omega (arith, none_left, room))
    | inr more ↦ rw more (sent, kept, refl, h, Alike-self w, ground (arith, more, h.in_room))
  ]

  pub staged-Held :
      (w : Writer Chip) (sent kept piece : Bytes)
      → Held w sent kept
      → w.filled + length piece ≤ length w.buf
      → length sent + length kept + length piece < u32_mod
      → Held (staged flash w piece) sent (kept ++ piece) × Alike w (staged flash w piece)
  unfolding staged
  staged-Held w sent kept piece h room fits =
      let joined : length (kept ++ piece) ≡ length kept + length piece = length-append kept piece in
      let size = length-copy_at w.buf w.filled piece in
      (
        record {
          flushed_is = h.flushed_is;
          filled_is = omega (arith, h.filled_is, joined);
          in_buf =
              take-copy_at_behind w.buf piece w.filled (w.filled + length piece) refl room
              ∙ ap (λ b. b ++ piece) h.in_buf;
          stored = h.stored;
          in_room = rw size room;
          word = omega (arith, joined, fits);
        },
        record {
          slot_same = refl;
          expected_same = refl;
          taken_same = refl;
          hasher_same = refl;
          buf_same = size;
        },
      )
