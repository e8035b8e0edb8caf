-- ===== src/Ota/Writer/Image.antt =====
-- What the slot holds once an image went through `Writer` (src/ota.rs).
use rs_smarthome_nodes.Base.{
  ℕ, suc, ◌+◌, ◌%◌, ◌≤◌, ◌<◌, ◌≡◌, refl, ap, sym, ◌∙◌, false, not, some, [], ◌∷◌, ◌++◌, append-nil,
  length, length-append, leb, ltb, ◌==◌, ==_iff, ◌&&◌, ◌||◌, Bool-cases, subst, inl, inr, arith,
}
use rs_smarthome_nodes.Base.Bytes.{Bytes}
use rs_smarthome_nodes.Base.Result.{ok, err}
use rs_smarthome_nodes.Base.Words.{u32_mod}
use rs_smarthome_nodes.Base.Text.{bytes_eq, bytes_eq→eq}
use rs_smarthome_nodes.Flash.{Storage}
use rs_smarthome_nodes.Ota.{sector}
use rs_smarthome_nodes.Ota.Writer.{
  Writer, Done, writer_new, writer_write, writer_flush, writer_finish, checked, fill, image_magic,
  slot_offset, slot_size,
}
use rs_smarthome_nodes.Ota.Writer.Staging.{Held, refused, flush-Held}
use rs_smarthome_nodes.Ota.Writer.Filling.{fill-Took}
use rs_smarthome_nodes.Sha256.{Sha256, fresh_hasher, update, absorb, finish}
use rs_smarthome_nodes.Sha256.Streaming.{update-append}

ltb-false : (a b : ℕ) → ltb a b ≡ false → b ≤ a
ltb-false a b h = ground arith

module _ (flash : Storage) where
  open flash use {Chip, read}

  -- The writer took these bytes for this slot.
  pub record Writing (slot expected : ℕ) (bytes : Bytes) (w : Writer Chip) : Type 0 where
    pub slot_is : w.slot ≡ slot
    pub expected_is : w.expected ≡ expected
    pub taken_is : w.taken ≡ length bytes
    pub hashed : w.hasher ≡ update fresh_hasher bytes
    pub room : w.filled < length w.buf
    pub sent : Bytes
    pub kept : Bytes
    pub all : sent ++ kept ≡ bytes
    pub held : Held flash w sent kept

  not_begun : update fresh_hasher [] ≡ fresh_hasher
  unfolding update absorb
  not_begun = refl

  abbrev pub begun : (slot expected : ℕ) (buf : Bytes) (chip : Chip) → Writer Chip
  begun slot expected buf chip = record {
    slot = slot;
    expected = expected;
    taken = 0;
    flushed = 0;
    buf = buf;
    filled = 0;
    hasher = fresh_hasher;
    chip = chip;
  }

  begun-Writing :
      (slot expected : ℕ) (buf : Bytes) (chip : Chip)
      → 0 < length buf
      → Writing slot expected [] (begun slot expected buf chip)
  begun-Writing slot expected buf chip h = record {
    slot_is = refl;
    expected_is = refl;
    taken_is = refl;
    hashed = sym not_begun;
    room = h;
    sent = [];
    kept = [];
    all = refl;
    held = record {
      flushed_is = refl;
      filled_is = refl;
      in_buf = refl;
      stored = inl refl;
      in_room = omega arith;
      word = omega arith;
    };
  }

  -- What `writer_new` checked.
  pub writer_new_ok :
      (slot expected : ℕ) (buf : Bytes) (chip : Chip) (w : Writer Chip)
      → writer_new flash slot expected buf chip ≡ ok w
      → (w ≡ begun slot expected buf chip)
        × (slot < 2)
        × (0 < expected)
        × (expected ≤ slot_size)
        × (0 < length buf)
  unfolding writer_new
  writer_new_ok slot expected buf chip w e = elim (Bool-cases (leb 2 slot)) [
    | inl bad ↦ let e' = rw bad at e in (cc)
    | inr low ↦ elim (Bool-cases (expected == 0 || ltb slot_size expected)) [
      | inl bad ↦ let e' = rw (low, bad) at e in (cc)
      | inr fits ↦ elim (Bool-cases (length buf == 0 || not (length buf % sector == 0))) [
        | inl bad ↦ let e' = rw (low, fits, bad) at e in (cc)
        | inr whole ↦
            let e' = rw (low, fits, whole) at e in
            (
              cc,
              ground (arith, low),
              ground (arith, fits),
              ground (arith, fits),
              ground (arith, whole),
            )
      ]
    ]
  ]

  pub writer_new-Writing :
      (slot expected : ℕ) (buf : Bytes) (chip : Chip) (w : Writer Chip)
      → writer_new flash slot expected buf chip ≡ ok w
      → Writing slot expected [] w × (0 < expected) × (expected ≤ slot_size)
  writer_new-Writing slot expected buf chip w e =
      let (is, low, some_byte, fits, room) = writer_new_ok slot expected buf chip w e in
      (
        subst (λ v. Writing slot expected [] v) (sym is)
            (begun-Writing slot expected buf chip room),
        some_byte,
        fits,
      )

  counted-Held :
      (w : Writer Chip) (sent kept : Bytes) (n : ℕ) (s : Sha256)
      → Held flash w sent kept
      → Held flash (record w { taken = n; hasher = s }) sent kept
  counted-Held w sent kept n s h = record {
    flushed_is = h.flushed_is;
    filled_is = h.filled_is;
    in_buf = h.in_buf;
    stored = h.stored;
    in_room = h.in_room;
    word = h.word;
  }

  filled-Writing :
      (slot expected : ℕ) (bytes b : Bytes) (w : Writer Chip) (n : ℕ)
      → Writing slot expected bytes w
      → n ≡ length (bytes ++ b)
      → n < u32_mod
      → (fill flash (suc (length b)) (record w { taken = n; hasher = update w.hasher b }) b).1
        ≡ ok tt
      → Writing slot expected
          (bytes ++ b)
          (fill flash (suc (length b)) (record w { taken = n; hasher = update w.hasher b }) b).0
  filled-Writing slot expected bytes b w n now count small done =
      let sizes = length-append now.sent now.kept in
      let sizes' = ap length now.all in
      let (sent, kept, all, held, same, room) =
        fill-Took flash (suc (length b)) (record w { taken = n; hasher = update w.hasher b }) b
          now.sent now.kept (counted-Held w now.sent now.kept n _ now.held) now.room
          (omega (arith, sizes, sizes', length-append bytes b, count, small)) (omega arith) done in
      record {
        slot_is = same.slot_same ∙ now.slot_is;
        expected_is = same.expected_same ∙ now.expected_is;
        taken_is = same.taken_same ∙ count;
        hashed =
            same.hasher_same
            ∙ ap (λ s. update s b) now.hashed
            ∙ update-append fresh_hasher bytes b (omega arith);
        room = room;
        sent = sent;
        kept = kept;
        all = all ∙ ap (λ t. t ++ b) now.all;
        held = held;
      }

  pub writer_write-Writing :
      (slot expected : ℕ) (bytes b : Bytes) (w : Writer Chip)
      → Writing slot expected bytes w
      → expected ≤ slot_size
      → length b ≤ 0x8000_0000
      → length bytes ≤ expected
      → (writer_write flash w b).1 ≡ ok tt
      → Writing slot expected (bytes ++ b) (writer_write flash w b).0
        × (length (bytes ++ b) ≤ expected)
  unfolding writer_write slot_size
  writer_write-Writing slot expected bytes [] w now fits short le done =
      rw (append-nil bytes) (now, le)
  writer_write-Writing slot expected bytes (c ∷ cs) w now fits short le done =
      let n = (w.taken + length (c ∷ cs)) % u32_mod in
      let count : n ≡ length (bytes ++ c ∷ cs) =
        omega (arith, now.taken_is, length-append bytes (c ∷ cs), fits, short, le) in
      elim (Bool-cases (w.taken == 0 && not (c == image_magic))) [
        | inl wrong ↦ absurd (refused (rw wrong at done))
        | inr right ↦ elim (Bool-cases (ltb w.expected n)) [
          | inl over ↦ absurd (refused (rw (right, over) at done))
          | inr under ↦
              rw (right, under)
                (
                  filled-Writing slot expected bytes (c ∷ cs) w n now count (omega arith)
                      (rw (right, under) at done),
                  omega (arith, count, now.expected_is, ltb-false w.expected n under),
                )
        ]
      ]

  -- The slot holds the image, whose digest is as promised.
  abbrev pub Holds : ℕ → ℕ → Bytes → Bytes → Chip → Type 0
  Holds slot expected digest image chip =
      (length image ≡ expected)
      × (read chip (slot_offset slot) expected ≡ some image)
      × (finish (update fresh_hasher image) ≡ digest)

  checked_ok :
      (slot expected s : ℕ) (digest bytes : Bytes) (r : Done Chip)
      → (checked flash digest r).1 ≡ ok s
      → (r.1 ≡ ok tt
          → Writing slot expected bytes r.0
            × (read r.0.chip (slot_offset slot) expected ≡ some bytes))
      → length bytes ≡ expected
      → (s ≡ slot) × Holds slot expected digest bytes (checked flash digest r).0
  checked_ok slot expected s digest bytes (w, err e) done held size = cc
  checked_ok slot expected s digest bytes (w, ok _) done held size =
      let (now, there) = held refl in
      elim (Bool-cases (bytes_eq (finish w.hasher) digest)) [
        | inl same ↦
            let done' = rw same at done in
            (cc, (size, there, bytes_eq→eq _ digest (rw now.hashed at same)))
        | inr other ↦ let done' = rw other at done in (cc)
      ]

  in_flash :
      (slot : ℕ) (w : Writer Chip) (sent kept bytes : Bytes)
      → Held flash w sent kept
      → w.slot ≡ slot
      → sent ≡ bytes
      → 0 < length bytes
      → read w.chip (slot_offset slot) (length bytes) ≡ some bytes
  in_flash slot w sent kept bytes h is all some_byte = elim h.stored [
    | inl none_yet ↦ absurd (omega (arith, some_byte, ap length none_yet, ap length all))
    | inr there ↦ rw (is, all) at there
  ]

  flushed-Writing :
      (slot expected : ℕ) (bytes : Bytes) (w : Writer Chip)
      → Writing slot expected bytes w
      → 0 < expected
      → length bytes ≡ expected
      → (writer_flush flash w).1 ≡ ok tt
      → Writing slot expected bytes (writer_flush flash w).0
        × (read (writer_flush flash w).0.chip (slot_offset slot) expected ≡ some bytes)
  flushed-Writing slot expected bytes w now some_byte size done =
      let (held, same, none_left) = flush-Held flash w now.sent now.kept now.held done in
      let is = same.slot_same ∙ now.slot_is in
      (
        record {
          slot_is = is;
          expected_is = same.expected_same ∙ now.expected_is;
          taken_is = same.taken_same ∙ now.taken_is;
          hashed = same.hasher_same ∙ now.hashed;
          room = omega (arith, none_left, same.buf_same, now.room);
          sent = now.sent ++ now.kept;
          kept = [];
          all = append-nil (now.sent ++ now.kept) ∙ now.all;
          held = held;
        },
        (rw size at (
            in_flash slot (writer_flush flash w).0 (now.sent ++ now.kept) [] bytes held is now.all
              (omega arith))),
      )

  -- An accepted image is in the slot as a whole.
  pub writer_finish-Holds :
      (slot expected s : ℕ) (bytes digest : Bytes) (w : Writer Chip)
      → Writing slot expected bytes w
      → 0 < expected
      → (writer_finish flash w digest).1 ≡ ok s
      → (s ≡ slot) × Holds slot expected digest bytes (writer_finish flash w digest).0
  unfolding writer_finish
  writer_finish-Holds slot expected s bytes digest w now some_byte done =
      elim (Bool-cases (w.taken == w.expected)) [
        | inl full ↦
            let size : length bytes ≡ expected =
              sym now.taken_is ∙ (==_iff w.taken w.expected).0 full ∙ now.expected_is in
            let done' = rw full at done in
            rw full (
              checked_ok slot expected s digest bytes (writer_flush flash w) done'
                (flushed-Writing slot expected bytes w now some_byte size) size)
        | inr short ↦ let done' = rw short at done in (cc)
      ]
