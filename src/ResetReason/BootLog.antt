-- ===== src/ResetReason/BootLog.antt =====
-- The boot log in flash: what is written is read back, and the count follows the boots.
use rs_smarthome_nodes.Base.{
  ℕ, ◌+◌, ◌≤◌, ◌<◌, ◌≡◌, ◌≢◌, refl, ◌>>=◌, ◌⊎◌, ◌&&◌, All, &&_parts, Bool, true, List, [], ◌∷◌,
  Option, none, some, min, arith, ◌++◌, length, ◌==◌, if◌then◌else◌,
}
use rs_smarthome_nodes.Base.Bytes.{Bytes, le_bytes, from_le_lem}
use rs_smarthome_nodes.Base.Words.{u32_mod}
use rs_smarthome_nodes.Crc.{crc32}
use rs_smarthome_nodes.Crc.Bounds.{crc32-lt}
use rs_smarthome_nodes.Flash.{Storage}
use rs_smarthome_nodes.ResetReason.{
  boot_log_len, boot_log_offset, max_recorded_boots, deep_sleep, record_boot, encode_boot_log,
  decode_boot_log, load_boot_log, store_record, note_boot, boot_magic, boot_version,
}

boot_log_head : ℕ → ℕ → Bytes
boot_log_head count reason =
    le_bytes boot_magic ++ (boot_version ∷ 0 ∷ 0 ∷ 0 ∷ (le_bytes count ++ le_bytes reason))

-- Every count from 1 to 10,000 survives the encoding, with its reason, which fits a word.
pub decode-encode_boot_log :
    (count reason : ℕ)
    → 0 < count
    → count ≤ max_recorded_boots
    → reason < u32_mod
    → decode_boot_log (encode_boot_log count reason) ≡ some (count, reason)
unfolding decode_boot_log encode_boot_log boot_log_head
decode-encode_boot_log count reason h0 h1 h2 =
    rw (from_le_lem (crc32 (boot_log_head count reason)) (crc32-lt _)) (ground arith)

-- The count that a stored record shows; no record counts as 0.
abbrev pub count_of : Option (ℕ × ℕ) → ℕ
count_of none = 0
count_of (some (count, reason)) = count

-- The boots that are recorded: all but the wakes from deep sleep.
unfoldable pub hard_boots : List ℕ → ℕ
hard_boots [] = 0
hard_boots (code ∷ rest) = (if code == deep_sleep then 0 else 1) + hard_boots rest

decode_boot_log-le : (b : Bytes) → count_of (decode_boot_log b) ≤ max_recorded_boots
unfolding decode_boot_log
decode_boot_log-le b = ground arith

record_boot_count :
    (stored : Option (ℕ × ℕ)) (code : ℕ) {count reason : ℕ}
    → count_of stored ≤ max_recorded_boots
    → record_boot stored code ≡ some (count, reason)
    → (count ≡ count_of stored + 1)
      × (count ≤ max_recorded_boots)
      × (reason ≡ code)
      × (code ≢ deep_sleep)
unfolding record_boot
record_boot_count none code h e = ground arith
record_boot_count (some (c, r)) code h e = ground arith

record_boot_skips :
    (stored : Option (ℕ × ℕ)) (code : ℕ)
    → record_boot stored code ≡ none
    → (code ≡ deep_sleep) ⊎ (max_recorded_boots ≤ count_of stored)
unfolding record_boot
record_boot_skips none code e = ground arith
record_boot_skips (some (c, r)) code e = ground arith

length-encode_boot_log : (count reason : ℕ) → length (encode_boot_log count reason) ≡ boot_log_len
unfolding encode_boot_log
length-encode_boot_log count reason = refl

hard_boots-cons :
    (code : ℕ) (rest : List ℕ) → hard_boots (code ∷ rest) ≡ hard_boots (code ∷ []) + hard_boots rest
unfolding hard_boots
hard_boots-cons code rest = omega arith

module _ (flash : Storage) where
  open flash use {Chip, read, write, read-write}

  load_boot_log-le : (chip : Chip) → count_of (load_boot_log flash chip) ≤ max_recorded_boots
  unfolding load_boot_log
  load_boot_log-le chip = go (read chip boot_log_offset boot_log_len)
    where
      go : (r : Option Bytes) → count_of (r >>= decode_boot_log) ≤ max_recorded_boots
      go none = omega arith
      go (some b) = decode_boot_log-le b

  load-write :
      (chip : Chip) (count reason : ℕ)
      → 0 < count
      → count ≤ max_recorded_boots
      → reason < u32_mod
      → (write chip boot_log_offset (encode_boot_log count reason)).1 ≡ true
      → load_boot_log flash (write chip boot_log_offset (encode_boot_log count reason)).0
        ≡ some (count, reason)
  unfolding load_boot_log
  load-write chip count reason h0 h1 h2 done = rw (← length-encode_boot_log count reason) (
      rw (read-write chip boot_log_offset (encode_boot_log count reason) done)
        (decode-encode_boot_log count reason h0 h1 h2))

  -- The chip after a list of boots, and whether every write succeeded.
  unfoldable pub note_boots : Chip → List ℕ → Chip × Bool
  note_boots chip [] = (chip, true)
  note_boots chip (code ∷ rest) =
      let (chip', done) = note_boot flash chip code in
      let (last, all_done) = note_boots chip' rest in (last, done && all_done)

  store_record_count :
      (chip : Chip) (code : ℕ) (r : Option (ℕ × ℕ))
      → code < u32_mod
      → record_boot (load_boot_log flash chip) code ≡ r
      → (store_record flash chip r).1 ≡ true
      → count_of (load_boot_log flash (store_record flash chip r).0)
        ≡ min (count_of (load_boot_log flash chip) + hard_boots (code ∷ [])) max_recorded_boots
  unfolding store_record hard_boots
  store_record_count chip code none h e done =
      ground (arith, record_boot_skips _ code e, load_boot_log-le chip)
  store_record_count chip code (some (count, reason)) h e done =
      let (counted, capped, same, hard) = record_boot_count _ code (load_boot_log-le chip) e in
      rw (load-write chip count reason (omega arith) capped (rw same h) done) (ground arith)

  note_boot_count :
      (chip : Chip) (code : ℕ)
      → code < u32_mod
      → (note_boot flash chip code).1 ≡ true
      → count_of (load_boot_log flash (note_boot flash chip code).0)
        ≡ min (count_of (load_boot_log flash chip) + hard_boots (code ∷ [])) max_recorded_boots
  unfolding note_boot
  note_boot_count chip code h done =
      store_record_count chip code (record_boot (load_boot_log flash chip) code) h refl done

  -- While no write fails and every reason fits a word, the count in flash is the number of boots since the
  -- record began, wakes from deep sleep apart, and it stops at 10,000.
  pub note_boots_count :
      (chip : Chip) (codes : List ℕ)
      → All (λ code. code < u32_mod) codes
      → (note_boots chip codes).1 ≡ true
      → count_of (load_boot_log flash (note_boots chip codes).0)
        ≡ min (count_of (load_boot_log flash chip) + hard_boots codes) max_recorded_boots
  unfolding note_boots
  note_boots_count chip [] hs done = unfold hard_boots in omega (arith, load_boot_log-le chip)
  note_boots_count chip (code ∷ rest) (h, hs) done =
      let (first, later) = &&_parts _ _ done in
      omega (
        arith,
        note_boots_count (note_boot flash chip code).0 rest hs later,
        note_boot_count chip code h first,
        hard_boots-cons code rest,
      )
