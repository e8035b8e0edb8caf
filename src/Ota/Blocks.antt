-- ===== src/Ota/Blocks.antt =====
-- What the writes of the pending record and of the entries leave for the reads of both.
use rs_smarthome_nodes.Base.{
  replicate, ℕ, ◌+◌, ◌*◌, ◌<◌, ◌≡◌, refl, ap, ap₂, inl, inr, true, some, length, ◌>>=◌, arith, zero,
  suc,
}
use rs_smarthome_nodes.Base.Words.{u32_mod}
use rs_smarthome_nodes.Flash.{Storage}
use rs_smarthome_nodes.Ota.Entries.{
  entry_from_bytes-entry_to_bytes, pending_from_bytes-pending_to_bytes,
}
use rs_smarthome_nodes.Ota.Flashing.{
  pending_block, read_entry, read_otadata, load_pending, store_pending, clear_pending,
}
use rs_smarthome_nodes.Ota.Slots.{put}
use rs_smarthome_nodes.Ota.{
  SelectEntry, Pending, pending_to_bytes, entry_to_bytes, entry_from_bytes, entry_len, state_len,
  state_offset, otadata_offset, sector,
}

pub length-entry : (e : SelectEntry) → length (entry_to_bytes e) ≡ entry_len
unfolding entry_to_bytes
length-entry e = refl

pub length-pending : (p : Pending) → length (pending_to_bytes p) ≡ state_len
unfolding pending_to_bytes
length-pending p = refl

module _ (flash : Storage) where
  open flash use {Chip, write, read-write, read-write_apart}

  -- What the selector reads after the bookkeeping was written: the same.
  pub read_otadata-store_pending :
      (p : Pending) (chip : Chip)
      → (store_pending flash (some p) chip).1 ≡ true
      → read_otadata flash (store_pending flash (some p) chip).0 ≡ read_otadata flash chip
  unfolding read_otadata read_entry store_pending pending_block
  read_otadata-store_pending p chip done = rw (
    read-write_apart chip state_offset (pending_to_bytes p) otadata_offset entry_len done
        (inl omega (arith, length-pending p)),
    read-write_apart chip state_offset (pending_to_bytes p) (otadata_offset + sector) entry_len done
        (inl omega (arith, length-pending p)),
  )

  pub read_otadata-clear_pending :
      (chip : Chip)
      → (clear_pending flash chip).1 ≡ true
      → read_otadata flash (clear_pending flash chip).0 ≡ read_otadata flash chip
  unfolding read_otadata read_entry clear_pending store_pending pending_block
  read_otadata-clear_pending chip done = rw (
    read-write_apart chip state_offset (replicate state_len 0) otadata_offset entry_len done
        (inl (omega arith)),
    read-write_apart chip state_offset (replicate state_len 0) (otadata_offset + sector) entry_len
        done (inl (omega arith)),
  )

  pub load_pending-store_pending :
      (p : Pending) (chip : Chip)
      → Pending.seq p < u32_mod
      → Pending.attempts p < 256
      → (store_pending flash (some p) chip).1 ≡ true
      → load_pending flash (store_pending flash (some p) chip).0 ≡ some p
  unfolding load_pending store_pending pending_block
  load_pending-store_pending p chip h k done = rw (← length-pending p) (
      rw (read-write chip state_offset (pending_to_bytes p) done)
        (pending_from_bytes-pending_to_bytes p h k))

  -- One entry written: the selector reads as before but for that entry.
  pub read_otadata-write :
      (i : ℕ) (e : SelectEntry) (chip : Chip)
      → i < 2
      → 0 < SelectEntry.seq e
      → SelectEntry.seq e < 0xffff_ffff
      → (write chip (otadata_offset + i * sector) (entry_to_bytes e)).1 ≡ true
      → read_otadata flash (write chip (otadata_offset + i * sector) (entry_to_bytes e)).0
        ≡ put (read_otadata flash chip) i (some e)
  unfolding read_otadata read_entry
  read_otadata-write zero e chip h h0 k done =
      ap₂ (λ a b. (a, b))
        (rw (← length-entry e) (
          rw (read-write chip otadata_offset (entry_to_bytes e) done)
            (entry_from_bytes-entry_to_bytes e h0 k)))
        (ap (λ b. b >>= entry_from_bytes)
          (read-write_apart chip otadata_offset (entry_to_bytes e) (otadata_offset + sector)
            entry_len done (inl (omega (arith, length-entry e)))))
  read_otadata-write (suc zero) e chip h h0 k done =
      ap₂ (λ a b. (a, b))
        (ap (λ b. b >>= entry_from_bytes)
          (read-write_apart chip (otadata_offset + sector) (entry_to_bytes e) otadata_offset
            entry_len done (inr (omega arith))))
        (rw (← length-entry e) (
          rw (read-write chip (otadata_offset + sector) (entry_to_bytes e) done)
            (entry_from_bytes-entry_to_bytes e h0 k)))
  read_otadata-write (suc (suc i)) e chip h h0 k done = absurd (omega arith)

  -- An entry's write leaves the bookkeeping alone.
  pub load_pending-write :
      (i : ℕ) (e : SelectEntry) (chip : Chip)
      → (write chip (otadata_offset + i * sector) (entry_to_bytes e)).1 ≡ true
      → load_pending flash (write chip (otadata_offset + i * sector) (entry_to_bytes e)).0
        ≡ load_pending flash chip
  unfolding load_pending
  load_pending-write i e chip done = rw (
      read-write_apart chip (otadata_offset + i * sector) (entry_to_bytes e) state_offset state_len
        done (inr (omega arith)))
