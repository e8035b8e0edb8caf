-- ===== src/Ota/Trial.antt =====
-- An update's way through the flash: the switch, the attempts and the way back.
use rs_smarthome_nodes.Base.{ℕ, ◌<◌, ◌≡◌, refl, ap, sym, ◌∙◌, true, some, arith}
use rs_smarthome_nodes.Flash.{Storage}
use rs_smarthome_nodes.Ota.Blocks.{
  read_otadata-store_pending, load_pending-store_pending, read_otadata-write, load_pending-write,
}
use rs_smarthome_nodes.Ota.Flashing.{
  read_otadata, load_pending, store_pending, write_entry, activate,
}
use rs_smarthome_nodes.Ota.Slots.{put, AreInUse, active-IsSound, next_seq_bounds, active-put_next}
use rs_smarthome_nodes.Ota.{
  SelectEntry, undefined, Entries, Active, active, target_slot, target_entry, next_seq, Pending,
  on_attempt, nothing, max_attempts,
}

-- The record of an image that was never tried.
abbrev pub fresh : ℕ → Pending
fresh n = record { seq = n; attempts = 0 }

abbrev pub entry : ℕ → SelectEntry
entry n = record { seq = n; state = undefined }

on_attempt_stale :
    (p : Pending) (running : ℕ)
    → running < Pending.seq p
    → on_attempt (some p) running max_attempts ≡ nothing
unfolding on_attempt
on_attempt_stale p running h = ground arith

module _ (flash : Storage) where
  open flash use {Chip, write}

  -- What a successful activation did.
  activate-steps :
      (a : Active) (slot n : ℕ) (chip : Chip)
      → (activate flash a slot chip).1 ≡ some n
      → let noted = store_pending flash (some (fresh (next_seq a))) chip in
        let written = write_entry flash a (next_seq a) (noted.0) in
        (slot ≡ target_slot a)
        × ((n ≡ next_seq a)
            × ((noted.1 ≡ true)
                × ((written.1 ≡ true) × ((activate flash a slot chip).0 ≡ written.0))))
  unfolding activate
  activate-steps a slot n chip h = ground arith

  -- The selector behind the entry that an update or a rollback writes.
  pub write_entry-puts :
      (es : Entries) (chip : Chip)
      → AreInUse es
      → read_otadata flash chip ≡ es
      → (write_entry flash (active es) (next_seq (active es)) chip).1 ≡ true
      → read_otadata flash (write_entry flash (active es) (next_seq (active es)) chip).0
        ≡ put es (target_entry (active es)) (some (entry (next_seq (active es))))
  unfolding write_entry
  write_entry-puts es chip h e done =
      let a = active es in
      let sound = active-IsSound es h in
      let bounds = next_seq_bounds a sound in
      read_otadata-write flash (target_entry a) (entry (next_seq a)) chip (omega arith)
        (omega arith) (omega arith) done
      ∙ ap (λ t. put t (target_entry a) (some (entry (next_seq a)))) e

  load_pending-write_entry :
      (a : Active) (seq : ℕ) (chip : Chip)
      → (write_entry flash a seq chip).1 ≡ true
      → load_pending flash (write_entry flash a seq chip).0 ≡ load_pending flash chip
  unfolding write_entry
  load_pending-write_entry a seq chip done =
      load_pending-write flash (target_entry a) (entry seq) chip done

  pub activate-puts :
      (slot n : ℕ) (chip : Chip)
      → AreInUse (read_otadata flash chip)
      → (activate flash (active (read_otadata flash chip)) slot chip).1 ≡ some n
      → let es = read_otadata flash chip in
        (slot ≡ target_slot (active es))
        × (read_otadata flash (activate flash (active es) slot chip).0
            ≡ put es (target_entry (active es)) (some (entry (next_seq (active es)))))
  activate-puts slot n chip h ok =
      let es = read_otadata flash chip in
      let a = active es in
      let steps = activate-steps a slot n chip ok in
      let noted = store_pending flash (some (fresh (next_seq a))) chip in
      (
        steps.0,
        rw (steps.1.1.1.1) (
            write_entry-puts es (noted.0) h
              (read_otadata-store_pending flash (fresh (next_seq a)) chip (steps.1.1.0))
              (steps.1.1.1.0)),
      )

  -- After an activation that reported the sequence number `n`, the boot loader runs the slot that was
  -- written, by the entry `n`, and the pending record says that this image was not tried yet. Where the
  -- entries' sequence numbers are above 0 and leave room for the next.
  pub activate_switches :
      (slot n : ℕ) (chip : Chip)
      → AreInUse (read_otadata flash chip)
      → (activate flash (active (read_otadata flash chip)) slot chip).1 ≡ some n
      → let after = (activate flash (active (read_otadata flash chip)) slot chip).0 in
        (Active.slot (active (read_otadata flash after)) ≡ slot)
        × ((Active.seq (active (read_otadata flash after)) ≡ n)
            × (load_pending flash after ≡ some (fresh n)))
  activate_switches slot n chip h ok =
      let es = read_otadata flash chip in
      let a = active es in
      let steps = activate-steps a slot n chip ok in
      let noted = store_pending flash (some (fresh (next_seq a))) chip in
      let bounds = next_seq_bounds a (active-IsSound es h) in
      let won = active-put_next es undefined h in
      let read =
        write_entry-puts es (noted.0) h
          (read_otadata-store_pending flash (fresh (next_seq a)) chip (steps.1.1.0))
          (steps.1.1.1.0) in
      let loaded =
        load_pending-write_entry a (next_seq a) (noted.0) (steps.1.1.1.0)
        ∙ load_pending-store_pending flash (fresh (next_seq a)) chip
            (omega (arith, active-IsSound es h)) (omega arith) (steps.1.1.0) in
      rw (steps.1.1.1.1, read)
        (
          won.0 ∙ sym (steps.0),
          (won.1.0 ∙ sym (steps.1.0), loaded ∙ ap (λ m. some (fresh m)) (sym (steps.1.0))),
        )

  -- When the power fails behind a successful write of the pending record and before the selector's, the
  -- next boot runs what ran before, and the record counts for nothing. Where the entries' sequence
  -- numbers are above 0 and leave room for the next.
  pub activate_interrupted :
      (chip : Chip)
      → AreInUse (read_otadata flash chip)
      → (store_pending flash (some (fresh (next_seq (active (read_otadata flash chip))))) chip).1
        ≡ true
      → let a = active (read_otadata flash chip) in
        let after = (store_pending flash (some (fresh (next_seq a))) chip).0 in
        (active (read_otadata flash after) ≡ a)
        × (on_attempt
              (load_pending flash after)
              (Active.seq (active (read_otadata flash after)))
              max_attempts
            ≡ nothing)
  activate_interrupted chip h done =
      let a = active (read_otadata flash chip) in
      let p = fresh (next_seq a) in
      let bounds = next_seq_bounds a (active-IsSound (read_otadata flash chip) h) in
      let read = read_otadata-store_pending flash p chip done in
      let loaded =
        load_pending-store_pending flash p chip
          (omega (arith, active-IsSound (read_otadata flash chip) h)) (omega arith) done in
      rw (read, loaded) (refl, on_attempt_stale p (Active.seq a) (omega arith))
