-- ===== src/Ota/Tests.antt =====
-- The update's theorems on an erased chip.
use rs_smarthome_nodes.Base.Words.{u32_mod}
use rs_smarthome_nodes.Crc.{entry_crc, crc32_loop, crc32_bits, crc32_bit}
use rs_smarthome_nodes.Base.{true, sym, subst, ◌+◌, ◌<◌, ◌≡◌, refl, none, some, [], ◌∷◌, arith}
use rs_smarthome_nodes.Flash.Memory.{memory, blank, read_cells}
use rs_smarthome_nodes.Ota.Attempts.{attempts, all-AreWritten, attempts-activate}
use rs_smarthome_nodes.Ota.Flashing.{
  going_on, software_reset, read_entry, read_otadata, load_pending, store_pending, write_entry,
  activate,
}
use rs_smarthome_nodes.Ota.Slots.{AreInUse}
use rs_smarthome_nodes.Ota.Trial.{fresh, activate_switches, activate_interrupted}
use rs_smarthome_nodes.Ota.{
  SelectEntry, valid, active, Active, Entries, next_seq, slot_for_seq, entry_from_bytes, Pending,
  on_attempt, max_attempts, nothing,
}

abbrev seventh : SelectEntry
seventh = record { seq = 7; state = valid }

abbrev twice : Pending
twice = record { seq = 8; attempts = 2 }

abbrev entries : Entries
entries = (some seventh, none)

pub erased : read_otadata memory blank ≡ (none, none)
unfolding read_otadata read_entry entry_from_bytes read_cells entry_crc crc32_loop crc32_bits
    crc32_bit
erased = refl

pub erased-AreInUse : AreInUse (read_otadata memory blank)
erased-AreInUse = subst AreInUse (sym erased) (tt, tt)

-- The first update of a board goes to the second slot.
activated : (activate memory (active (read_otadata memory blank)) 1 blank).1 ≡ some 2
unfolding activate store_pending write_entry next_seq slot_for_seq active
activated = rw erased refl

activate_switches_example :
    let after = (activate memory (active (read_otadata memory blank)) 1 blank).0 in
    (Active.slot (active (read_otadata memory after)) ≡ 1)
    × ((Active.seq (active (read_otadata memory after)) ≡ 2)
        × (load_pending memory after ≡ some (fresh 2)))
activate_switches_example = activate_switches memory 1 2 blank erased-AreInUse activated

activate_interrupted_example :
    let a = active (read_otadata memory blank) in
    let after = (store_pending memory (some (fresh (next_seq a))) blank).0 in
    (active (read_otadata memory after) ≡ a)
    × (on_attempt
          (load_pending memory after)
          (Active.seq (active (read_otadata memory after)))
          max_attempts
        ≡ nothing)
unfolding store_pending
activate_interrupted_example = activate_interrupted memory blank erased-AreInUse refl

room : Active.seq (active (read_otadata memory blank)) + 5 < u32_mod
unfolding active
room = rw erased (omega arith)

attempts-activate_example :
    let after = (activate memory (active (read_otadata memory blank)) 1 blank).0 in
    ((attempts memory 4 after).1
      ≡ going_on true ∷ going_on true ∷ going_on true ∷ software_reset ∷ [])
    × (Active.slot (active (read_otadata memory (attempts memory 4 after).0))
        ≡ Active.slot (active (read_otadata memory blank)))
attempts-activate_example =
    attempts-activate memory 1 2 blank erased-AreInUse room activated
      (all-AreWritten memory (λ c at b. refl) 4 _)
