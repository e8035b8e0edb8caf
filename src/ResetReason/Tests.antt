-- ===== src/ResetReason/Tests.antt =====
-- The boot log at concrete boots.
use rs_smarthome_nodes.Base.{ℕ, ◌+◌, ◌≡◌, refl, min, true, Option, none, some, List, [], ◌∷◌, arith}
use rs_smarthome_nodes.Flash.Memory.{Cells, memory, blank}
use rs_smarthome_nodes.ResetReason.BootLog.{note_boots, note_boots_count, hard_boots, count_of}
use rs_smarthome_nodes.ResetReason.{
  load_boot_log, max_recorded_boots, note_boot, store_record, record_boot,
}

store_record_ok : (chip : Cells) (r : Option (ℕ × ℕ)) → (store_record memory chip r).1 ≡ true
unfolding store_record
store_record_ok chip none = refl
store_record_ok chip (some (count, reason)) = refl

note_boots_ok : (chip : Cells) (codes : List ℕ) → (note_boots memory chip codes).1 ≡ true
unfolding note_boots note_boot
note_boots_ok chip [] = refl
note_boots_ok chip (code ∷ codes) =
    rw
      (
        store_record_ok chip (record_boot (load_boot_log memory chip) code),
        note_boots_ok (note_boot memory chip code).0 codes,
      )
      refl

note_boots_count_example :
    count_of (load_boot_log memory (note_boots memory blank (1 ∷ 5 ∷ 15 ∷ [])).0)
    ≡ min (count_of (load_boot_log memory blank) + hard_boots (1 ∷ 5 ∷ 15 ∷ [])) max_recorded_boots
note_boots_count_example =
    note_boots_count memory blank (1 ∷ 5 ∷ 15 ∷ []) (omega arith, (omega arith, (omega arith, tt)))
      (note_boots_ok blank (1 ∷ 5 ∷ 15 ∷ []))
