-- ===== src/Ota/Flashing.antt =====
-- The selector and the pending record in flash: `read_otadata`, `activate`, `roll_back`, `load_pending`,
-- `store_pending` and `clear_pending` (src/ota.rs), with `ota_begin_attempt` and `ota_confirm` (src/main.rs).
use rs_smarthome_nodes.Base.{
  ℕ, ◌+◌, ◌*◌, Bool, true, false, not, Option, none, some, replicate, ◌==◌, if◌then◌else◌, ◌>>=◌,
}
use rs_smarthome_nodes.Base.Bytes.{Bytes}
use rs_smarthome_nodes.Flash.{Storage}
use rs_smarthome_nodes.Ota.{
  SelectEntry, undefined, Entries, Active, active, target_slot, target_entry, next_seq, Pending,
  pending_to_bytes, pending_from_bytes, entry_to_bytes, entry_from_bytes, entry_len, state_len,
  state_offset, otadata_offset, sector, max_attempts, Verdict, nothing, trying, roll_back_now,
  on_attempt,
}

unfoldable pub pending_block : Option Pending → Bytes
pending_block (some p) = pending_to_bytes p
pending_block none = replicate state_len 0

-- Whether the image is on trial, or the reset behind a rollback.
pub data Begun : Type 0 where
  going_on : Bool → Begun
  software_reset : Begun

module _ (flash : Storage) where
  open flash use {Chip, read, write}

  unfoldable pub read_entry : Chip → ℕ → Option SelectEntry
  read_entry chip i = do b ← read chip (otadata_offset + i * sector) entry_len; entry_from_bytes b

  unfoldable pub read_otadata : Chip → Entries
  read_otadata chip = (read_entry chip 0, read_entry chip 1)

  unfoldable pub load_pending : Chip → Option Pending
  load_pending chip = do b ← read chip state_offset state_len; pending_from_bytes b

  unfoldable pub store_pending : Option Pending → Chip → Chip × Bool
  store_pending pending chip = write chip state_offset (pending_block pending)

  unfoldable pub clear_pending : Chip → Chip × Bool
  clear_pending chip = store_pending none chip

  unfoldable pub write_entry : Active → ℕ → Chip → Chip × Bool
  write_entry current seq chip =
      write chip (otadata_offset + target_entry current * sector)
        (entry_to_bytes record { seq = seq; state = undefined })

  -- `none` stands for the errors.
  unfoldable pub activate : Active → ℕ → Chip → Chip × Option ℕ
  activate current slot chip =
      let seq = next_seq current in
      let noted = store_pending (some record { seq = seq; attempts = 0 }) chip in
      let written = write_entry current seq (noted.0) in
      if not (slot == target_slot current)
      then (chip, none)
      else if not (noted.1)
      then (noted.0, none)
      else if not (written.1)
      then (written.0, none)
      else (written.0, some seq)

  unfoldable pub roll_back : Active → Chip → Chip × Option ℕ
  roll_back current chip =
      let seq = next_seq current in
      let written = write_entry current seq chip in
      let cleared = clear_pending (written.0) in
      if not (written.1)
      then (written.0, none)
      else if not (cleared.1)
      then (cleared.0, none)
      else (cleared.0, some seq)

  unfoldable pub begin_with : Active → Verdict → Chip → Chip × Begun
  begin_with active_now nothing chip = (chip, going_on false)
  begin_with active_now (trying attempts) chip = (
    (store_pending (some record { seq = Active.seq active_now; attempts = attempts }) chip).0,
    going_on true,
  )
  begin_with active_now roll_back_now chip = ((roll_back active_now chip).0, software_reset)

  -- An error of a write is only logged.
  unfoldable pub ota_begin_attempt : Chip → Chip × Begun
  unfolding begin_with
  ota_begin_attempt chip =
      let now = active (read_otadata chip) in
      begin_with now (on_attempt (load_pending chip) (Active.seq now) max_attempts) chip

  unfoldable pub ota_confirm : Chip → Chip
  ota_confirm chip = (clear_pending chip).0
