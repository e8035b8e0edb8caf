-- ===== src/Ota.antt =====
-- The updates over the air: `SelectEntry`, `ImageState`, `active`, `Active`, `Pending` and
-- `on_attempt` (src/ota.rs), the part of the module that does not touch the flash.
pub mod Entries
pub mod Attempts
pub mod Blocks
pub mod Flashing
pub mod Offer
pub mod Slots
mod Tests
pub mod Trial
pub mod Update
pub mod Writer
use rs_smarthome_nodes.Base.{
  ℕ, ◌+◌, ◌-◌, ◌%◌, min, Bool, true, false, not, ◌||◌, Option, none, some, copy_at, replicate, set,
  take, length, ltb, leb, ◌==◌, if◌then◌else◌,
}
use rs_smarthome_nodes.Base.Bytes.{Bytes, le_bytes, le_at, byte_at}
use rs_smarthome_nodes.Base.Words.{u32_mod}
use rs_smarthome_nodes.Crc.{crc32, entry_crc}

abbrev pub sector : ℕ
sector = 0x1000

abbrev pub otadata_offset : ℕ
otadata_offset = 0xd000

abbrev pub state_offset : ℕ
state_offset = 0xc000

abbrev pub max_attempts : ℕ
max_attempts = 3

pub data ImageState : Type 0 where
  new : ImageState
  pending_verify : ImageState
  valid : ImageState
  invalid : ImageState
  aborted : ImageState
  undefined : ImageState

pub record SelectEntry : Type 0 where
  pub seq : ℕ
  pub state : ImageState

abbrev pub state_to_u32 : ImageState → ℕ
state_to_u32 new = 0
state_to_u32 pending_verify = 1
state_to_u32 valid = 2
state_to_u32 invalid = 3
state_to_u32 aborted = 4
state_to_u32 undefined = 0xffff_ffff

abbrev pub state_from_u32 : ℕ → ImageState
state_from_u32 v =
    if v == 0
    then new
    else if v == 1
    then pending_verify
    else if v == 2
    then valid
    else if v == 3
    then invalid
    else if v == 4
    then aborted
    else undefined

abbrev pub entry_len : ℕ
entry_len = 32

unfoldable pub entry_to_bytes : SelectEntry → Bytes
entry_to_bytes e =
    let b = replicate entry_len 0 in
    let b = copy_at b 0 (le_bytes (SelectEntry.seq e)) in
    let b = copy_at b 24 (le_bytes (state_to_u32 (SelectEntry.state e))) in
    copy_at b 28 (le_bytes (entry_crc (SelectEntry.seq e)))

unfoldable pub entry_from_bytes : Bytes → Option SelectEntry
entry_from_bytes b =
    let seq = le_at b 0 in
    let crc = le_at b 28 in
    if ltb (length b) entry_len
    then none
    else if seq == 0 || seq == 0xffff_ffff || not (crc == entry_crc seq)
    then none
    else some record { seq = seq; state = state_from_u32 (le_at b 24) }

pub record Active : Type 0 where
  pub slot : ℕ
  pub seq : ℕ
  pub entry_index : ℕ
  pub selected : Bool

-- `seq - 1` wraps on `u32`.
unfoldable pub slot_for_seq : ℕ → ℕ
slot_for_seq seq = (seq + u32_mod - 1) % u32_mod % 2

abbrev pub Entries : Type 0
Entries = Option SelectEntry × Option SelectEntry

abbrev pub winner : Entries → Option (ℕ × SelectEntry)
winner (some a, some b) =
    if leb (SelectEntry.seq b) (SelectEntry.seq a) then some (0, a) else some (1, b)
winner (some a, none) = some (0, a)
winner (none, some b) = some (1, b)
winner (none, none) = none

abbrev pub active_of : Option (ℕ × SelectEntry) → Active
active_of (some (i, e)) = record {
  slot = slot_for_seq (SelectEntry.seq e);
  seq = SelectEntry.seq e;
  entry_index = i;
  selected = true;
}
active_of none = record { slot = 0; seq = 0; entry_index = 1; selected = false }

unfoldable pub active : Entries → Active
active entries = active_of (winner entries)

abbrev pub target_slot : Active → ℕ
target_slot a = 1 - Active.slot a

abbrev pub target_entry : Active → ℕ
target_entry a = 1 - Active.entry_index a

-- `+ 1` wraps on `u32`.
unfoldable pub next_seq : Active → ℕ
next_seq a =
    let seq = (Active.seq a + 1) % u32_mod in
    if slot_for_seq seq == target_slot a then seq else (seq + 1) % u32_mod

abbrev pub state_magic : ℕ
state_magic = 0x4154_4f53

abbrev pub state_version : ℕ
state_version = 1

abbrev pub state_len : ℕ
state_len = 16

pub record Pending : Type 0 where
  pub seq : ℕ
  pub attempts : ℕ

unfoldable pub pending_to_bytes : Pending → Bytes
pending_to_bytes p =
    let b = copy_at (replicate state_len 0) 0 (le_bytes state_magic) in
    let b = set b 4 state_version in
    let b = set b 5 (Pending.attempts p) in
    let b = copy_at b 8 (le_bytes (Pending.seq p)) in copy_at b 12 (le_bytes (crc32 (take 12 b)))

unfoldable pub pending_from_bytes : Bytes → Option Pending
pending_from_bytes b =
    if ltb (length b) state_len
    then none
    else if not (le_at b 0 == state_magic) || not (byte_at b 4 == state_version)
    then none
    else if not (le_at b 12 == crc32 (take 12 b))
    then none
    else some record { seq = le_at b 8; attempts = byte_at b 5 }

pub data Verdict : Type 0 where
  nothing : Verdict
  trying : ℕ → Verdict
  roll_back_now : Verdict

-- `saturating_add` on `u8`.
unfoldable pub on_attempt : Option Pending → ℕ → ℕ → Verdict
on_attempt (some p) running_seq limit =
    let attempts = min 255 (Pending.attempts p + 1) in
    if not (Pending.seq p == running_seq)
    then nothing
    else if ltb limit attempts
    then roll_back_now
    else trying attempts
on_attempt none running_seq limit = nothing
