-- ===== src/Ota/Entries.antt =====
-- What an entry of the selector and the pending record say survives their bytes.
use rs_smarthome_nodes.Base.{ℕ, ◌<◌, ◌≡◌, refl, false, some, eq_self, ◌==◌, arith}
use rs_smarthome_nodes.Base.Bytes.{from_le_lem}
use rs_smarthome_nodes.Base.Words.{u32_mod}
use rs_smarthome_nodes.Crc.Bounds.{crc32-lt, entry_crc-lt}
use rs_smarthome_nodes.Crc.{crc32, entry_crc}
use rs_smarthome_nodes.Ota.{
  SelectEntry, ImageState, new, pending_verify, valid, invalid, aborted, undefined, state_to_u32,
  state_from_u32, entry_to_bytes, entry_from_bytes, Pending, pending_to_bytes, pending_from_bytes,
}

state-lt : (s : ImageState) → state_to_u32 s < u32_mod
state-lt new = omega arith
state-lt pending_verify = omega arith
state-lt valid = omega arith
state-lt invalid = omega arith
state-lt aborted = omega arith
state-lt undefined = omega arith

state_back : (s : ImageState) → state_from_u32 (state_to_u32 s) ≡ s
state_back new = refl
state_back pending_verify = refl
state_back valid = refl
state_back invalid = refl
state_back aborted = refl
state_back undefined = refl

seq_tests : (n : ℕ) → 0 < n → n < 0xffff_ffff → ((n == 0) ≡ false) × ((n == 0xffff_ffff) ≡ false)
seq_tests n h k = ground arith

-- An entry with a sequence number other than 0 and 2 ^ 32 - 1, in whatever state, is read back from
-- its 32 bytes.
pub entry_from_bytes-entry_to_bytes :
    (e : SelectEntry)
    → 0 < SelectEntry.seq e
    → SelectEntry.seq e < 0xffff_ffff
    → entry_from_bytes (entry_to_bytes e) ≡ some e
unfolding entry_from_bytes entry_to_bytes
entry_from_bytes-entry_to_bytes e h k =
    let tests = seq_tests (SelectEntry.seq e) h k in
    simp (
      from_le_lem (SelectEntry.seq e) (omega arith),
      from_le_lem (state_to_u32 (SelectEntry.state e)) (state-lt (SelectEntry.state e)),
      from_le_lem (entry_crc (SelectEntry.seq e)) (entry_crc-lt (SelectEntry.seq e)),
      tests.0,
      tests.1,
      eq_self,
      state_back (SelectEntry.state e),
    )

-- The pending record, with its sequence number and its count of attempts, is read back from its 16 bytes.
pub pending_from_bytes-pending_to_bytes :
    (p : Pending)
    → Pending.seq p < u32_mod
    → Pending.attempts p < 256
    → pending_from_bytes (pending_to_bytes p) ≡ some p
unfolding pending_from_bytes pending_to_bytes
pending_from_bytes-pending_to_bytes p h k =
    simp (from_le_lem (Pending.seq p) h, from_le_lem (crc32 _) (crc32-lt _), eq_self)
