-- ===== src/Ota/Slots.antt =====
-- Which slot the boot loader runs after an entry of the selector was written.
use rs_smarthome_nodes.Base.{
  Bool-cases, ℕ, zero, suc, ◌+◌, ◌≤◌, ◌<◌, ◌≡◌, refl, true, false, Option, none, some, leb, arith,
}
use rs_smarthome_nodes.Base.Words.{u32_mod}
use rs_smarthome_nodes.Ota.{
  SelectEntry, ImageState, Entries, Active, active, slot_for_seq, target_slot, target_entry,
  next_seq,
}

-- The selector with one of its two entries replaced.
abbrev pub put : Entries → ℕ → Option SelectEntry → Entries
put (a, b) zero e = (e, b)
put (a, b) (suc i) e = (a, e)

-- Sequence numbers that leave room for the next two.
abbrev pub InUse : Option SelectEntry → Type 0
InUse none = Unit
InUse (some e) = (0 < SelectEntry.seq e) × (SelectEntry.seq e + 3 < u32_mod)

abbrev pub AreInUse : Entries → Type 0
AreInUse (a, b) = InUse a × InUse b

slot_for_seq-lt : (n : ℕ) → slot_for_seq n < 2
unfolding slot_for_seq
slot_for_seq-lt n = omega arith

-- What is true of the active choice, whichever entry won.
abbrev pub IsSound : Active → Type 0
IsSound a = (Active.slot a < 2) × ((Active.entry_index a < 2) × (Active.seq a + 3 < u32_mod))

pub active-IsSound : (es : Entries) → AreInUse es → IsSound (active es)
unfolding active
active-IsSound (none, none) h = (omega arith, (omega arith, omega arith))
active-IsSound (some a, none) h = (slot_for_seq-lt _, (omega arith, h.0.1))
active-IsSound (none, some b) h = (slot_for_seq-lt _, (omega arith, h.1.1))
active-IsSound (some a, some b) h =
    ground (arith, slot_for_seq-lt (SelectEntry.seq a), slot_for_seq-lt (SelectEntry.seq b))

next_seq_names : (a : Active) → IsSound a → slot_for_seq (next_seq a) ≡ target_slot a
unfolding next_seq slot_for_seq
next_seq_names a h = ground arith

pub next_seq_bounds :
    (a : Active) → IsSound a → (Active.seq a < next_seq a) × (next_seq a ≤ Active.seq a + 2)
unfolding next_seq
next_seq_bounds a h = ground arith

leb_below : (m n : ℕ) → n < m → leb m n ≡ false
leb_below m n h = ground arith

leb_above : (m n : ℕ) → m < n → leb m n ≡ true
leb_above m n h = ground arith

-- An entry above the current one, written in the other place, wins.
chosen : (i : ℕ) → SelectEntry → Active
chosen i e = record {
  slot = slot_for_seq (SelectEntry.seq e);
  seq = SelectEntry.seq e;
  entry_index = i;
  selected = true;
}

put_wins :
    (es : Entries) (e : SelectEntry)
    → Active.seq (active es) < SelectEntry.seq e
    → active (put es (target_entry (active es)) (some e)) ≡ chosen (target_entry (active es)) e
unfolding active chosen
put_wins (none, none) e h = refl
put_wins (some a, none) e h = rw (leb_below (SelectEntry.seq e) (SelectEntry.seq a) h)
put_wins (none, some b) e h = rw (leb_above (SelectEntry.seq b) (SelectEntry.seq e) h)
put_wins (some a, some b) e h = ground (
  arith,
  Bool-cases (leb (SelectEntry.seq b) (SelectEntry.seq a)),
  leb_below (SelectEntry.seq e) (SelectEntry.seq a),
  leb_above (SelectEntry.seq b) (SelectEntry.seq e),
)

-- The entry an update writes, with the next sequence number and any state, wins: the other slot runs from
-- then on, and the number grew by one or two. Where the entries' sequence numbers are above 0 and leave
-- room for the next.
pub active-put_next :
    (es : Entries) (state : ImageState)
    → AreInUse es
    → let a = active es in
      let n = active (put es (target_entry a) (some record { seq = next_seq a; state = state })) in
      (Active.slot n ≡ target_slot a)
      × ((Active.seq n ≡ next_seq a)
          × ((Active.seq a < Active.seq n) × (Active.seq n ≤ Active.seq a + 2)))
unfolding chosen
active-put_next es state h =
    let sound = active-IsSound es h in
    let bounds = next_seq_bounds (active es) sound in
    rw (put_wins es record { seq = next_seq (active es); state = state } bounds.0)
      (next_seq_names (active es) sound, (refl, bounds))

-- An entry of which the write was torn, so that it is refused, leaves the slot that was running and its
-- sequence number.
pub active-put_torn :
    (es : Entries)
    → let a = active es in
      let n = active (put es (target_entry a) none) in
      (Active.slot n ≡ Active.slot a) × (Active.seq n ≡ Active.seq a)
unfolding active
active-put_torn (none, none) = (refl, refl)
active-put_torn (some a, none) = (refl, refl)
active-put_torn (none, some b) = (refl, refl)
active-put_torn (some a, some b) = ground arith
