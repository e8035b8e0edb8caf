-- ===== src/Ota/Update/Harmless.antt =====
-- What an update leaves alone: `run_update` (src/main.rs).
use rs_smarthome_nodes.Base.{
  ℕ, ◌+◌, ◌*◌, ◌≤◌, ◌<◌, ◌≡◌, ◌≢◌, inl, inr, refl, ap, ◌∙◌, Option, none, some, length, ◌==◌,
  ==_iff, Bool-cases, arith,
}
use rs_smarthome_nodes.Base.Bytes.{Bytes}
use rs_smarthome_nodes.Base.Result.{Result, ok, err}
use rs_smarthome_nodes.Flash.{Storage}
use rs_smarthome_nodes.Http.Connection.{Connection}
use rs_smarthome_nodes.Http.Fetch.{FetchError, fetch}
use rs_smarthome_nodes.Http.Sinks.{fetch-keeps}
use rs_smarthome_nodes.Ota.{
  Active, Pending, Entries, SelectEntry, slot_for_seq, active_of, winner, active, target_slot,
  target_entry, next_seq, sector, otadata_offset, state_offset, entry_len, pending_to_bytes,
  undefined,
}
use rs_smarthome_nodes.Ota.Blocks.{length-entry, length-pending}
use rs_smarthome_nodes.Ota.Flashing.{
  read_otadata, read_entry, activate, store_pending, write_entry, pending_block,
}
use rs_smarthome_nodes.Ota.Update.{
  UpdateError, not_activated, Start, start, write_chunk, seq_of, switched, finished, downloaded,
  carried_out, run_update, scratch_len,
}
use rs_smarthome_nodes.Ota.Update.Started.{start_ok}
use rs_smarthome_nodes.Ota.Writer.{Writer, WriterError, writer_finish, slot_offset, slot_size}
use rs_smarthome_nodes.Ota.Writer.Confined.{
  IsBeside, Untouched, Confined, writer_new-Confined, writer_write-Confined, finish-Confined,
}

pub slot_offset-le : (slot : ℕ) → 0x1_0000 ≤ slot_offset slot
unfolding slot_offset
slot_offset-le slot = ground arith

slot_for_seq-lt : (seq : ℕ) → slot_for_seq seq < 2
unfolding slot_for_seq
slot_for_seq-lt seq = omega arith

active_of-lt : (w : Option (ℕ × SelectEntry)) → Active.slot (active_of w) < 2
active_of-lt (some (i, e)) = slot_for_seq-lt (SelectEntry.seq e)
active_of-lt none = omega arith

active-lt : (es : Entries) → Active.slot (active es) < 2
unfolding active
active-lt es = active_of-lt (winner es)

-- The running slot stands beside the other.
running-IsBeside :
    (es : Entries) (from n : ℕ)
    → slot_offset (Active.slot (active es)) ≤ from
    → from + n ≤ slot_offset (Active.slot (active es)) + slot_size
    → IsBeside (target_slot (active es)) from n
unfolding slot_offset slot_size
running-IsBeside es from n lo hi = elim (Bool-cases (Active.slot (active es) == 0)) [
  | inl first ↦
      let low : Active.slot (active es) ≡ 0 = (==_iff _ 0).0 first in rw low (inl (rw first at hi))
  | inr second ↦
      let high : Active.slot (active es) ≡ 1 = ground (arith, second, active-lt es) in
      rw high (inr (rw second at lo))
]

module _ (flash : Storage) where
  open flash use {Chip, read, write, read-write_sectors}

  store_pending-above :
      (p : Pending) (chip : Chip) (from n : ℕ)
      → 0x1_0000 ≤ from
      → read (store_pending flash (some p) chip).0 from n ≡ read chip from n
  unfolding store_pending pending_block
  store_pending-above p chip from n h =
      read-write_sectors chip state_offset (pending_to_bytes p) from n
        (inl (omega (arith, length-pending p)))

  write_entry-above :
      (a : Active) (seq : ℕ) (chip : Chip) (from n : ℕ)
      → 0x1_0000 ≤ from
      → read (write_entry flash a seq chip).0 from n ≡ read chip from n
  unfolding write_entry
  write_entry-above a seq chip from n h =
      read-write_sectors chip (otadata_offset + target_entry a * sector) _ from n
        (inl (omega (arith, length-entry (record { seq = seq; state = undefined }))))

  -- Switching the selector leaves both slots.
  pub activate-above :
      (a : Active) (slot : ℕ) (chip : Chip) (from n : ℕ)
      → 0x1_0000 ≤ from
      → read (activate flash a slot chip).0 from n ≡ read chip from n
  unfolding activate
  activate-above a slot chip from n h =
      let p : Pending = record { seq = next_seq a; attempts = 0 } in
      let noted = store_pending flash (some p) chip in
      let one = store_pending-above p chip from n h in
      let two = write_entry-above a (next_seq a) noted.0 from n h ∙ one in
      elim (Bool-cases (slot == target_slot a)) [
        | inr other ↦ rw other refl
        | inl same ↦ elim (Bool-cases noted.1) [
          | inr failed ↦ rw (same, failed) one
          | inl good ↦ elim (Bool-cases (write_entry flash a (next_seq a) noted.0).1) [
            | inr torn ↦ rw (same, good, torn) two
            | inl done ↦ rw (same, good, done) two
          ]
        ]
      ]

  -- The selector and the pending record stand below the slots.
  pub read_otadata-Untouched :
      (slot : ℕ) (start chip : Chip)
      → Untouched flash slot start chip
      → read_otadata flash chip ≡ read_otadata flash start
  unfolding read_otadata read_entry
  read_otadata-Untouched slot start chip u =
      rw
        (
          u otadata_offset entry_len (inl (omega (arith, slot_offset-le slot))),
          u (otadata_offset + sector) entry_len (inl (omega (arith, slot_offset-le slot))),
        )
        refl

  write_chunk-Confined :
      (slot : ℕ) (start : Chip) (w : Writer Chip) (b : Bytes)
      → length b ≤ 0x8000_0000
      → Confined flash slot start 0 w
      → Confined flash slot start 0 (write_chunk flash w b).0
  unfolding write_chunk
  write_chunk-Confined = writer_write-Confined flash

  seq_of_err :
      (r : Chip × Option ℕ) (e : UpdateError) → (seq_of flash r).1 ≡ err e → e ≡ not_activated
  seq_of_err (chip, some seq) e h = absurd (cc)
  seq_of_err (chip, none) e h = cc

  seq_of-chip : (r : Chip × Option ℕ) → (seq_of flash r).0 ≡ r.0
  seq_of-chip (chip, some seq) = refl
  seq_of-chip (chip, none) = refl

  switched-Untouched :
      (slot : ℕ) (start : Chip) (current : Active) (r : Chip × Result WriterError ℕ)
      (e : UpdateError)
      → Untouched flash slot start r.0
      → (switched flash current r).1 ≡ err e
      → e ≢ not_activated
      → Untouched flash slot start (switched flash current r).0
  unfolding switched
  switched-Untouched slot start current (chip, err x) e u h fresh = u
  switched-Untouched slot start current (chip, ok s) e u h fresh =
      absurd (fresh (seq_of_err (activate flash current s chip) e h))

  finished-Untouched :
      (slot : ℕ) (start : Chip) (current : Active) (digest : Bytes) (w : Writer Chip)
      (r : Result FetchError ℕ) (e : UpdateError)
      → Confined flash slot start 0 w
      → (finished flash current digest w r).1 ≡ err e
      → e ≢ not_activated
      → Untouched flash slot start (finished flash current digest w r).0
  unfolding finished
  finished-Untouched slot start current digest w (err x) e c h fresh = c.untouched
  finished-Untouched slot start current digest w (ok n) e c h fresh =
      switched-Untouched slot start current (writer_finish flash w digest) e
        (finish-Confined flash slot start w digest c) h fresh

  -- So it is for the blocks above the selector, whatever the outcome.
  abbrev AboveUntouched : ℕ → Chip → Chip → Type 0
  AboveUntouched slot start chip =
      (from n : ℕ) → 0x1_0000 ≤ from → IsBeside slot from n → read chip from n ≡ read start from n

  switched-AboveUntouched :
      (slot : ℕ) (start : Chip) (current : Active) (r : Chip × Result WriterError ℕ)
      → Untouched flash slot start r.0
      → AboveUntouched slot start (switched flash current r).0
  unfolding switched
  switched-AboveUntouched slot start current (chip, err x) u from n above beside = u from n beside
  switched-AboveUntouched slot start current (chip, ok s) u from n above beside =
      ap (λ c. read c from n) (seq_of-chip (activate flash current s chip))
      ∙ activate-above current s chip from n above
      ∙ u from n beside

  finished-AboveUntouched :
      (slot : ℕ) (start : Chip) (current : Active) (digest : Bytes) (w : Writer Chip)
      (r : Result FetchError ℕ)
      → Confined flash slot start 0 w
      → AboveUntouched slot start (finished flash current digest w r).0
  unfolding finished
  finished-AboveUntouched slot start current digest w (err x) c from n above beside =
      c.untouched from n beside
  finished-AboveUntouched slot start current digest w (ok total) c from n above beside =
      switched-AboveUntouched slot start current (writer_finish flash w digest)
        (finish-Confined flash slot start w digest c) from n above beside

  module _ (conn : Connection) where
    open conn use {Stream}

    pub fetched-Confined :
        (budget slot : ℕ) (begin : Chip) (st : Start flash) (s : Stream)
        → Confined flash slot begin 0 st.writer
        → Confined flash slot begin 0
            (fetch conn (write_chunk flash) st.url 0 scratch_len budget s st.writer).1
    fetched-Confined budget slot begin st s c =
        fetch-keeps conn (write_chunk flash) scratch_len (Confined flash slot begin 0)
          (λ w b short. write_chunk-Confined slot begin w b (omega arith)) st.url 0 budget s
          st.writer c

    downloaded-Untouched :
        (budget slot : ℕ) (begin : Chip) (st : Start flash) (o : Option Stream) (e : UpdateError)
        → Confined flash slot begin 0 st.writer
        → (downloaded flash conn budget st o).1 ≡ err e
        → e ≢ not_activated
        → Untouched flash slot begin (downloaded flash conn budget st o).0
    unfolding downloaded
    downloaded-Untouched budget slot begin st none e c h fresh = c.untouched
    downloaded-Untouched budget slot begin st (some s) e c h fresh =
        finished-Untouched slot begin st.current st.offer.sha256 _ _ e
          (fetched-Confined budget slot begin st s c) h fresh

    downloaded-AboveUntouched :
        (budget slot : ℕ) (begin : Chip) (st : Start flash) (o : Option Stream)
        → Confined flash slot begin 0 st.writer
        → AboveUntouched slot begin (downloaded flash conn budget st o).0
    unfolding downloaded
    downloaded-AboveUntouched budget slot begin st none c from n above beside =
        c.untouched from n beside
    downloaded-AboveUntouched budget slot begin st (some s) c from n above beside =
        finished-AboveUntouched slot begin st.current st.offer.sha256 _ _
          (fetched-Confined budget slot begin st s c) from n above beside

    started-Confined :
        (current_version node_id staging offer_json : Bytes) (chip : Chip) (st : Start flash)
        → start flash current_version node_id staging offer_json chip ≡ ok st
        → Confined flash (target_slot (active (read_otadata flash chip))) chip 0 st.writer
    started-Confined current_version node_id staging offer_json chip st e =
        writer_new-Confined flash _ st.offer.size staging chip st.writer
          (start_ok flash current_version node_id staging offer_json chip {st = st} e).2

    carried_out-Untouched :
        (budget slot : ℕ) (connect : Bytes → ℕ → Option Stream) (chip : Chip)
        (r : Result UpdateError (Start flash)) (e : UpdateError)
        → ((st : Start flash) → r ≡ ok st → Confined flash slot chip 0 st.writer)
        → (carried_out flash conn budget connect chip r).1 ≡ err e
        → e ≢ not_activated
        → Untouched flash slot chip (carried_out flash conn budget connect chip r).0
    carried_out-Untouched budget slot connect chip (err x) e c h fresh = λ from n beside. refl
    carried_out-Untouched budget slot connect chip (ok st) e c h fresh =
        downloaded-Untouched budget slot chip st _ e (c st refl) h fresh

    carried_out-AboveUntouched :
        (budget slot : ℕ) (connect : Bytes → ℕ → Option Stream) (chip : Chip)
        (r : Result UpdateError (Start flash))
        → ((st : Start flash) → r ≡ ok st → Confined flash slot chip 0 st.writer)
        → AboveUntouched slot chip (carried_out flash conn budget connect chip r).0
    carried_out-AboveUntouched budget slot connect chip (err x) c = λ from n above beside. refl
    carried_out-AboveUntouched budget slot connect chip (ok st) c =
        downloaded-AboveUntouched budget slot chip st _ (c st refl)

    -- An update that fails, in any way but in the switch at its end, leaves every block of the flash that is
    -- not in the slot that does not run as it was: the selector, the pending record, the running image and
    -- the settings. This holds whatever the server sends, also where writes of the flash fail.
    pub run_update-Untouched :
        (budget : ℕ) (connect : Bytes → ℕ → Option Stream)
        (current_version node_id staging offer_json : Bytes) (chip : Chip) (e : UpdateError)
        → (run_update flash conn budget connect current_version node_id staging offer_json chip).1
          ≡ err e
        → e ≢ not_activated
        → Untouched flash
            (target_slot (active (read_otadata flash chip)))
            chip
            (run_update flash conn budget connect current_version node_id staging offer_json chip).0
    unfolding run_update
    run_update-Untouched budget connect current_version node_id staging offer_json chip e =
        carried_out-Untouched budget _ connect chip _ e
          (started-Confined current_version node_id staging offer_json chip)

    -- Whatever the outcome of an update, every block in the slot that was running reads as before.
    pub run_update-running :
        (budget : ℕ) (connect : Bytes → ℕ → Option Stream)
        (current_version node_id staging offer_json : Bytes) (chip : Chip) (from n : ℕ)
        → slot_offset (Active.slot (active (read_otadata flash chip))) ≤ from
        → from + n ≤ slot_offset (Active.slot (active (read_otadata flash chip))) + slot_size
        → read
            (run_update flash conn budget connect current_version node_id staging offer_json chip).0
            from
            n
          ≡ read chip from n
    unfolding run_update
    run_update-running budget connect current_version node_id staging offer_json chip from n lo hi =
        carried_out-AboveUntouched budget _ connect chip _
          (started-Confined current_version node_id staging offer_json chip) from n
          (omega (arith, slot_offset-le (Active.slot (active (read_otadata flash chip))), lo))
          (running-IsBeside (read_otadata flash chip) from n lo hi)
