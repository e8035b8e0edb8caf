-- ===== src/Ota/Attempts.antt =====
-- How often an unconfirmed image is tried, and what follows.
use rs_smarthome_nodes.Base.{
  subst, ℕ, ◌+◌, ◌-◌, ◌≤◌, ◌<◌, ◌≡◌, refl, ap, sym, ◌∙◌, true, Option, some, List, [], ◌∷◌, arith,
  zero, suc,
}
use rs_smarthome_nodes.Base.Bytes.{Bytes}
use rs_smarthome_nodes.Base.Words.{u32_mod}
use rs_smarthome_nodes.Flash.{Storage}
use rs_smarthome_nodes.Ota.Blocks.{
  read_otadata-store_pending, read_otadata-clear_pending, load_pending-store_pending,
}
use rs_smarthome_nodes.Ota.Flashing.{
  Begun, going_on, software_reset, read_otadata, load_pending, store_pending, clear_pending,
  write_entry, activate, roll_back, begin_with, ota_begin_attempt,
}
use rs_smarthome_nodes.Ota.Slots.{
  put, InUse, AreInUse, active-IsSound, next_seq_bounds, active-put_next,
}
use rs_smarthome_nodes.Ota.Trial.{write_entry-puts, entry, activate_switches, activate-puts}
use rs_smarthome_nodes.Ota.{
  SelectEntry, undefined, Entries, Active, active, target_slot, target_entry, next_seq, Pending,
  on_attempt, Verdict, nothing, trying, roll_back_now, max_attempts,
}

abbrev tried : ℕ → ℕ → Pending
tried n k = record { seq = n; attempts = k }

on_attempt-tried : (n k : ℕ) → k < 3 → on_attempt (some (tried n k)) n max_attempts ≡ trying (k + 1)
unfolding on_attempt
on_attempt-tried n k h = ground arith

on_attempt-spent : (n k : ℕ) → 3 ≤ k → on_attempt (some (tried n k)) n max_attempts ≡ roll_back_now
unfolding on_attempt
on_attempt-spent n k h = ground arith

put-AreInUse :
    (es : Entries) (i : ℕ) (e : Option SelectEntry) → AreInUse es → InUse e → AreInUse (put es i e)
put-AreInUse (a, b) zero e h k = (k, h.1)
put-AreInUse (a, b) (suc i) e h k = (h.0, k)

module _ (flash : Storage) where
  open flash use {Chip, write}

  -- The attempts of so many rounds, none of which confirms the image.
  abbrev pub attempts : ℕ → Chip → Chip × List Begun
  attempts zero chip = (chip, [])
  attempts (suc k) chip =
      let now = ota_begin_attempt flash chip in
      let rest = attempts k (now.0) in (rest.0, now.1 ∷ rest.1)

  abbrev pub verdict_at : Chip → Verdict
  verdict_at chip =
      on_attempt (load_pending flash chip) (Active.seq (active (read_otadata flash chip)))
        max_attempts

  -- The writes of a round succeed: that of the attempt's number, or those of the rollback.
  abbrev pub IsWritten : Verdict → Chip → Type 0
  IsWritten nothing chip = Unit
  IsWritten (trying k) chip =
      (store_pending flash (some (tried (Active.seq (active (read_otadata flash chip))) k)) chip).1
      ≡ true
  IsWritten roll_back_now chip =
      let now = active (read_otadata flash chip) in
      let written = write_entry flash now (next_seq now) chip in
      (written.1 ≡ true) × ((clear_pending flash (written.0)).1 ≡ true)

  abbrev pub AreWritten : ℕ → Chip → Type 0
  AreWritten zero chip = Unit
  AreWritten (suc k) chip =
      IsWritten (verdict_at chip) chip × AreWritten k (ota_begin_attempt flash chip).0

  module _ (ok : (c : Chip) (at : ℕ) (b : Bytes) → (write c at b).1 ≡ true) where
    all-IsWritten : (v : Verdict) (chip : Chip) → IsWritten v chip
    unfolding store_pending clear_pending write_entry
    all-IsWritten nothing chip = tt
    all-IsWritten (trying k) chip = ok _ _ _
    all-IsWritten roll_back_now chip = (ok _ _ _, ok _ _ _)

    -- On a chip where every write succeeds those of any rounds do.
    pub all-AreWritten : (rounds : ℕ) (chip : Chip) → AreWritten rounds chip
    all-AreWritten zero chip = tt
    all-AreWritten (suc rounds) chip =
        (all-IsWritten (verdict_at chip) chip, all-AreWritten rounds _)

  -- An attempt within the limit is counted, and the selector stays.
  attempt-tried :
      (chip : Chip) (es : Entries) (k : ℕ)
      → read_otadata flash chip ≡ es
      → load_pending flash chip ≡ some (tried (Active.seq (active es)) k)
      → Active.seq (active es) < u32_mod
      → k < 3
      → IsWritten (verdict_at chip) chip
      → let now = ota_begin_attempt flash chip in
        (now.1 ≡ going_on true)
        × ((read_otadata flash (now.0) ≡ es)
            × (load_pending flash (now.0) ≡ some (tried (Active.seq (active es)) (k + 1))))
  unfolding ota_begin_attempt begin_with
  attempt-tried chip es k e p lt h written =
      let n = Active.seq (active es) in
      let ok =
        subst
          (λ os.
            (store_pending flash (some (tried (Active.seq (active os)) (k + 1))) chip).1 ≡ true)
          e (rw (e, p, on_attempt-tried n k h) at written) in
      rw (e, p, on_attempt-tried n k h)
        (
          refl,
          (
            read_otadata-store_pending flash (tried n (k + 1)) chip ok ∙ e,
            load_pending-store_pending flash (tried n (k + 1)) chip lt (omega arith) ok,
          ),
        )

  -- A rollback names the other slot.
  roll_back-slot :
      (chip : Chip) (es : Entries)
      → AreInUse es
      → read_otadata flash chip ≡ es
      → IsWritten roll_back_now chip
      → Active.slot (active (read_otadata flash (roll_back flash (active es) chip).0))
        ≡ target_slot (active es)
  unfolding roll_back
  roll_back-slot chip es h e done =
      let a = active es in
      let written = write_entry flash a (next_seq a) chip in
      let (noted, cleared) = rw e at done in
      let put_there = write_entry-puts flash es chip h e noted in
      let kept = read_otadata-clear_pending flash (written.0) cleared in
      simp (noted, cleared, kept, put_there, (active-put_next es undefined h).0)

  attempt-spent :
      (chip : Chip) (es : Entries) (k : ℕ)
      → AreInUse es
      → read_otadata flash chip ≡ es
      → load_pending flash chip ≡ some (tried (Active.seq (active es)) k)
      → 3 ≤ k
      → IsWritten (verdict_at chip) chip
      → let now = ota_begin_attempt flash chip in
        (now.1 ≡ software_reset)
        × (Active.slot (active (read_otadata flash (now.0))) ≡ target_slot (active es))
  unfolding ota_begin_attempt begin_with
  attempt-spent chip es k h e p lt written =
      let spent = on_attempt-spent (Active.seq (active es)) k lt in
      let verdict : verdict_at chip ≡ roll_back_now = rw (e, p, spent) refl in
      let ok = rw verdict at written in rw (e, p, spent) (refl, roll_back-slot chip es h e ok)

  three_tries :
      (chip : Chip) (es : Entries)
      → AreInUse es
      → read_otadata flash chip ≡ es
      → load_pending flash chip ≡ some (tried (Active.seq (active es)) 0)
      → AreWritten 4 chip
      → ((attempts 4 chip).1 ≡ going_on true ∷ going_on true ∷ going_on true ∷ software_reset ∷ [])
        × (Active.slot (active (read_otadata flash (attempts 4 chip).0)) ≡ target_slot (active es))
  three_tries chip es h e p (w1, (w2, (w3, (w4, done)))) =
      let lt = active-IsSound es h in
      let first = attempt-tried chip es 0 e p (omega arith) (omega arith) w1 in
      let second = attempt-tried _ es 1 (first.1.0) (first.1.1) (omega arith) (omega arith) w2 in
      let third = attempt-tried _ es 2 (second.1.0) (second.1.1) (omega arith) (omega arith) w3 in
      let last = attempt-spent _ es 3 h (third.1.0) (third.1.1) (omega arith) w4 in
      (rw (first.0, second.0, third.0, last.0), last.1)

  -- An activated image that never confirms itself gets three attempts; the fourth resets the node, and
  -- from then on the boot loader runs the slot that ran before the update. Where the activation reported
  -- success, the writes that count the three attempts and those of the rollback succeed, and the entries'
  -- sequence numbers are above 0 and have room for the two changes of slot.
  pub attempts-activate :
      (slot n : ℕ) (chip : Chip)
      → AreInUse (read_otadata flash chip)
      → Active.seq (active (read_otadata flash chip)) + 5 < u32_mod
      → (activate flash (active (read_otadata flash chip)) slot chip).1 ≡ some n
      → AreWritten 4 (activate flash (active (read_otadata flash chip)) slot chip).0
      → let after = (activate flash (active (read_otadata flash chip)) slot chip).0 in
        ((attempts 4 after).1 ≡ going_on true ∷ going_on true ∷ going_on true ∷ software_reset ∷ [])
        × (Active.slot (active (read_otadata flash (attempts 4 after).0))
            ≡ Active.slot (active (read_otadata flash chip)))
  attempts-activate slot n chip h room done ok =
      let es = read_otadata flash chip in
      let a = active es in
      let after = (activate flash a slot chip).0 in
      let sound = active-IsSound es h in
      let bounds = next_seq_bounds a sound in
      let there = activate-puts flash slot n chip h done in
      let switched = activate_switches flash slot n chip h done in
      let used = subst AreInUse (sym (there.1)) (
        put-AreInUse es (target_entry a) (some (entry (next_seq a))) h
          (omega arith, omega arith)) in
      let told = switched.1.1 ∙ ap (λ m. some (tried m 0)) (sym (switched.1.0)) in
      let tries = three_tries after (read_otadata flash after) used refl told ok in
      (tries.0, tries.1 ∙ ap (λ m. 1 - m) (switched.0 ∙ there.0) ∙ omega arith)
