-- ===== src/Sensors/Scd41/Explained.antt =====
-- What a round reports, and its fault: `measure` and `fault` (src/sensors/scd41.rs).
use rs_smarthome_nodes.Base.{
  ℕ, ◌<◌, ◌≡◌, ◌⊎◌, inl, inr, refl, ap, subst, ◌∙◌, Bool, true, false, not, Option, none, some,
  List, [], ◌==◌, if◌then◌else◌, Bool-cases, if-keeps, ◌>>=◌, arith,
}
use rs_smarthome_nodes.Base.Bytes.{Bytes}
use rs_smarthome_nodes.Crc.{crc_word}
use rs_smarthome_nodes.Sensors.{Reading}
use rs_smarthome_nodes.Sensors.I2c.{I2c}
use rs_smarthome_nodes.Sensors.Scd41.{
  Scd41, Fault, offset_rejected, start_rejected, never_ready, ready_unreadable,
  measurement_unreadable, no_valid_sample, warming, Mode, periodic, single_shot, addr, send,
  settled, stop_periodic, ensure_idle, idle_in, offset_sent, sync_offset, answered, ready,
  read_measurement, or_unreadable, begun, when_ready, shot, sample_in, synced, sample, reported,
  readings_of, measure, is_written, offset_raw, cmd_start_low_power_periodic,
  cmd_measure_single_shot, command, cmd_stop_periodic, write_word, cmd_set_temperature_offset,
  single_shot_ms, cmd_get_data_ready, cmd_read_measurement, words_of, data_ready,
}

module _ (i2c : I2c) where
  open i2c use {Bus, write, after}

  send-fault : (bytes : Bytes) (s : Scd41 Bus) → (send i2c bytes s).0.fault ≡ s.fault
  unfolding send
  send-fault bytes s =
      if-keeps (λ (r : Scd41 Bus × Bool). r.0.fault ≡ s.fault) (not (write s.bus addr bytes).1) refl
        refl

  settled-fault : (r : Scd41 Bus × Bool) → (settled i2c r).fault ≡ r.0.fault
  settled-fault (s, true) = refl
  settled-fault (s, false) = refl

  ensure_idle-fault : (s : Scd41 Bus) → (ensure_idle i2c s).fault ≡ s.fault
  unfolding ensure_idle stop_periodic
  ensure_idle-fault s =
      if-keeps (λ (r : Scd41 Bus). r.fault ≡ s.fault) (not s.known_idle)
        (settled-fault (command i2c cmd_stop_periodic s) ∙ send-fault _ s) refl

  idle_in-fault : (mode : Mode) (s : Scd41 Bus) → (idle_in i2c mode s).fault ≡ s.fault
  idle_in-fault periodic s = ensure_idle-fault s
  idle_in-fault single_shot s = refl

  answered-fault :
      {A : Type 0} (pause : Bus → Bus) (n : ℕ) (parse : Bytes → Option A) (r : Scd41 Bus × Bool)
      → (answered i2c pause n parse r).0.fault ≡ r.0.fault
  answered-fault pause n parse (s, false) = refl
  answered-fault pause n parse (s, true) = refl

  abbrev Sample : Type 0
  Sample = ℕ × ℕ × ℕ

  -- The command that starts the periodic mode, and the one that takes a single sample.
  abbrev pub start : Scd41 Bus → Scd41 Bus × Bool
  start s = command i2c cmd_start_low_power_periodic (ensure_idle i2c s)

  abbrev pub told_once : Scd41 Bus → Scd41 Bus × Bool
  told_once s = command i2c cmd_measure_single_shot s

  abbrev pub waited : Scd41 Bus → Scd41 Bus
  waited s = record s { bus = after s.bus single_shot_ms }

  -- A round that gets as far as reading a sample, and what it reads: in the periodic mode once one is
  -- ready, and else when the sensor took the command for it and had its time.
  abbrev pub Reads : Mode → Scd41 Bus → Option (ℕ × ℕ × ℕ) → Type 0
  Reads periodic s found =
      (s.started ≡ true)
      × ((ready i2c s).1 ≡ some true)
      × ((read_measurement i2c (ready i2c s).0).1 ≡ found)
  Reads single_shot s found =
      ((told_once s).1 ≡ true) × ((read_measurement i2c (waited (told_once s).0)).1 ≡ found)

  -- What happened behind each fault.
  abbrev pub Cause : Mode → Scd41 Bus → Fault → Type 0
  Cause mode s offset_rejected = ⊥
  Cause periodic s start_rejected = (s.started ≡ false) × ((start s).1 ≡ false)
  Cause single_shot s start_rejected = (told_once s).1 ≡ false
  Cause periodic s warming = (s.started ≡ false) × ((start s).1 ≡ true)
  Cause single_shot s warming = ⊥
  Cause periodic s ready_unreadable = (s.started ≡ true) × ((ready i2c s).1 ≡ none)
  Cause single_shot s ready_unreadable = ⊥
  Cause periodic s never_ready = (s.started ≡ true) × ((ready i2c s).1 ≡ some false)
  Cause single_shot s never_ready = ⊥
  Cause mode s measurement_unreadable = Reads mode s none
  Cause mode s no_valid_sample = (t : ℕ) × (rh : ℕ) × Reads mode s (some (0, t, rh))

  -- A failure with its fault, or a sample that was read and no fault.
  abbrev IsExplained : Mode → Scd41 Bus → Scd41 Bus × Option Sample → Type 0
  IsExplained mode s (s', none) = (f : Fault) × (s'.fault ≡ some f) × Cause mode s f
  IsExplained mode s (s', some a) = (s'.fault ≡ none) × Reads mode s (some a)

  or_unreadable-IsExplained :
      (mode : Mode) (s : Scd41 Bus) (r : Scd41 Bus × Option Sample)
      → r.0.fault ≡ none
      → Reads mode s (r.1)
      → IsExplained mode s (or_unreadable i2c r)
  or_unreadable-IsExplained mode s (s', some x) clear found = (clear, found)
  or_unreadable-IsExplained mode s (s', none) clear found = (measurement_unreadable, refl, found)

  begun-IsExplained :
      (s : Scd41 Bus) (r : Scd41 Bus × Bool)
      → s.started ≡ false
      → start s ≡ r
      → IsExplained periodic s (begun i2c r)
  begun-IsExplained s (s', true) fresh e = (warming, refl, (fresh, ap (λ x. x.1) e))
  begun-IsExplained s (s', false) fresh e = (start_rejected, refl, (fresh, ap (λ x. x.1) e))

  read_measurement-fault : (s : Scd41 Bus) → (read_measurement i2c s).0.fault ≡ s.fault
  unfolding read_measurement
  read_measurement-fault s =
      answered-fault (λ bus. bus) 9 words_of (command i2c cmd_read_measurement s) ∙ send-fault _ s

  when_ready-IsExplained :
      (s : Scd41 Bus) (r : Scd41 Bus × Option Bool)
      → s.started ≡ true
      → ready i2c s ≡ r
      → r.0.fault ≡ none
      → IsExplained periodic s (when_ready i2c r)
  when_ready-IsExplained s (s', none) on e clear = (ready_unreadable, refl, (on, ap (λ x. x.1) e))
  when_ready-IsExplained s (s', some false) on e clear = (never_ready, refl, (on, ap (λ x. x.1) e))
  when_ready-IsExplained s (s', some true) on e clear =
      or_unreadable-IsExplained periodic s (read_measurement i2c s')
        (read_measurement-fault s' ∙ clear)
        (on, ap (λ x. x.1) e, ap (λ x. (read_measurement i2c x.0).1) e)

  shot-IsExplained :
      (s : Scd41 Bus) (r : Scd41 Bus × Bool)
      → told_once s ≡ r
      → r.0.fault ≡ none
      → IsExplained single_shot s (shot i2c r)
  shot-IsExplained s (s', false) e clear = (start_rejected, refl, ap (λ x. x.1) e)
  shot-IsExplained s (s', true) e clear =
      or_unreadable-IsExplained single_shot s (read_measurement i2c (waited s'))
        (read_measurement-fault (waited s') ∙ clear)
        (ap (λ x. x.1) e, ap (λ x. (read_measurement i2c (waited x.0)).1) e)

  ready-fault : (s : Scd41 Bus) → (ready i2c s).0.fault ≡ s.fault
  unfolding ready
  ready-fault s =
      answered-fault (λ bus. bus) 3 (λ buf. do status ← crc_word buf; some (data_ready status))
        (command i2c cmd_get_data_ready s)
      ∙ send-fault _ s

  periodic-IsExplained :
      (s : Scd41 Bus) (on : Bool)
      → s.started ≡ on
      → s.fault ≡ none
      → IsExplained periodic s
          (if not on then begun i2c (start s) else when_ready i2c (ready i2c s))
  periodic-IsExplained s true on clear =
      when_ready-IsExplained s (ready i2c s) on refl (ready-fault s ∙ clear)
  periodic-IsExplained s false fresh clear = begun-IsExplained s (start s) fresh refl

  sample_in-IsExplained :
      (mode : Mode) (s : Scd41 Bus) → s.fault ≡ none → IsExplained mode s (sample_in i2c mode s)
  sample_in-IsExplained periodic s clear = periodic-IsExplained s s.started refl clear
  sample_in-IsExplained single_shot s clear =
      shot-IsExplained s (told_once s) refl (send-fault _ s ∙ clear)

  abbrev pub offset_written : Scd41 Bus → Scd41 Bus × Bool
  offset_written s =
      write_word i2c cmd_set_temperature_offset (offset_raw s.offset_centi) (idle_in i2c s.mode s)

  -- No fault of the offset, or it was not acknowledged.
  abbrev IsSynced : Scd41 Bus → Scd41 Bus × Bool → Type 0
  IsSynced s (s', true) = s'.fault ≡ none
  IsSynced s (s', false) = (s'.fault ≡ some offset_rejected) × ((offset_written s).1 ≡ false)

  offset_sent-IsSynced :
      (s : Scd41 Bus) (r : Scd41 Bus × Bool)
      → offset_written s ≡ r
      → r.0.fault ≡ none
      → IsSynced s (offset_sent i2c r)
  offset_sent-IsSynced s (s', true) e clear = clear
  offset_sent-IsSynced s (s', false) e clear = (refl, ap (λ x. x.1) e)

  sync_offset-IsSynced : (s : Scd41 Bus) → s.fault ≡ none → IsSynced s (sync_offset i2c s)
  unfolding sync_offset
  sync_offset-IsSynced s clear =
      if-keeps (IsSynced s) (is_written s.written_offset s.offset_centi) clear (
        offset_sent-IsSynced s (offset_written s) refl
          (send-fault _ (idle_in i2c s.mode s) ∙ idle_in-fault s.mode s ∙ clear))

  -- The same of a round, by the state and the flag behind the offset.
  abbrev pub CauseOf : Scd41 Bus → Scd41 Bus × Bool → Fault → Type 0
  CauseOf s (synced, true) f = Cause synced.mode synced f
  CauseOf s (synced, false) f = (f ≡ offset_rejected) × ((offset_written s).1 ≡ false)

  abbrev pub ReadsOf : Scd41 Bus × Bool → Option (ℕ × ℕ × ℕ) → Type 0
  ReadsOf (synced, true) found = Reads synced.mode synced found
  ReadsOf (synced, false) found = ⊥

  abbrev IsTold : Scd41 Bus → Scd41 Bus × Bool → Scd41 Bus × Option Sample → Type 0
  IsTold s p (s', none) = (f : Fault) × (s'.fault ≡ some f) × CauseOf s p f
  IsTold s p (s', some a) = (s'.fault ≡ none) × ReadsOf p (some a)

  explained-IsTold :
      (s synced : Scd41 Bus) (r : Scd41 Bus × Option Sample)
      → IsExplained synced.mode synced r
      → IsTold s (synced, true) r
  explained-IsTold s synced (s', none) h = h
  explained-IsTold s synced (s', some a) h = h

  synced-IsTold : (s : Scd41 Bus) (p : Scd41 Bus × Bool) → IsSynced s p → IsTold s p (synced i2c p)
  synced-IsTold s (s', true) clear =
      explained-IsTold s s' (sample_in i2c s'.mode s') (sample_in-IsExplained s'.mode s' clear)
  synced-IsTold s (s', false) (fault, rejected) = (offset_rejected, fault, (refl, rejected))

  -- What a round leaves and reports.
  abbrev pub IsAccounted : Scd41 Bus → Scd41 Bus × Bool → Scd41 Bus × List Reading → Type 0
  IsAccounted s p r =
      ((r.1 ≡ []) × ((f : Fault) × (r.0.fault ≡ some f) × CauseOf s p f))
      ⊎ ((r.0.fault ≡ none)
          × ((co2 : ℕ) × (t : ℕ) × (rh : ℕ) × (0 < co2)
              × ReadsOf p (some (co2, t, rh))
              × (r.1 ≡ readings_of i2c co2 t rh)))

  invalid-CauseOf :
      (s : Scd41 Bus) (p : Scd41 Bus × Bool) (co2 t rh : ℕ)
      → co2 ≡ 0
      → ReadsOf p (some (co2, t, rh))
      → CauseOf s p no_valid_sample
  invalid-CauseOf s (s', true) co2 t rh zero found =
      (t, rh, subst (λ n. Reads s'.mode s' (some (n, t, rh))) zero found)
  invalid-CauseOf s (s', false) co2 t rh zero found = absurd found

  reported-IsAccounted :
      (s : Scd41 Bus) (p : Scd41 Bus × Bool) (r : Scd41 Bus × Option Sample)
      → IsTold s p r
      → IsAccounted s p (reported i2c r)
  reported-IsAccounted s p (s', none) why = inl (refl, why)
  reported-IsAccounted s p (s', some (co2, t, rh)) (clear, found) = elim (Bool-cases (co2 == 0)) [
    | inl nothing ↦ rw nothing (
        inl (
          refl,
          (no_valid_sample, refl, invalid-CauseOf s p co2 t rh (ground (arith, nothing)) found),
        ))
    | inr air ↦ rw air (inr (clear, (co2, t, rh, ground (arith, air), found, refl)))
  ]

  -- A round of measuring either reports nothing and leaves the fault of what happened, or reports
  -- carbon dioxide, temperature and humidity of the sample that was read, which is above 0 ppm, and
  -- leaves no fault; whatever the bus answers, and whatever fault an earlier round left. What happened
  -- is: the offset was not acknowledged, or the start; the sensor has just been started; it is not
  -- ready, or does not say; the sample is unreadable, or is of 0 ppm.
  pub measure-IsAccounted :
      (s : Scd41 Bus)
      → let cleared = record s { fault = none } in
        IsAccounted cleared (sync_offset i2c cleared) (measure i2c s)
  unfolding measure sample
  measure-IsAccounted s =
      let cleared = record s { fault = none } in
      reported-IsAccounted cleared (sync_offset i2c cleared) (synced i2c (sync_offset i2c cleared))
        (synced-IsTold cleared (sync_offset i2c cleared) (sync_offset-IsSynced cleared refl))
