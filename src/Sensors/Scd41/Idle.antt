-- ===== src/Sensors/Scd41/Idle.antt =====
-- When the commands are sent that the sensor takes only while it is idle: `sync_offset` and `sample`
-- (src/sensors/scd41.rs).
use rs_smarthome_nodes.Base.{
  ℕ, ◌≡◌, refl, sym, ap, ◌∙◌, ◌&&◌, Bool-cases, inl, inr, Bool, true, false, not, ◌||◌, Option,
  none, some, List, [], ◌∷◌, ◌>>=◌, take, ◌==◌, if◌then◌else◌, if-keeps, subst, ◌/◌, ◌%◌,
}
use rs_smarthome_nodes.Base.Bytes.{Bytes}
use rs_smarthome_nodes.Base.Text.{bytes_eq}
use rs_smarthome_nodes.Crc.{crc_word}
use rs_smarthome_nodes.Sensors.I2c.{I2c}
use rs_smarthome_nodes.Sensors.Scd41.{
  Scd41, periodic, addr, be16, send, settled, stop_periodic, ensure_idle, idle_in, offset_sent,
  sync_offset, answered, ready, read_measurement, or_unreadable, begun, when_ready, sample_in,
  synced, sample, reported, measure, is_written, offset_raw, cmd_start_low_power_periodic, command,
  cmd_stop_periodic, write_word, cmd_set_temperature_offset, cmd_get_data_ready,
  cmd_read_measurement, cmd_delay_ms, words_of, data_ready,
}

abbrev pub names : ℕ → Bytes → Bool
names cmd b = bytes_eq (take 2 b) (be16 cmd)

-- Whether the sensor was told to stop and took no start since, by these commands and whether each
-- was acknowledged, the last one first. At the start it may be measuring.
unfoldable pub was_stopped : List (Bytes × Bool) → Bool
was_stopped [] = false
was_stopped ((b, taken) ∷ earlier) =
    if names cmd_stop_periodic b
    then true
    else if names cmd_start_low_power_periodic b && taken
    then false
    else was_stopped earlier

abbrev pub wants_idle : Bytes → Bool
wants_idle b = names cmd_set_temperature_offset b || names cmd_start_low_power_periodic b

-- Offset writes and starts came only while the sensor was stopped.
unfoldable pub AreTimely : List (Bytes × Bool) → Type 0
AreTimely [] = Unit {0}
AreTimely ((b, taken) ∷ earlier) =
    (wants_idle b ≡ true → was_stopped earlier ≡ true) × AreTimely earlier

-- So it was so far, and what is believed to be idle was stopped.
abbrev pub IsTimely : List (Bytes × Bool) → Bool → Type 0
IsTimely log known = AreTimely log × (known ≡ true → was_stopped log ≡ true)

module _ (log : List (Bytes × Bool)) (taken : Bool) where
  stop-IsTimely :
      (known : Bool) → IsTimely log known → IsTimely ((be16 cmd_stop_periodic, taken) ∷ log) true
  unfolding was_stopped AreTimely bytes_eq
  stop-IsTimely known h = (((λ w. absurd (cc)), h.0), λ e. refl)

  offset-IsTimely :
      (a b c : ℕ)
      → IsTimely log true
      → IsTimely
          ((
            cmd_set_temperature_offset / 256 ∷ cmd_set_temperature_offset % 256 ∷ a ∷ b ∷ c ∷ [],
            taken,
          )
            ∷ log)
          true
  unfolding was_stopped AreTimely bytes_eq
  offset-IsTimely a b c h = (((λ w. h.1 refl), h.0), λ e. h.1 refl)

  poll-IsTimely :
      (known : Bool) → IsTimely log known → IsTimely ((be16 cmd_get_data_ready, taken) ∷ log) known
  unfolding was_stopped AreTimely bytes_eq
  poll-IsTimely known h = (((λ w. absurd (cc)), h.0), h.1)

  fetch-IsTimely :
      (known : Bool)
      → IsTimely log known
      → IsTimely ((be16 cmd_read_measurement, taken) ∷ log) known
  unfolding was_stopped AreTimely bytes_eq
  fetch-IsTimely known h = (((λ w. absurd (cc)), h.0), h.1)

-- A start that is not acknowledged leaves the sensor as it is.
start-IsTimely :
    (log : List (Bytes × Bool)) (taken : Bool)
    → IsTimely log true
    → IsTimely ((be16 cmd_start_low_power_periodic, taken) ∷ log) (not taken)
unfolding was_stopped AreTimely bytes_eq
start-IsTimely log true h = (((λ w. h.1 refl), h.0), λ e. absurd (cc))
start-IsTimely log false h = (((λ w. h.1 refl), h.0), λ e. h.1 refl)

module _ (i2c : I2c) where
  open i2c use {Bus, write, read, after, sent, sent-write, sent-read, sent-after}

  abbrev pub Timely : Scd41 Bus → Type 0
  Timely s = IsTimely (sent s.bus) s.known_idle

  -- A command was put on the bus, and the answer is whether it was acknowledged.
  abbrev IsTold : Bytes → Scd41 Bus → Scd41 Bus × Bool → Type 0
  IsTold b s r =
      (sent r.0.bus ≡ (b, r.1) ∷ sent s.bus) × (r.0.known_idle ≡ s.known_idle) × (r.0.mode ≡ s.mode)

  send-IsTold : (b : Bytes) (s : Scd41 Bus) → IsTold b s (send i2c b s)
  unfolding send
  send-IsTold b s =
      let noted = sent-write s.bus addr b in
      let with_flag = λ (ok : Bool). (b, ok) ∷ sent s.bus in
      elim (Bool-cases (write s.bus addr b).1) [
        | inl good ↦ rw good (sent-after _ cmd_delay_ms ∙ noted ∙ ap with_flag good, refl, refl)
        | inr bad ↦ rw bad (noted ∙ ap with_flag bad, refl, refl)
      ]

  told-Timely :
      (b : Bytes) (s : Scd41 Bus) (r : Scd41 Bus × Bool)
      → IsTold b s r
      → IsTimely ((b, r.1) ∷ sent s.bus) s.known_idle
      → Timely r.0
  told-Timely b s (s', taken) (log, known, mode) h =
      subst (λ k. IsTimely (sent s'.bus) k) (sym known)
        (subst (λ t. IsTimely t s.known_idle) (sym log) h)

  -- The sensor is known to be idle, and in the same mode.
  abbrev IsIdle : Scd41 Bus → Scd41 Bus → Type 0
  IsIdle s s' = IsTimely (sent s'.bus) true × (s'.known_idle ≡ true) × (s'.mode ≡ s.mode)

  settled-IsIdle :
      (b : Bytes) (s : Scd41 Bus) (r : Scd41 Bus × Bool)
      → IsTold b s r
      → IsTimely ((b, r.1) ∷ sent s.bus) true
      → IsIdle s (settled i2c r)
  settled-IsIdle b s (s', true) (log, known, mode) h =
      (subst (λ t. IsTimely t true) (sym (sent-after s'.bus 500 ∙ log)) h, refl, mode)
  settled-IsIdle b s (s', false) (log, known, mode) h =
      (subst (λ t. IsTimely t true) (sym log) h, refl, mode)

  ensured-IsIdle :
      (s : Scd41 Bus) (idle : Bool)
      → s.known_idle ≡ idle
      → Timely s
      → IsIdle s (if not idle then stop_periodic i2c s else s)
  unfolding stop_periodic
  ensured-IsIdle s true known h = (subst (IsTimely (sent s.bus)) known h, known, refl)
  ensured-IsIdle s false known h =
      settled-IsIdle (be16 cmd_stop_periodic) s (command i2c cmd_stop_periodic s) (send-IsTold _ s)
        (stop-IsTimely (sent s.bus) _ s.known_idle h)

  ensure_idle-IsIdle : (s : Scd41 Bus) → Timely s → IsIdle s (ensure_idle i2c s)
  unfolding ensure_idle
  ensure_idle-IsIdle s h = ensured-IsIdle s s.known_idle refl h

  -- A step of the periodic mode that keeps what holds of the commands.
  abbrev Keeps : {A : Type 0} → Scd41 Bus × A → Type 0
  Keeps r = Timely r.0 × (r.0.mode ≡ periodic)

  offset_sent-Keeps : (r : Scd41 Bus × Bool) → Keeps r → Keeps (offset_sent i2c r)
  offset_sent-Keeps (s, true) h = h
  offset_sent-Keeps (s, false) h = h

  offset_written-Keeps :
      (arg : ℕ) (s : Scd41 Bus)
      → Timely s
      → s.mode ≡ periodic
      → Keeps (offset_sent i2c (write_word i2c cmd_set_temperature_offset arg (ensure_idle i2c s)))
  offset_written-Keeps arg s h mode =
      let idle = ensure_idle i2c s in
      let (timely, known, same) = ensure_idle-IsIdle s h in
      let told = send-IsTold _ idle in
      offset_sent-Keeps (write_word i2c cmd_set_temperature_offset arg idle) (
        told-Timely _ idle (write_word i2c cmd_set_temperature_offset arg idle) told
            (subst (IsTimely _) (sym known) (offset-IsTimely (sent idle.bus) _ _ _ _ timely)),
        told.2 ∙ same ∙ mode,
      )

  sync_offset-Keeps : (s : Scd41 Bus) → Timely s → s.mode ≡ periodic → Keeps (sync_offset i2c s)
  unfolding sync_offset
  sync_offset-Keeps s h mode =
      if-keeps Keeps (is_written s.written_offset s.offset_centi) (h, mode)
        (subst
          (λ m. Keeps (
            offset_sent i2c (
              write_word i2c cmd_set_temperature_offset (offset_raw s.offset_centi)
                (idle_in i2c m s))))
          (sym mode) (offset_written-Keeps (offset_raw s.offset_centi) s h mode))

  answered-Keeps :
      {A : Type 0} (n : ℕ) (parse : Bytes → Option A) (r : Scd41 Bus × Bool)
      → Keeps r
      → Keeps (answered i2c (λ bus. bus) n parse r)
  answered-Keeps n parse (s, false) h = h
  answered-Keeps n parse (s, true) h =
      (subst (λ t. IsTimely t s.known_idle) (sym (sent-read s.bus addr n)) h.0, h.1)

  told-Keeps :
      (b : Bytes) (s : Scd41 Bus)
      → ((taken : Bool) → IsTimely ((b, taken) ∷ sent s.bus) s.known_idle)
      → s.mode ≡ periodic
      → Keeps (send i2c b s)
  told-Keeps b s h mode =
      let told = send-IsTold b s in (told-Timely b s (send i2c b s) told (h _), told.2 ∙ mode)

  ready-Keeps : (s : Scd41 Bus) → Timely s → s.mode ≡ periodic → Keeps (ready i2c s)
  unfolding ready
  ready-Keeps s h mode =
      answered-Keeps 3 (λ buf. do status ← crc_word buf; some (data_ready status))
        (command i2c cmd_get_data_ready s)
        (told-Keeps _ s (λ taken. poll-IsTimely (sent s.bus) taken s.known_idle h) mode)

  read_measurement-Keeps :
      (s : Scd41 Bus) → Timely s → s.mode ≡ periodic → Keeps (read_measurement i2c s)
  unfolding read_measurement
  read_measurement-Keeps s h mode =
      answered-Keeps 9 words_of (command i2c cmd_read_measurement s)
        (told-Keeps _ s (λ taken. fetch-IsTimely (sent s.bus) taken s.known_idle h) mode)

  or_unreadable-Keeps : (r : Scd41 Bus × Option (ℕ × ℕ × ℕ)) → Keeps r → Keeps (or_unreadable i2c r)
  or_unreadable-Keeps (s, some x) h = h
  or_unreadable-Keeps (s, none) h = h

  when_ready-Keeps : (r : Scd41 Bus × Option Bool) → Keeps r → Keeps (when_ready i2c r)
  when_ready-Keeps (s, none) h = h
  when_ready-Keeps (s, some false) h = h
  when_ready-Keeps (s, some true) h =
      or_unreadable-Keeps (read_measurement i2c s) (read_measurement-Keeps s h.0 h.1)

  begun-Keeps :
      (s : Scd41 Bus) (r : Scd41 Bus × Bool)
      → IsTold (be16 cmd_start_low_power_periodic) s r
      → IsTimely (sent s.bus) true
      → s.known_idle ≡ true
      → s.mode ≡ periodic
      → Keeps (begun i2c r)
  begun-Keeps s (s', true) (log, known, same) h idle mode =
      (subst (λ t. IsTimely t false) (sym log) (start-IsTimely (sent s.bus) true h), same ∙ mode)
  begun-Keeps s (s', false) (log, known, same) h idle mode = (
    subst (IsTimely (sent s'.bus)) (sym (known ∙ idle))
        (subst (λ t. IsTimely t true) (sym log) (start-IsTimely (sent s.bus) false h)),
    same ∙ mode,
  )

  sample_in-Keeps :
      (s : Scd41 Bus) → Timely s → s.mode ≡ periodic → Keeps (sample_in i2c periodic s)
  sample_in-Keeps s h mode =
      let idle = ensure_idle i2c s in
      let (timely, known, same) = ensure_idle-IsIdle s h in
      if-keeps Keeps (not s.started)
        (begun-Keeps idle (command i2c cmd_start_low_power_periodic idle) (send-IsTold _ idle)
          timely known (same ∙ mode))
        (when_ready-Keeps (ready i2c s) (ready-Keeps s h mode))

  synced-Keeps : (r : Scd41 Bus × Bool) → Keeps r → Keeps (synced i2c r)
  synced-Keeps (s, false) h = h
  synced-Keeps (s, true) (h, mode) =
      subst (λ m. Keeps (sample_in i2c m s)) (sym mode) (sample_in-Keeps s h mode)

  reported-Keeps : (r : Scd41 Bus × Option (ℕ × ℕ × ℕ)) → Keeps r → Keeps (reported i2c r)
  reported-Keeps (s, none) h = h
  reported-Keeps (s, some (co2, t, rh)) h = if-keeps Keeps (co2 == 0) h h

  -- In the periodic mode rounds of measuring keep this, whatever the bus acknowledges: every offset
  -- write and every start came behind a command to stop, without a start between them that was
  -- acknowledged, also where an earlier boot had left the sensor measuring; and a sensor that is
  -- believed to be idle was told to stop, and took no start since.
  pub measure-Timely :
      (s : Scd41 Bus)
      → Timely s
      → s.mode ≡ periodic
      → Timely (measure i2c s).0 × ((measure i2c s).0.mode ≡ periodic)
  unfolding measure sample
  measure-Timely s h mode =
      let cleared = record s { fault = none } in
      reported-Keeps (synced i2c (sync_offset i2c cleared))
        (synced-Keeps (sync_offset i2c cleared) (sync_offset-Keeps cleared h mode))
