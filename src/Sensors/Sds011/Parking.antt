-- ===== src/Sensors/Sds011/Parking.antt =====
-- What is sent to the sensor in a round: `measure` (src/sensors/sds011.rs).
use rs_smarthome_nodes.Base.{
  ℕ, zero, suc, ◌≡◌, refl, ap, ◌∙◌, Bool, true, false, Option, none, some, List, [], Bool-cases,
  inl, inr, ◌∷◌, ◌++◌, append_assoc, ◌==◌,
}
use rs_smarthome_nodes.Base.Bytes.{Bytes}
use rs_smarthome_nodes.Sensors.{Reading}
use rs_smarthome_nodes.Sensors.Uart.{Uart}
use rs_smarthome_nodes.Sensors.Sds011.{
  Sds011, set_work, got_byte, byte_from, read_byte, drained, drain, and_byte, more_bytes,
  bytes_from, checked, framed, hunted, frame_at, read_frame, settled, stopped, watched, watch,
  warm_up, measure, sleep_work_frame, frame_ok, head_byte, agreeing_with, empty_read_limit,
}

module _ (uart : Uart) where
  open uart use {
    Line, write_all, flush, read, read_in_time, after, sent, sent-write_all, sent-flush, sent-read,
    sent-read_in_time, sent-after,
  }

  -- A step that sends nothing.
  abbrev IsSilent : {A : Type 0} → (Line → Line × A) → Type 0
  IsSilent step = (l : Line) → sent (step l).0 ≡ sent l

  got_byte-silent :
      (again : Line → Line × Option ℕ) (r : Line × Option Bytes)
      → IsSilent again
      → sent (got_byte uart again r).0 ≡ sent r.0
  got_byte-silent again (l, none) h = refl
  got_byte-silent again (l, some []) h = h l
  got_byte-silent again (l, some (b ∷ bs)) h = refl

  byte_from-IsSilent : (tries : ℕ) → IsSilent (byte_from uart tries)
  unfolding byte_from
  byte_from-IsSilent zero l = refl
  byte_from-IsSilent (suc tries) l =
      got_byte-silent (byte_from uart tries) (read l 1) (byte_from-IsSilent tries) ∙ sent-read l 1

  drained-silent :
      (again : Line → Line) (r : Line × Option Bytes)
      → ((l : Line) → sent (again l) ≡ sent l)
      → sent (drained uart again r) ≡ sent r.0
  drained-silent again (l, none) h = refl
  drained-silent again (l, some []) h = refl
  drained-silent again (l, some (b ∷ bs)) h = h l

  drain-silent : (tries : ℕ) (l : Line) → sent (drain uart tries l) ≡ sent l
  unfolding drain
  drain-silent zero l = refl
  drain-silent (suc tries) l =
      drained-silent (drain uart tries) (read_in_time l 64) (drain-silent tries)
      ∙ sent-read_in_time l 64

  and_byte-silent : (b : ℕ) (r : Line × Option Bytes) → sent (and_byte uart b r).0 ≡ sent r.0
  and_byte-silent b (l, none) = refl
  and_byte-silent b (l, some bs) = refl

  more_bytes-silent :
      (next : Line → Line × Option Bytes) (r : Line × Option ℕ)
      → IsSilent next
      → sent (more_bytes uart next r).0 ≡ sent r.0
  more_bytes-silent next (l, none) h = refl
  more_bytes-silent next (l, some b) h = and_byte-silent b (next l) ∙ h l

  bytes_from-IsSilent : (n : ℕ) → IsSilent (bytes_from uart n)
  unfolding bytes_from
  bytes_from-IsSilent zero l = refl
  bytes_from-IsSilent (suc n) l =
      more_bytes-silent (bytes_from uart n) (read_byte uart l) (bytes_from-IsSilent n)
      ∙ byte_from-IsSilent empty_read_limit l

  checked-silent :
      (again : Line → Line × Option Bytes) (l : Line) (f : Bytes) (good : Bool)
      → IsSilent again
      → sent (checked uart again l f good).0 ≡ sent l
  checked-silent again l f true h = refl
  checked-silent again l f false h = h l

  framed-silent :
      (again : Line → Line × Option Bytes) (r : Line × Option Bytes)
      → IsSilent again
      → sent (framed uart again r).0 ≡ sent r.0
  framed-silent again (l, none) h = refl
  framed-silent again (l, some bs) h =
      checked-silent again l (head_byte ∷ bs) (frame_ok (head_byte ∷ bs)) h

  hunted-silent :
      (again : Line → Line × Option Bytes) (l : Line) (at_head : Bool)
      → IsSilent again
      → sent (hunted uart again l at_head).0 ≡ sent l
  hunted-silent again l false h = h l
  hunted-silent again l true h =
      framed-silent again (bytes_from uart 9 l) h ∙ bytes_from-IsSilent 9 l

  frame_at-silent :
      (again : Line → Line × Option Bytes) (r : Line × Option ℕ)
      → IsSilent again
      → sent (frame_at uart again r).0 ≡ sent r.0
  frame_at-silent again (l, none) h = refl
  frame_at-silent again (l, some b) h = hunted-silent again l (b == head_byte) h

  read_frame-IsSilent : (fuel : ℕ) → IsSilent (read_frame uart fuel)
  unfolding read_frame
  read_frame-IsSilent zero l = refl
  read_frame-IsSilent (suc fuel) l =
      frame_at-silent (read_frame uart fuel) (read_byte uart l) (read_frame-IsSilent fuel)
      ∙ byte_from-IsSilent empty_read_limit l

  settled-silent :
      (next : Line → Option Bytes → ℕ → Line × Option Bytes) (l : Line) (f : Bytes) (agreeing : ℕ)
      (enough : Bool)
      → ((l : Line) (last : Option Bytes) (agreeing : ℕ) → sent (next l last agreeing).0 ≡ sent l)
      → sent (settled uart next l f agreeing enough).0 ≡ sent l
  settled-silent next l f agreeing true h = refl
  settled-silent next l f agreeing false h = h l (some f) agreeing

  watched-silent :
      (next : Line → Option Bytes → ℕ → Line × Option Bytes) (last : Option Bytes) (agreeing : ℕ)
      (r : Line × Option Bytes)
      → ((l : Line) (last : Option Bytes) (agreeing : ℕ) → sent (next l last agreeing).0 ≡ sent l)
      → sent (watched uart next last agreeing r).0 ≡ sent r.0
  watched-silent next last agreeing (l, none) h = refl
  watched-silent next last agreeing (l, some f) h =
      settled-silent next l f (agreeing_with last f agreeing) _ h

  watch-silent :
      (fuel frames : ℕ) (l : Line) (last : Option Bytes) (agreeing : ℕ)
      → sent (watch uart fuel frames l last agreeing).0 ≡ sent l
  unfolding watch
  watch-silent fuel zero l last agreeing =
      watched-silent (stopped uart) last agreeing (read_frame uart fuel l) (λ l last agreeing. refl)
      ∙ read_frame-IsSilent fuel l
  watch-silent fuel (suc frames) l last agreeing =
      watched-silent (watch uart fuel frames) last agreeing (read_frame uart fuel l)
        (watch-silent fuel frames)
      ∙ read_frame-IsSilent fuel l

  warm_up-IsSilent : (fuel frames : ℕ) (s : Sds011) → IsSilent (warm_up uart fuel frames s)
  unfolding warm_up
  warm_up-IsSilent fuel frames s l =
      watch-silent fuel frames _ none 0
      ∙ drain-silent empty_read_limit _
      ∙ sent-after l s.min_warmup

  -- The writes up to a command, with whether it was written.
  abbrev entry : Line → Bool → Bool → List (Bytes × Bool)
  entry l work written = sent l ++ (sleep_work_frame work, written) ∷ []

  set_work-notes :
      (work : Bool) (l : Line)
      → (written : Bool) × (sent (set_work uart work l).0
          ≡ sent l ++ (sleep_work_frame work, written) ∷ [])
        × ((set_work uart work l).1 ≡ true → written ≡ true)
  unfolding set_work
  set_work-notes work l =
      let frame = sleep_work_frame work in
      let noted = sent-write_all l frame in
      elim (Bool-cases (write_all l frame).1) [
        | inl good ↦ rw good (true, sent-flush _ ∙ noted ∙ ap (entry l work) good, λ e. refl)
        | inr bad ↦ rw bad (false, noted ∙ ap (entry l work) bad, λ e. e)
      ]

  -- What a round writes and reports, by whether the command that starts the fan went out.
  abbrev pub IsRound : Line → Line × List Reading → Bool → Type 0
  IsRound l r true =
      (parked : Bool) × (sent r.0
        ≡ sent l ++ (sleep_work_frame true, true) ∷ (sleep_work_frame false, parked) ∷ [])
  IsRound l r false =
      (r.1 ≡ []) × ((written : Bool) × (sent r.0 ≡ sent l ++ (sleep_work_frame true, written) ∷ []))

  -- Where a round of measuring writes and flushes the command that starts the fan, it writes, whatever
  -- comes back from the sensor, as its last command the one that parks it, whether that succeeds or not,
  -- and nothing else. Where the command that starts the fan is not written or not flushed, it writes
  -- nothing else and reports nothing.
  pub measure-parks :
      (fuel frames : ℕ) (s : Sds011) (l : Line)
      → IsRound l (measure uart fuel frames s l) (set_work uart true l).1
  unfolding measure
  measure-parks fuel frames s l =
      let (written, begun, done) = set_work-notes true l in
      let warmed = warm_up uart fuel frames s (set_work uart true l).0 in
      let (parked, ended, known) = set_work-notes false warmed.0 in
      elim (Bool-cases (set_work uart true l).1) [
        | inl good ↦ rw good (
          parked,
          ended
              ∙ ap (λ t. t ++ (sleep_work_frame false, parked) ∷ [])
                  (warm_up-IsSilent fuel frames s _ ∙ begun ∙ ap (entry l true) (done good))
              ∙ append_assoc (sent l) ((sleep_work_frame true, true) ∷ [])
                  ((sleep_work_frame false, parked) ∷ []),
        )
        | inr bad ↦ rw bad (refl, (written, begun))
      ]
