-- ===== src/Sensors/Sds011/Frames.antt =====
-- Which frames are read and reported: `read_frame` and `measure` (src/sensors/sds011.rs).
use rs_smarthome_nodes.Base.{
  ℕ, zero, suc, ◌≤◌, ◌≡◌, ◌⊎◌, inl, inr, refl, ap, sym, ◌∙◌, Bool, true, false, Option, none, some,
  List, [], ◌∷◌, ◌++◌, append_assoc, length, ◌==◌, ==_iff, Bool-cases, arith,
}
use rs_smarthome_nodes.Base.Bytes.{Bytes}
use rs_smarthome_nodes.Sensors.{Reading}
use rs_smarthome_nodes.Sensors.Uart.{Uart}
use rs_smarthome_nodes.Sensors.Sds011.{
  Sds011, set_work, got_byte, byte_from, read_byte, and_byte, more_bytes, bytes_from, checked,
  framed, hunted, frame_at, read_frame, settled, stopped, watched, watch, warm_up, reported,
  readings_of, measure, frame_ok, head_byte, agreeing_with, empty_read_limit, drain,
}

module _ (uart : Uart) where
  open uart use {Line, read, after, to_come, to_come-read, read-le}

  -- A byte was the first to come.
  abbrev TookByte : Line → Line × Option ℕ → Type 0
  TookByte l (l', none) = Unit {0}
  TookByte l (l', some b) = to_come l ≡ b ∷ to_come l'

  TookByte-shift :
      (l l1 : Line) (r : Line × Option ℕ) → to_come l ≡ to_come l1 → TookByte l1 r → TookByte l r
  TookByte-shift l l1 (l', none) e h = tt
  TookByte-shift l l1 (l', some b) e h = e ∙ h

  single :
      (l l' : Line) (b : ℕ) (bs : Bytes)
      → to_come l ≡ (b ∷ bs) ++ to_come l'
      → length (b ∷ bs) ≤ 1
      → to_come l ≡ b ∷ to_come l'
  single l l' b [] e h = e
  single l l' b (c ∷ bs) e h = absurd (omega arith)

  got_byte-TookByte :
      (again : Line → Line × Option ℕ) (l : Line) (r : Line × Option Bytes)
      → ((b : Bytes) → r.1 ≡ some b → (to_come l ≡ b ++ to_come r.0) × (length b ≤ 1))
      → ((l : Line) → TookByte l (again l))
      → TookByte l (got_byte uart again r)
  got_byte-TookByte again l (l', none) took h = tt
  got_byte-TookByte again l (l', some []) took h =
      TookByte-shift l l' (again l') (took [] refl).0 (h l')
  got_byte-TookByte again l (l', some (b ∷ bs)) took h =
      let (here, short) = took (b ∷ bs) refl in single l l' b bs here short

  byte_from-TookByte : (tries : ℕ) (l : Line) → TookByte l (byte_from uart tries l)
  unfolding byte_from
  byte_from-TookByte zero l = tt
  byte_from-TookByte (suc tries) l =
      got_byte-TookByte (byte_from uart tries) l (read l 1)
        (λ b e. (to_come-read l 1 {b = b} e, read-le l 1 {b = b} e)) (byte_from-TookByte tries)

  -- So many bytes were the first to come.
  abbrev TookBytes : ℕ → Line → Line × Option Bytes → Type 0
  TookBytes n l (l', none) = Unit {0}
  TookBytes n l (l', some bs) = (to_come l ≡ bs ++ to_come l') × (length bs ≡ n)

  and_byte-TookBytes :
      (n : ℕ) (l l1 : Line) (b : ℕ) (r : Line × Option Bytes)
      → to_come l ≡ b ∷ to_come l1
      → TookBytes n l1 r
      → TookBytes (suc n) l (and_byte uart b r)
  and_byte-TookBytes n l l1 b (l', none) e h = tt
  and_byte-TookBytes n l l1 b (l', some bs) e h = (e ∙ ap (λ t. b ∷ t) h.0, ap suc h.1)

  more_bytes-TookBytes :
      (n : ℕ) (next : Line → Line × Option Bytes) (l : Line) (r : Line × Option ℕ)
      → TookByte l r
      → ((l : Line) → TookBytes n l (next l))
      → TookBytes (suc n) l (more_bytes uart next r)
  more_bytes-TookBytes n next l (l', none) e h = tt
  more_bytes-TookBytes n next l (l', some b) e h = and_byte-TookBytes n l l' b (next l') e (h l')

  bytes_from-TookBytes : (n : ℕ) (l : Line) → TookBytes n l (bytes_from uart n l)
  unfolding bytes_from
  bytes_from-TookBytes zero l = (refl, refl)
  bytes_from-TookBytes (suc n) l =
      more_bytes-TookBytes n (bytes_from uart n) l (read_byte uart l)
        (byte_from-TookByte empty_read_limit l) (bytes_from-TookBytes n)

  -- Of the bytes to come some were skipped, and then there was this frame, whole and with its checksum.
  abbrev pub IsFrame : Bytes → Type 0
  IsFrame f = (frame_ok f ≡ true) × (length f ≡ 10)

  abbrev pub Framed : Line → Line × Option Bytes → Type 0
  Framed l (l', none) = Unit {0}
  Framed l (l', some f) =
      IsFrame f × ((skipped : Bytes) × (to_come l ≡ skipped ++ (f ++ to_come l')))

  Framed-skip :
      (l l1 : Line) (bs : Bytes) (r : Line × Option Bytes)
      → to_come l ≡ bs ++ to_come l1
      → Framed l1 r
      → Framed l r
  Framed-skip l l1 bs (l', none) e h = tt
  Framed-skip l l1 bs (l', some f) e (good, (skipped, rest)) = (
    good,
    (bs ++ skipped, e ∙ ap (λ t. bs ++ t) rest ∙ sym (append_assoc bs skipped (f ++ to_come l'))),
  )

  checked-Framed :
      (again : Line → Line × Option Bytes) (l l1 : Line) (f : Bytes) (good : Bool)
      → frame_ok f ≡ good
      → length f ≡ 10
      → to_come l ≡ f ++ to_come l1
      → ((l : Line) → Framed l (again l))
      → Framed l (checked uart again l1 f good)
  checked-Framed again l l1 f true e size here h = ((e, size), ([], here))
  checked-Framed again l l1 f false e size here h = Framed-skip l l1 f (again l1) here (h l1)

  framed-Framed :
      (again : Line → Line × Option Bytes) (l l1 : Line) (r : Line × Option Bytes)
      → to_come l ≡ head_byte ∷ to_come l1
      → TookBytes 9 l1 r
      → ((l : Line) → Framed l (again l))
      → Framed l (framed uart again r)
  framed-Framed again l l1 (l', none) e took h = tt
  framed-Framed again l l1 (l', some bs) e took h =
      checked-Framed again l l' (head_byte ∷ bs) (frame_ok (head_byte ∷ bs)) refl (ap suc took.1)
        (e ∙ ap (λ t. head_byte ∷ t) took.0) h

  hunted-Framed :
      (again : Line → Line × Option Bytes) (l l1 : Line) (b : ℕ) (at_head : Bool)
      → (b == head_byte) ≡ at_head
      → to_come l ≡ b ∷ to_come l1
      → ((l : Line) → Framed l (again l))
      → Framed l (hunted uart again l1 at_head)
  hunted-Framed again l l1 b false e here h = Framed-skip l l1 (b ∷ []) (again l1) here (h l1)
  hunted-Framed again l l1 b true e here h =
      framed-Framed again l l1 (bytes_from uart 9 l1)
        (here ∙ ap (λ c. c ∷ to_come l1) ((==_iff b head_byte).0 e)) (bytes_from-TookBytes 9 l1) h

  frame_at-Framed :
      (again : Line → Line × Option Bytes) (l : Line) (r : Line × Option ℕ)
      → TookByte l r
      → ((l : Line) → Framed l (again l))
      → Framed l (frame_at uart again r)
  frame_at-Framed again l (l', none) e h = tt
  frame_at-Framed again l (l', some b) e h = hunted-Framed again l l' b (b == head_byte) refl e h

  -- A frame that is read was among the bytes to come, behind others that were skipped; it has 10 bytes, with
  -- the markers and the checksum of a frame, and what stood behind it is still to come.
  pub read_frame-Framed : (fuel : ℕ) (l : Line) → Framed l (read_frame uart fuel l)
  unfolding read_frame
  read_frame-Framed zero l = tt
  read_frame-Framed (suc fuel) l =
      frame_at-Framed (read_frame uart fuel) l (read_byte uart l)
        (byte_from-TookByte empty_read_limit l) (read_frame-Framed fuel)

  -- A frame, if there is one, is good.
  abbrev AllGood : Option Bytes → Type 0
  AllGood none = Unit {0}
  AllGood (some f) = IsFrame f

  settled-AllGood :
      (next : Line → Option Bytes → ℕ → Line × Option Bytes) (l : Line) (f : Bytes) (agreeing : ℕ)
      (enough : Bool)
      → IsFrame f
      → ((l : Line) (last : Option Bytes) (agreeing : ℕ)
          → AllGood last
          → AllGood (next l last agreeing).1)
      → AllGood (settled uart next l f agreeing enough).1
  settled-AllGood next l f agreeing true good h = good
  settled-AllGood next l f agreeing false good h = h l (some f) agreeing good

  watched-AllGood :
      (next : Line → Option Bytes → ℕ → Line × Option Bytes) (l : Line) (last : Option Bytes)
      (agreeing : ℕ) (r : Line × Option Bytes)
      → Framed l r
      → AllGood last
      → ((l : Line) (last : Option Bytes) (agreeing : ℕ)
          → AllGood last
          → AllGood (next l last agreeing).1)
      → AllGood (watched uart next last agreeing r).1
  watched-AllGood next l last agreeing (l', none) read good h = good
  watched-AllGood next l last agreeing (l', some f) read good h =
      settled-AllGood next l' f (agreeing_with last f agreeing) _ read.0 h

  watch-AllGood :
      (fuel frames : ℕ) (l : Line) (last : Option Bytes) (agreeing : ℕ)
      → AllGood last
      → AllGood (watch uart fuel frames l last agreeing).1
  unfolding watch
  watch-AllGood fuel zero l last agreeing good =
      watched-AllGood (stopped uart) l last agreeing (read_frame uart fuel l)
        (read_frame-Framed fuel l) good (λ l last agreeing h. h)
  watch-AllGood fuel (suc frames) l last agreeing good =
      watched-AllGood (watch uart fuel frames) l last agreeing (read_frame uart fuel l)
        (read_frame-Framed fuel l) good (watch-AllGood fuel frames)

  abbrev pub IsReported : Sds011 → List Reading → Type 0
  IsReported s readings = (readings ≡ []) ⊎ ((f : Bytes) × IsFrame f × (readings ≡ readings_of s f))

  reported-IsReported :
      (s : Sds011) (o : Option Bytes) → AllGood o → IsReported s (reported uart s o)
  reported-IsReported s none good = inl refl
  reported-IsReported s (some f) good = inr (f, good, refl)

  -- A round of measuring reports nothing or the readings of one frame that is whole and whose markers and
  -- checksum are right, whatever bytes the line carries.
  pub measure-IsReported :
      (fuel frames : ℕ) (s : Sds011) (l : Line) → IsReported s (measure uart fuel frames s l).1
  unfolding measure warm_up
  measure-IsReported fuel frames s l = elim (Bool-cases (set_work uart true l).1) [
    | inl started ↦ rw started (
        reported-IsReported s _ (
          watch-AllGood fuel frames
            (drain uart empty_read_limit (after (set_work uart true l).0 s.min_warmup)) none 0 tt))
    | inr failed ↦ rw failed (inl refl)
  ]
