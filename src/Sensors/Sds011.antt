-- ===== src/Sensors/Sds011.antt =====
-- The dust sensor: frames, their agreement, the correction for humidity and the driver
-- (src/sensors/sds011.rs).
pub mod Compensation
pub mod Frames
pub mod Parking
use rs_smarthome_nodes.Base.{
  ℕ, zero, suc, ◌+◌, ◌-◌, ◌*◌, ◌/◌, ◌%◌, min, Bool, true, false, not, ◌&&◌, ◌||◌, Option, none,
  some, List, [], ◌∷◌, ltb, leb, ◌==◌, if◌then◌else◌, replicate, set, drop, take,
}
use Prim.Native.String.{String}
use rs_smarthome_nodes.Base.Bytes.{Bytes, byte_at}
use rs_smarthome_nodes.Base.Int.{ℤ, pos, negsuc}
use rs_smarthome_nodes.Base.Text.{codes}
use rs_smarthome_nodes.Sensors.{Reading, write_tenths}
use rs_smarthome_nodes.Sensors.Uart.{Uart}

abbrev pub head_byte : ℕ
head_byte = 0xaa

abbrev pub tail_byte : ℕ
tail_byte = 0xab

abbrev pub cmd_data : ℕ
cmd_data = 0xc0

abbrev pub min_warmup_secs : ℕ
min_warmup_secs = 10

abbrev pub stable_frames : ℕ
stable_frames = 3

abbrev pub agree_tenths : ℕ
agree_tenths = 10

abbrev pub agree_percent : ℕ
agree_percent = 5

abbrev pub empty_read_limit : ℕ
empty_read_limit = 64

abbrev pub kappa_centi_default : ℕ
kappa_centi_default = 25

abbrev pub max_kappa_centi : ℕ
max_kappa_centi = 100

abbrev pub max_rh_tenths : ℕ
max_rh_tenths = 950

-- The clamp of the humidity.
abbrev pub rh_of : ℤ → ℕ
rh_of (pos n) = min n max_rh_tenths
rh_of (negsuc n) = 0

abbrev pub dry_of : ℤ → ℕ
dry_of rh_tenths = 100 * (1000 - rh_of rh_tenths)

abbrev pub denominator : ℤ → ℕ → ℕ
denominator rh_tenths kappa_centi =
    dry_of rh_tenths + min kappa_centi max_kappa_centi * rh_of rh_tenths

unfoldable pub compensate : ℤ → ℤ → ℕ → ℤ
compensate (negsuc n) rh_tenths kappa_centi = negsuc n
compensate (pos n) rh_tenths kappa_centi =
    let den = denominator rh_tenths kappa_centi in
    if kappa_centi == 0 || n == 0 then pos n else pos ((n * dry_of rh_tenths + den / 2) / den)

unfoldable pub pm_tenths : ℕ → ℕ → ℕ
pm_tenths lo hi = hi * 256 + lo

-- A frame has 10 bytes; `wrapping_add` on `u8`.
unfoldable pub frame_ok : Bytes → Bool
frame_ok f =
    let sum =
      (byte_at f 2 + byte_at f 3 + byte_at f 4 + byte_at f 5 + byte_at f 6 + byte_at f 7) % 256 in
    if not (byte_at f 0 == head_byte)
      || not (byte_at f 1 == cmd_data)
      || not (byte_at f 9 == tail_byte)
    then false
    else sum == byte_at f 8

-- The loop over the bytes that the checksum covers.
unfoldable pub sum_u8 : ℕ → Bytes → ℕ
sum_u8 sum [] = sum
sum_u8 sum (b ∷ bs) = sum_u8 ((sum + b) % 256) bs

unfoldable pub sleep_work_frame : Bool → Bytes
sleep_work_frame work =
    let f = set (set (replicate 19 0) 0 head_byte) 1 0xb4 in
    let f = set (set f 2 0x06) 3 0x01 in
    let f = set f 4 (if work then 1 else 0) in
    let f = set (set f 15 0xff) 16 0xff in
    set (set f 17 (sum_u8 0 (take 15 (drop 2 f)))) 18 tail_byte

-- Both numbers come from `pm_tenths`.
unfoldable pub agree : ℕ → ℕ → Bool
agree a b =
    let larger = if ltb b a then a else b in
    let tolerance = agree_tenths + larger * agree_percent / 100 in
    let difference = if ltb b a then a - b else b - a in leb difference tolerance

abbrev pub pm25_of : Bytes → ℕ
pm25_of f = pm_tenths (byte_at f 2) (byte_at f 3)

abbrev pub pm10_of : Bytes → ℕ
pm10_of f = pm_tenths (byte_at f 4) (byte_at f 5)

unfoldable pub frames_agree : Bytes → Bytes → Bool
frames_agree a b = agree (pm25_of a) (pm25_of b) && agree (pm10_of a) (pm10_of b)

-- The driver's settings; the line is passed on beside it, and the two timeouts are counts (`warm_up`).
pub record Sds011 : Type 0 where
  pub min_warmup : ℕ
  pub compensated : Bool
  pub kappa_centi : ℕ
  pub humidity_tenths : Option ℤ

abbrev pub new : Sds011
new = record {
  min_warmup = min_warmup_secs;
  compensated = false;
  kappa_centi = kappa_centi_default;
  humidity_tenths = none;
}

abbrev pub set_ambient : Option ℤ → ℕ → Sds011 → Sds011
set_ambient humidity_tenths kappa_centi s = record s {
  humidity_tenths = humidity_tenths;
  kappa_centi = kappa_centi;
}

-- The method `compensated`.
abbrev pub set_compensated : Bool → Sds011 → Sds011
set_compensated compensated s = record s { compensated = compensated }

abbrev pub tenths : String → ℤ → Reading
tenths key t = record { key = codes key; value = write_tenths t }

abbrev pub corrected : Option ℤ → ℕ → ℕ → ℕ → List Reading
corrected none kappa_centi pm25 pm10 = []
corrected (some rh) kappa_centi pm25 pm10 =
    tenths "pm25" (compensate (pos pm25) rh kappa_centi)
    ∷ tenths "pm10" (compensate (pos pm10) rh kappa_centi)
    ∷ []

-- What `measure` reports of a frame.
unfoldable pub readings_of : Sds011 → Bytes → List Reading
readings_of s f =
    if not s.compensated
    then tenths "pm25" (pos (pm25_of f)) ∷ tenths "pm10" (pos (pm10_of f)) ∷ []
    else tenths "pm25_raw" (pos (pm25_of f))
      ∷ tenths "pm10_raw" (pos (pm10_of f))
      ∷ corrected s.humidity_tenths s.kappa_centi (pm25_of f) (pm10_of f)

abbrev pub agreeing_with : Option Bytes → Bytes → ℕ → ℕ
agreeing_with (some previous) f agreeing = if frames_agree previous f then agreeing + 1 else 1
agreeing_with none f agreeing = 1

module _ (uart : Uart) where
  open uart use {Line, write_all, flush, read, read_in_time, after}

  unfoldable pub set_work : Bool → Line → Line × Bool
  set_work work l =
      let written = write_all l (sleep_work_frame work) in
      let flushed = flush written.0 in if not written.1 then (written.0, false) else flushed

  abbrev pub got_byte : (Line → Line × Option ℕ) → Line × Option Bytes → Line × Option ℕ
  got_byte again (l, none) = (l, none)
  got_byte again (l, some []) = again l
  got_byte again (l, some (b ∷ bs)) = (l, some b)

  unfoldable pub byte_from : ℕ → Line → Line × Option ℕ
  byte_from zero l = (l, none)
  byte_from (suc tries) l = got_byte (byte_from tries) (read l 1)

  abbrev pub read_byte : Line → Line × Option ℕ
  read_byte = byte_from empty_read_limit

  abbrev pub drained : (Line → Line) → Line × Option Bytes → Line
  drained again (l, some (b ∷ bs)) = again l
  drained again (l, some []) = l
  drained again (l, none) = l

  unfoldable pub drain : ℕ → Line → Line
  drain zero l = l
  drain (suc tries) l = drained (drain tries) (read_in_time l 64)

  abbrev pub and_byte : ℕ → Line × Option Bytes → Line × Option Bytes
  and_byte b (l, some bs) = (l, some (b ∷ bs))
  and_byte b (l, none) = (l, none)

  abbrev pub more_bytes : (Line → Line × Option Bytes) → Line × Option ℕ → Line × Option Bytes
  more_bytes next (l, none) = (l, none)
  more_bytes next (l, some b) = and_byte b (next l)

  -- The other bytes of a frame.
  unfoldable pub bytes_from : ℕ → Line → Line × Option Bytes
  bytes_from zero l = (l, some [])
  bytes_from (suc n) l = more_bytes (bytes_from n) (read_byte l)

  abbrev pub checked : (Line → Line × Option Bytes) → Line → Bytes → Bool → Line × Option Bytes
  checked again l f true = (l, some f)
  checked again l f false = again l

  abbrev pub framed : (Line → Line × Option Bytes) → Line × Option Bytes → Line × Option Bytes
  framed again (l, none) = (l, none)
  framed again (l, some bs) = checked again l (head_byte ∷ bs) (frame_ok (head_byte ∷ bs))

  abbrev pub hunted : (Line → Line × Option Bytes) → Line → Bool → Line × Option Bytes
  hunted again l false = again l
  hunted again l true = framed again (bytes_from 9 l)

  abbrev pub frame_at : (Line → Line × Option Bytes) → Line × Option ℕ → Line × Option Bytes
  frame_at again (l, none) = (l, none)
  frame_at again (l, some b) = hunted again l (b == head_byte)

  -- `with_timeout(frame_timeout, read_frame())`: the timeout is how often it may hunt for a head.
  unfoldable pub read_frame : ℕ → Line → Line × Option Bytes
  read_frame zero l = (l, none)
  read_frame (suc fuel) l = frame_at (read_frame fuel) (read_byte l)

  abbrev pub settled :
      (Line → Option Bytes → ℕ → Line × Option Bytes)
      → Line
      → Bytes
      → ℕ
      → Bool
      → Line × Option Bytes
  settled next l f agreeing true = (l, some f)
  settled next l f agreeing false = next l (some f) agreeing

  abbrev pub watched :
      (Line → Option Bytes → ℕ → Line × Option Bytes)
      → Option Bytes
      → ℕ
      → Line × Option Bytes
      → Line × Option Bytes
  watched next last agreeing (l, none) = (l, last)
  watched next last agreeing (l, some f) =
      let now = agreeing_with last f agreeing in settled next l f now (leb stable_frames now)

  -- Behind the deadline.
  abbrev pub stopped : Line → Option Bytes → ℕ → Line × Option Bytes
  stopped l last agreeing = (l, last)

  -- The loop of `warm_up`; `frames` of them are there before the deadline, and one more is read.
  unfoldable pub watch : ℕ → ℕ → Line → Option Bytes → ℕ → Line × Option Bytes
  watch fuel zero l last agreeing = watched stopped last agreeing (read_frame fuel l)
  watch fuel (suc frames) l last agreeing =
      watched (watch fuel frames) last agreeing (read_frame fuel l)

  unfoldable pub warm_up : ℕ → ℕ → Sds011 → Line → Line × Option Bytes
  warm_up fuel frames s l = watch fuel frames (drain empty_read_limit (after l s.min_warmup)) none 0

  abbrev pub reported : Sds011 → Option Bytes → List Reading
  reported s none = []
  reported s (some f) = readings_of s f

  unfoldable pub measure : ℕ → ℕ → Sds011 → Line → Line × List Reading
  measure fuel frames s l =
      let started = set_work true l in
      let warmed = warm_up fuel frames s started.0 in
      if not started.1 then (started.0, []) else ((set_work false warmed.0).0, reported s warmed.1)
