-- ===== src/Sensors/Tests.antt =====
-- The dust sensor on a line that carries its frames among noise.
use rs_smarthome_nodes.Base.{
  ℕ, ◌≤◌, ◌<◌, ◌≡◌, refl, Bool, ltb, length, ◌+◌, ◌*◌, ◌/◌, ◌^◌, true, Option, some, none, List, [],
  ◌∷◌, ◌++◌, take, drop, arith,
}
use rs_smarthome_nodes.Base.Bytes.{Bytes}
use rs_smarthome_nodes.Base.Int.{pos}
use rs_smarthome_nodes.Http.Scripted.{took-le, took-rest}
use rs_smarthome_nodes.Sensors.I2c.{I2c}
use rs_smarthome_nodes.Sensors.Scd41
use rs_smarthome_nodes.Sensors.Scd41.{Scd41, Mode, periodic}
use rs_smarthome_nodes.Sensors.Scd41.Explained.{IsAccounted, measure-IsAccounted}
use rs_smarthome_nodes.Sensors.Scd41.Idle.{AreTimely, Timely, measure-Timely}
use rs_smarthome_nodes.Sensors.Uart.{Uart}
use rs_smarthome_nodes.Sensors.Sds011.{
  Sds011, new, set_ambient, set_compensated, compensate, dry_of, denominator, set_work, byte_from,
  drain, bytes_from, watch, warm_up, frame_ok, frames_agree, agree, pm_tenths, measure, read_frame,
  readings_of,
}
use rs_smarthome_nodes.Sensors.Sds011.Compensation.{IsNearest, compensate-IsNearest}
use rs_smarthome_nodes.Sensors.Sds011.Frames.{Framed, read_frame-Framed}
use rs_smarthome_nodes.Sensors.Sds011.Parking.{IsRound, measure-parks}

-- What is to come, and what was sent.
abbrev Wire : Type 0
Wire = Bytes × List (Bytes × Bool)

abbrev wire : Uart
wire = record {
  Line = Wire;
  write_all = λ l b. ((l.0, l.1 ++ (b, true) ∷ []), true);
  flush = λ l. (l, true);
  read = λ l n. ((drop n l.0, l.1), some (take n l.0));
  read_in_time = λ l n. (l, none);
  after = λ l secs. l;
  sent = λ l. l.1;
  to_come = λ l. l.0;
  sent-write_all = λ l b. refl;
  sent-flush = λ l. refl;
  sent-read = λ l n. refl;
  sent-read_in_time = λ l n. refl;
  sent-after = λ l secs. refl;
  to_come-read = λ l n e. took-rest l.0 n e;
  read-le = λ l n e. took-le l.0 n e;
}

-- PM2.5 24.5 and PM10 30.0 in tenths, with their checksum 0x22.
abbrev frame : Bytes
frame = 0xaa ∷ 0xc0 ∷ 0xf5 ∷ 0 ∷ 0x2c ∷ 1 ∷ 0 ∷ 0 ∷ 0x22 ∷ 0xab ∷ []

abbrev noisy : Wire
noisy = (0x13 ∷ 0x37 ∷ frame ++ frame ++ frame ++ frame, [])

abbrev compensated : Sds011
compensated = set_compensated true (set_ambient (some (pos 500)) 25 new)

measured : (measure wire 20 5 compensated noisy).1 ≡ readings_of compensated frame
unfolding set_work byte_from drain bytes_from read_frame watch warm_up measure readings_of frame_ok
    frames_agree agree pm_tenths
measured = refl

measure-parks_example :
    IsRound wire noisy (measure wire 20 5 compensated noisy) (set_work wire true noisy).1
measure-parks_example = measure-parks wire 20 5 compensated noisy

read_frame-Framed_example : Framed wire noisy (read_frame wire 20 noisy)
read_frame-Framed_example = read_frame-Framed wire 20 noisy

compensate-IsNearest_example :
    (q : ℕ) × (compensate (pos 1000) (pos 500) 25 ≡ pos q)
    × (q ≤ 1000)
    × IsNearest 1000 (dry_of (pos 500)) (denominator (pos 500) 25) q
    × (5000 ≤ denominator (pos 500) 25)
    × (1000 * dry_of (pos 500) + denominator (pos 500) 25 / 2 < 2 ^ 63)
compensate-IsNearest_example = compensate-IsNearest 1000 (pos 500) 25 (omega arith)

-- What was sent, and the answers to come.
abbrev Answers : Type 0
Answers = List (Bytes × Bool) × List (Option Bytes)

abbrev next_answer : List (Bytes × Bool) → List (Option Bytes) → Answers × Option Bytes
next_answer log [] = ((log, []), none)
next_answer log (a ∷ answers) = ((log, answers), a)

next_answer-sent :
    (log : List (Bytes × Bool)) (answers : List (Option Bytes))
    → (next_answer log answers).0.0 ≡ log
next_answer-sent log [] = refl
next_answer-sent log (a ∷ answers) = refl

-- The first command is not acknowledged.
abbrev bus : I2c
bus = record {
  Bus = Answers;
  write = λ b at bytes. (((bytes, ltb 0 (length b.0)) ∷ b.0, b.1), ltb 0 (length b.0));
  read = λ b at n. next_answer b.0 b.1;
  after = λ b ms. b;
  sent = λ b. b.0;
  sent-write = λ b at bytes. refl;
  sent-read = λ b at n. next_answer-sent b.0 b.1;
  sent-after = λ b ms. refl;
}

abbrev asleep : Scd41 Answers
asleep = Scd41.new ([], []) periodic

asleep-Timely : Timely bus asleep
unfolding AreTimely
asleep-Timely = (tt, λ e. absurd (cc))

measure-Timely_example :
    Timely bus (Scd41.measure bus asleep).0 × ((Scd41.measure bus asleep).0.mode ≡ periodic)
measure-Timely_example = measure-Timely bus asleep asleep-Timely refl

measure-IsAccounted_example :
    IsAccounted bus asleep
      (Scd41.sync_offset bus (record asleep { fault = none }))
      (Scd41.measure bus asleep)
measure-IsAccounted_example = measure-IsAccounted bus asleep
