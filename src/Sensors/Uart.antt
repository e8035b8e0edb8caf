-- ===== src/Sensors/Uart.antt =====
-- A serial line, behind `Read` and `Write` of `embedded-io-async`: a parameter of the drivers.
use rs_smarthome_nodes.Base.{ℕ, ◌≡◌, Bool, Option, some, List, [], ◌∷◌, ◌++◌, length, ◌≤◌}
use rs_smarthome_nodes.Base.Bytes.{Bytes}

pub record Uart : Type 1 where
  pub Line : Type 0
  -- `write_all` and `flush`; the flag tells that they succeeded
  pub write_all : Line → Bytes → Line × Bool
  pub flush : Line → Line × Bool
  -- `read` into a buffer of so many bytes; `none` is an error
  pub read : Line → ℕ → Line × Option Bytes
  -- the same under a timeout; `none` is also that it passed
  pub read_in_time : Line → ℕ → Line × Option Bytes
  -- `Timer::after`, in seconds
  pub after : Line → ℕ → Line
  -- what was written so far, write by write, with whether the write succeeded
  pub sent : Line → List (Bytes × Bool)
  -- what is there to be read, and will be
  pub to_come : Line → Bytes
  -- a write is noted with its result, and nothing else writes
  pub sent-write_all :
      (l : Line) (b : Bytes) → sent (write_all l b).0 ≡ sent l ++ (b, (write_all l b).1) ∷ []
  pub sent-flush : (l : Line) → sent (flush l).0 ≡ sent l
  pub sent-read : (l : Line) (n : ℕ) → sent (read l n).0 ≡ sent l
  pub sent-read_in_time : (l : Line) (n : ℕ) → sent (read_in_time l n).0 ≡ sent l
  pub sent-after : (l : Line) (secs : ℕ) → sent (after l secs) ≡ sent l
  -- a read takes what stands first
  pub to_come-read :
      (l : Line) (n : ℕ) {b : Bytes} → (read l n).1 ≡ some b → to_come l ≡ b ++ to_come (read l n).0
  pub read-le : (l : Line) (n : ℕ) {b : Bytes} → (read l n).1 ≡ some b → length b ≤ n
