-- ===== src/Sensors/I2c.antt =====
-- A device on the I²C bus, behind `I2c` of `embedded-hal-async`: a parameter of the drivers.
use rs_smarthome_nodes.Base.{ℕ, ◌≡◌, Bool, Option, List, ◌∷◌}
use rs_smarthome_nodes.Base.Bytes.{Bytes}

pub record I2c : Type 1 where
  pub Bus : Type 0
  -- `write` to an address; the flag tells that it was acknowledged
  pub write : Bus → ℕ → Bytes → Bus × Bool
  -- `read` of so many bytes from an address
  pub read : Bus → ℕ → ℕ → Bus × Option Bytes
  -- `Timer::after`, in milliseconds
  pub after : Bus → ℕ → Bus
  -- what was put on the bus and whether it was acknowledged, the last one first
  pub sent : Bus → List (Bytes × Bool)
  pub sent-write :
      (b : Bus) (addr : ℕ) (bytes : Bytes)
      → sent (write b addr bytes).0 ≡ (bytes, (write b addr bytes).1) ∷ sent b
  pub sent-read : (b : Bus) (addr n : ℕ) → sent (read b addr n).0 ≡ sent b
  pub sent-after : (b : Bus) (ms : ℕ) → sent (after b ms) ≡ sent b
