-- ===== src/Base/Bytes.antt =====
-- Bytes as numbers below 256, and the little- and big-endian words of the blobs and packets.
use rs_smarthome_nodes.Base.Lists.{get_or}
use rs_smarthome_nodes.Base.Words.{u32_mod}
use Prim.Native.Nat.{ℕ, ◌+◌, ◌*◌, ◌/◌, ◌%◌, ◌<◌}
use mathlib.Core.Path.{◌≡◌}
use mathlib.Core.List.{List, [], ◌∷◌}
use native.Mathlib.Omega.{arith}

abbrev pub Bytes : Type 0
Bytes = List ℕ

-- Every item is a byte.
abbrev pub AreBytes : Bytes → Type 0
AreBytes [] = Unit
AreBytes (x ∷ xs) = (x < 256) × AreBytes xs

-- An index that the code takes in range; the default is never read there.
abbrev pub byte_at : Bytes → ℕ → ℕ
byte_at b i = get_or b i 0

-- `u32::to_le_bytes`, `u32::from_le_bytes` and their big-endian versions.
abbrev pub le_bytes : ℕ → Bytes
le_bytes n = n % 256 ∷ n / 256 % 256 ∷ n / 65536 % 256 ∷ n / 16777216 % 256 ∷ []

abbrev pub from_le : ℕ → ℕ → ℕ → ℕ → ℕ
from_le a b c d = a + 256 * b + 65536 * c + 16777216 * d

abbrev pub be_bytes : ℕ → Bytes
be_bytes n = n / 16777216 % 256 ∷ n / 65536 % 256 ∷ n / 256 % 256 ∷ n % 256 ∷ []

abbrev pub from_be : ℕ → ℕ → ℕ → ℕ → ℕ
from_be a b c d = from_le d c b a

-- `u32::from_le_bytes(b[at..at + 4])`.
abbrev pub le_at : Bytes → ℕ → ℕ
le_at b at =
    from_le (get_or b at 0) (get_or b (at + 1) 0) (get_or b (at + 2) 0) (get_or b (at + 3) 0)

abbrev pub be_at : Bytes → ℕ → ℕ
be_at b at =
    from_be (get_or b at 0) (get_or b (at + 1) 0) (get_or b (at + 2) 0) (get_or b (at + 3) 0)

pub from_le_lem :
    (n : ℕ)
    → n < u32_mod
    → from_le (n % 256) (n / 256 % 256) (n / 65536 % 256) (n / 16777216 % 256) ≡ n
from_le_lem n h = omega arith
