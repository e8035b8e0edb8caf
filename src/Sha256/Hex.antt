-- ===== src/Sha256/Hex.antt =====
-- A digest as text: `parse_hex_digest` and `nibble` (src/sha256.rs).
use rs_smarthome_nodes.Base.{
  ℕ, zero, suc, ◌+◌, ◌-◌, ◌*◌, ◌<◌, ◌≡◌, ap, not, Option, none, some, [], ◌∷◌, ◌>>=◌, bind-eq-some,
  length, ◌==◌, if◌then◌else◌, Bool-cases, inl, inr, arith,
}
use rs_smarthome_nodes.Base.Bytes.{Bytes}
use rs_smarthome_nodes.Base.Text.{within}

unfoldable pub nibble : ℕ → Option ℕ
nibble c =
    if within b'0' b'9' c
    then some (c - b'0')
    else if within b'a' b'f' c
    then some (c - b'a' + 10)
    else if within b'A' b'F' c
    then some (c - b'A' + 10)
    else none

-- The pairs; `(a << 4) | b` adds, since the low bits of the one and the high bits of the other are 0.
unfoldable pub hex_pairs : Bytes → Option Bytes
hex_pairs [] = some []
hex_pairs (x ∷ []) = some []
hex_pairs (x ∷ y ∷ rest) = do
  high ← nibble x
  low ← nibble y
  bytes ← hex_pairs rest
  some ((high * 16 + low) ∷ bytes)

unfoldable pub parse_hex_digest : Bytes → Option Bytes
parse_hex_digest text = if not (length text == 64) then none else hex_pairs text

nibble-lt : (c : ℕ) {n : ℕ} → nibble c ≡ some n → n < 16
unfolding nibble
nibble-lt c e = ground (arith, e)

hex_pairs-length :
    (n : ℕ) (text : Bytes) {d : Bytes}
    → length text ≡ n + n
    → hex_pairs text ≡ some d
    → length d ≡ n
unfolding hex_pairs
hex_pairs-length zero [] {d = d} size e = let is : [] ≡ d = cc in omega (arith, ap length is)
hex_pairs-length zero (x ∷ text) size e = absurd (omega arith)
hex_pairs-length (suc n) [] size e = absurd (omega arith)
hex_pairs-length (suc n) (x ∷ []) size e = absurd (omega arith)
hex_pairs-length (suc n) (x ∷ y ∷ rest) {d = d} size e =
    let high = bind-eq-some (nibble x) _ e in
    let low = bind-eq-some (nibble y) _ high.2 in
    let bytes = bind-eq-some (hex_pairs rest) _ low.2 in
    let last = bytes.2 in
    let is : (high.0 * 16 + low.0) ∷ bytes.0 ≡ d = cc in
    omega (arith, hex_pairs-length n rest {d = bytes.0} (omega arith) bytes.1, ap length is)

-- A digest that is accepted has 32 bytes.
pub parse_hex_digest-length :
    (text : Bytes) {d : Bytes} → parse_hex_digest text ≡ some d → length d ≡ 32
unfolding parse_hex_digest
parse_hex_digest-length text {d = d} e = elim (Bool-cases (length text == 64)) [
  | inl full ↦ hex_pairs-length 32 text {d = d} (ground (arith, full)) (rw full at e)
  | inr other ↦ let e' = rw other at e in (cc)
]
