-- ===== src/Archive/Database/Encoded.antt =====
-- A statement in the query of a URL (`percent_encode` of timeseries/src/questdb/client.rs).
use rs_smarthome_nodes.Base.{
  ℕ, ◌+◌, ◌-◌, ◌*◌, ◌/◌, ◌%◌, ◌<◌, ◌≡◌, refl, ap, ◌∙◌, [], ◌∷◌, ◌++◌, ◌==◌, ltb, arith, All,
  Bool-cases, inl, inr, if◌then◌else◌,
}
use rs_smarthome_nodes.Base.Bytes.{Bytes}
use rs_smarthome_nodes.Archive.Database.{percent_encode, encoded, is_unreserved, hex_digit}

-- What a server reads in a query: `%` and two digits for a byte, and `+` for a space.
pub data Expects : Type 0 where
  plain : Expects
  high : Expects
  low : ℕ → Expects

abbrev pub digit_of : ℕ → ℕ
digit_of c = if ltb c 58 then c - 48 else c - 55

abbrev pub read_plain : ℕ → ℕ
read_plain c = if c == 43 then 32 else c

unfoldable pub decoded : Expects → Bytes → Bytes
decoded e [] = []
decoded plain (c ∷ cs) =
    let escape = decoded high cs in
    let rest = decoded plain cs in if c == 37 then escape else read_plain c ∷ rest
decoded high (c ∷ cs) = decoded (low (digit_of c)) cs
decoded (low h) (c ∷ cs) = (h * 16 + digit_of c) ∷ decoded plain cs

digit_of-hex_digit : (n : ℕ) → n < 16 → digit_of (hex_digit n) ≡ n
digit_of-hex_digit n h = ground arith

decoded-encoded :
    (b : ℕ) (rest : Bytes) → b < 256 → decoded plain (encoded b ++ rest) ≡ b ∷ decoded plain rest
unfolding decoded
decoded-encoded b rest h = elim (Bool-cases (is_unreserved b)) [
  | inl kept ↦ ground arith
  | inr escaped ↦ rw escaped (
      ap (λ c. c ∷ decoded plain rest)
        (rw (digit_of-hex_digit (b / 16) (omega arith), digit_of-hex_digit (b % 16) (omega arith))
          (omega arith)))
]

-- A server that decodes the query reads the statement as it was, whatever bytes are in it.
pub decoded-percent_encode :
    (sql : Bytes) → All (λ b. b < 256) sql → decoded plain (percent_encode sql) ≡ sql
unfolding percent_encode
decoded-percent_encode [] h = unfold decoded in refl
decoded-percent_encode (b ∷ bs) (h, hs) =
    decoded-encoded b (percent_encode bs) h ∙ ap (◌∷◌ b) (decoded-percent_encode bs hs)
