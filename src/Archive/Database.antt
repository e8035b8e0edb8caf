-- ===== src/Archive/Database.antt =====
-- The client of the database (timeseries/src/questdb/client.rs): how a statement is asked and how an
-- answer is read. The exchange over HTTP and the decoding of an envelope are parameters.

mod Tests
pub mod Encoded
pub mod Chained
pub mod Quoted
use rs_smarthome_nodes.Base.{
  ℕ, suc, ◌+◌, ◌/◌, ◌%◌, Bool, true, false, ◌||◌, Option, none, some, List, [], ◌∷◌, ◌++◌, ◌==◌,
  ltb, get_elem?, ◌>>=◌, if◌then◌else◌,
}
use rs_smarthome_nodes.Base.Bytes.{Bytes}
use rs_smarthome_nodes.Base.Double.{Float64}
use rs_smarthome_nodes.Base.Int.{ℤ}
use rs_smarthome_nodes.Base.Text.{codes, bytes_eq, within}
use rs_smarthome_nodes.Base.Text.Decimal.{parse_i64}
use rs_smarthome_nodes.Archive.Measurements.{Json}

-- `error` is that of the envelope, before `exec` has looked at it.
pub record Dataset (V : Type 0) : Type 0 where
  pub columns : List Bytes
  pub dataset : List (List V)
  pub error : Option Bytes

unfoldable pub position : List Bytes → Bytes → Option ℕ
position [] name = none
position (c ∷ cs) name = if bytes_eq c name then some 0 else position cs name >>= λ i. some (suc i)

abbrev pub require : {V : Type 0} → Dataset V → Bytes → Option ℕ
require d name = position d.columns name

module _ (j : Json) (f : Float64) where
  abbrev pub f64_of : Option j.Number → Option Bytes → Option ℕ
  f64_of (some n) text = j.as_f64 n
  f64_of none (some text) = f.parse text
  f64_of none none = none

  unfoldable pub as_f64 : j.Value → Option ℕ
  as_f64 v = f64_of (j.number v) (j.as_str v)

  abbrev pub i64_of : Option j.Number → Option ℤ → Option Bytes → Option ℤ
  i64_of (some n) whole text = whole
  i64_of none whole (some text) = parse_i64 text
  i64_of none whole none = none

  unfoldable pub as_i64 : j.Value → Option ℤ
  as_i64 v = i64_of (j.number v) (j.as_i64 v) (j.as_str v)

-- `row.get(i)?`
abbrev pub cell : {V : Type 0} → List V → ℕ → Option V
cell row i = get_elem? row i

-- The letters and digits, `-`, `_`, `.` and `~`.
abbrev pub is_unreserved : ℕ → Bool
is_unreserved b =
    within 65 90 b || within 97 122 b || within 48 57 b || b == 45 || b == 95 || b == 46 || b == 126

-- A digit of `{:02X}`.
abbrev pub hex_digit : ℕ → ℕ
hex_digit n = if ltb n 10 then 48 + n else 55 + n

abbrev pub encoded : ℕ → Bytes
encoded b = if is_unreserved b then b ∷ [] else 37 ∷ hex_digit (b / 16) ∷ hex_digit (b % 16) ∷ []

unfoldable pub percent_encode : Bytes → Bytes
percent_encode [] = []
percent_encode (b ∷ bs) = encoded b ++ percent_encode bs

-- What comes back over HTTP; the body can fail to arrive.
pub record Response : Type 0 where
  pub is_success : Bool
  pub text : Option Bytes

pub record Http (V : Type 0) : Type 0 where
  pub get : Bytes → Option Response
  pub post : Bytes → Bytes → Option Response
  pub from_str : Bytes → Option (Dataset V)

module _ {V : Type 0} (http : Http V) (base : Bytes) where
  abbrev pub checked_envelope : Response → Dataset V → Option (Dataset V)
  checked_envelope response parsed = elim parsed.error [
    | some message ↦ none
    | none ↦ if response.is_success then some parsed else none
  ]

  unfoldable pub exec_url : Bytes → Bytes
  exec_url sql = base ++ (codes "/exec?query=" ++ percent_encode sql)

  unfoldable pub exec : Bytes → Option (Dataset V)
  unfolding exec_url
  exec sql = http.get (exec_url sql) >>= λ response.
      response.text >>= λ body. http.from_str body >>= checked_envelope response

  abbrev pub accepted : Option Response → Bool
  accepted none = false
  accepted (some response) = response.is_success

  unfoldable pub write_ilp : Bytes → Bool
  write_ilp [] = true
  write_ilp (b ∷ bs) = accepted (http.post (base ++ codes "/write?precision=n") (b ∷ bs))

  abbrev pub is_ok : Option (Dataset V) → Bool
  is_ok none = false
  is_ok (some d) = true

  unfoldable pub ping : Bool
  unfolding exec
  ping = is_ok (exec (codes "SELECT 1"))

-- What reads the database: the statements that it asked, and its result.
abbrev pub Asked {ℓ} : Type ℓ → Type ℓ
Asked A = List Bytes × Option A

module _ {ℓ} {A : Type ℓ} where
  abbrev pub answered : Option A → Asked A
  answered a = ([], a)

  -- `?` on a result that more statements follow.
  infixl 5 ◌>>!◌
  abbrev pub ◌>>!◌ {κ} : {B : Type κ} → Asked A → (A → Asked B) → Asked B
  (asked, none) >>! k = (asked, none)
  (asked, some a) >>! k = (asked ++ (k a).0, (k a).1)

-- `client.exec(sql).await?`
abbrev pub ask : {V : Type 0} → (Bytes → Option (Dataset V)) → Bytes → Asked (Dataset V)
ask exec sql = (sql ∷ [], exec sql)
