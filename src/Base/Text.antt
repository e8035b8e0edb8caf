-- ===== src/Base/Text.antt =====
-- Text as its bytes: Rust's `str` is a list of bytes that are UTF-8. The string operations of the
-- standard library that the program uses, written on bytes.
pub mod Decimal
use Prim.Native.Char.{code}
use Prim.Native.String.{String}
use Prim.Native.Nat.{ℕ, zero, suc, ◌+◌}
use mathlib.Core.Path.{◌≡◌, refl}
use mathlib.Core.Logic.{inl, inr}
use mathlib.Core.Bool.{Bool, true, false, ◌&&◌, ◌||◌, not}
use mathlib.Core.List.{List, [], ◌∷◌, ◌++◌}
use mathlib.Core.Option.{Option, none, some}
use native.Mathlib.Omega.{arith}
use rs_smarthome_nodes.Base.Bytes.{Bytes}
use rs_smarthome_nodes.Base.Lists.{All, get_or, drop, length}
use rs_smarthome_nodes.Base.Tests.{ltb, leb, ◌==◌, eq_self, if◌then◌else◌, Bool-cases}

-- The bytes of an ASCII literal.
abbrev pub codes : String → Bytes
codes String.[] = []
codes (String.◌∷◌ c s) = code c ∷ codes s

unfoldable pub bytes_eq : Bytes → Bytes → Bool
bytes_eq [] [] = true
bytes_eq (x ∷ xs) (y ∷ ys) = x == y && bytes_eq xs ys
bytes_eq _ _ = false

pub bytes_eq→eq : (a b : Bytes) → bytes_eq a b ≡ true → a ≡ b
unfolding bytes_eq
bytes_eq→eq (x ∷ a) (y ∷ b) h = ground (arith, bytes_eq→eq a b)
bytes_eq→eq [] [] h = refl
bytes_eq→eq _ _ h = ground arith

pub bytes_eq_refl : (a : Bytes) → bytes_eq a a ≡ true
unfolding bytes_eq
bytes_eq_refl [] = refl
bytes_eq_refl (x ∷ a) = ground (arith, bytes_eq_refl a)

abbrev pub within : ℕ → ℕ → ℕ → Bool
within lo hi c = leb lo c && leb c hi

-- The byte ranges that must follow a lead byte; `none` for a byte that cannot lead.
utf8_follow : ℕ → Option (List (ℕ × ℕ))
utf8_follow c =
    if ltb c 0x80
    then some []
    else if within 0xc2 0xdf c
    then some ((0x80, 0xbf) ∷ [])
    else if c == 0xe0
    then some ((0xa0, 0xbf) ∷ (0x80, 0xbf) ∷ [])
    else if c == 0xed
    then some ((0x80, 0x9f) ∷ (0x80, 0xbf) ∷ [])
    else if within 0xe1 0xef c
    then some ((0x80, 0xbf) ∷ (0x80, 0xbf) ∷ [])
    else if c == 0xf0
    then some ((0x90, 0xbf) ∷ (0x80, 0xbf) ∷ (0x80, 0xbf) ∷ [])
    else if within 0xf1 0xf3 c
    then some ((0x80, 0xbf) ∷ (0x80, 0xbf) ∷ (0x80, 0xbf) ∷ [])
    else if c == 0xf4
    then some ((0x80, 0x8f) ∷ (0x80, 0xbf) ∷ (0x80, 0xbf) ∷ [])
    else none

-- `core::str::from_utf8` accepts exactly these; the list holds what the current character lacks.
utf8_from : List (ℕ × ℕ) → Bytes → Bool
utf8_from [] [] = true
utf8_from (r ∷ rs) [] = false
utf8_from ((lo, hi) ∷ rs) (c ∷ cs) = within lo hi c && utf8_from rs cs
utf8_from [] (c ∷ cs) = elim (utf8_follow c) [ none ↦ false | some rs ↦ utf8_from rs cs ]

unfoldable pub is_utf8 : Bytes → Bool
unfolding utf8_from utf8_follow
is_utf8 = utf8_from []

-- `core::str::from_utf8(b).ok()`
unfoldable pub from_utf8 : Bytes → Option Bytes
from_utf8 b = if is_utf8 b then some b else none

pub from_utf8_lem : (b : Bytes) → is_utf8 b ≡ true → from_utf8 b ≡ some b
unfolding from_utf8
from_utf8_lem b h = rw h

abbrev pub is_space : ℕ → Bool
is_space c = within 9 13 c || c == 32

-- How many bytes of `char::is_whitespace` stand first: 1 for ASCII, 2 for U+0085 and U+00A0, 3 for
-- U+1680, U+2000 to U+200A, U+2028, U+2029, U+202F, U+205F and U+3000; else 0.
space_len : Bytes → ℕ
space_len [] = 0
space_len (c ∷ []) = if is_space c then 1 else 0
space_len (c ∷ d ∷ cs) =
    let third = get_or cs 0 0 in
    if is_space c
    then 1
    else if c == 0xc2 && (d == 0x85 || d == 0xa0)
    then 2
    else if c == 0xe1 && d == 0x9a && third == 0x80
    then 3
    else if c == 0xe2
        && d == 0x80
        && (within 0x80 0x8a third || within 0xa8 0xa9 third || third == 0xaf)
    then 3
    else if c == 0xe2 && d == 0x81 && third == 0x9f
    then 3
    else if c == 0xe3 && d == 0x80 && third == 0x80
    then 3
    else 0

-- Every round takes a byte at least, so the length is fuel enough.
trim_start_from : ℕ → Bytes → Bytes
trim_start_from zero s = s
trim_start_from (suc fuel) s = elim (space_len s) [
  | zero ↦ s
  | suc k ↦ trim_start_from fuel (drop (suc k) s)
]

unfoldable pub trim_start : Bytes → Bytes
unfolding trim_start_from space_len
trim_start s = trim_start_from (length s) s

all_space : ℕ → Bytes → Bool
all_space fuel [] = true
all_space zero (c ∷ cs) = false
all_space (suc fuel) (c ∷ cs) = elim (space_len (c ∷ cs)) [
  | zero ↦ false
  | suc k ↦ all_space fuel (drop k cs)
]

-- A byte inside a character starts no whitespace, so the cut falls between characters.
unfoldable pub trim_end : Bytes → Bytes
unfolding all_space space_len
trim_end [] = []
trim_end (c ∷ cs) =
    let rest = trim_end cs in if all_space (length (c ∷ cs)) (c ∷ cs) then [] else c ∷ rest

unfoldable pub trim : Bytes → Bytes
unfolding trim_start trim_end
trim s = trim_end (trim_start s)

-- `strip_prefix`
unfoldable pub strip_prefix : Bytes → Bytes → Option Bytes
strip_prefix [] s = some s
strip_prefix (p ∷ ps) [] = none
strip_prefix (p ∷ ps) (c ∷ cs) = if c == p then strip_prefix ps cs else none

cons_first : ℕ → Option (Bytes × Bytes) → Option (Bytes × Bytes)
cons_first c none = none
cons_first c (some (before, after)) = some (c ∷ before, after)

-- `split_once` at a byte: what stands before and behind the first one.
unfoldable pub split_once : ℕ → Bytes → Option (Bytes × Bytes)
unfolding cons_first
split_once d [] = none
split_once d (c ∷ cs) = if c == d then some ([], cs) else cons_first c (split_once d cs)

rsplit_case : ℕ → ℕ → Bytes → Option (Bytes × Bytes) → Option (Bytes × Bytes)
rsplit_case d c cs none = if c == d then some ([], cs) else none
rsplit_case d c cs (some (before, after)) = some (c ∷ before, after)

-- `rsplit_once`: at the last one.
unfoldable pub rsplit_once : ℕ → Bytes → Option (Bytes × Bytes)
unfolding rsplit_case
rsplit_once d [] = none
rsplit_once d (c ∷ cs) = rsplit_case d c cs (rsplit_once d cs)

push_part : ℕ → ℕ → List Bytes → List Bytes
push_part d c [] = []
push_part d c (part ∷ parts) = if c == d then [] ∷ part ∷ parts else (c ∷ part) ∷ parts

-- `split` at a byte; never empty.
unfoldable pub split : ℕ → Bytes → List Bytes
unfolding push_part
split d [] = [] ∷ []
split d (c ∷ cs) = push_part d c (split d cs)

-- A text with no `d` in it.
abbrev pub Lacks : ℕ → Bytes → Type 0
Lacks d s = All (λ c. (c == d) ≡ false) s

split-nonempty : (d : ℕ) (s : Bytes) → (p : Bytes) × (ps : List Bytes) × (split d s ≡ p ∷ ps)
unfolding split push_part
split-nonempty d [] = ([], [], refl)
split-nonempty d (c ∷ cs) =
    let (p, ps, e) = split-nonempty d cs in
    elim (Bool-cases (c == d)) [
      | inl here ↦ ([], p ∷ ps, rw (e, here) refl)
      | inr there ↦ (c ∷ p, ps, rw (e, there) refl)
    ]

-- Another byte before a text is one of its first piece.
pub split-plain :
    (d c : ℕ) (s : Bytes)
    → (c == d) ≡ false
    → (p : Bytes) × (ps : List Bytes) × (split d s ≡ p ∷ ps) × (split d (c ∷ s) ≡ (c ∷ p) ∷ ps)
unfolding split push_part
split-plain d c s h = let (p, ps, e) = split-nonempty d s in (p, ps, e, rw (e, h) refl)

pub split-sep : (d : ℕ) (s : Bytes) → split d (d ∷ s) ≡ [] ∷ split d s
unfolding split push_part
split-sep d s = let (p, ps, e) = split-nonempty d s in rw (e, eq_self d) refl

pub split-append : (d : ℕ) (a b : Bytes) → Lacks d a → split d (a ++ d ∷ b) ≡ a ∷ split d b
unfolding split push_part
split-append d [] b h = split-sep d b
split-append d (c ∷ a) b (h, hs) = rw (split-append d a b hs, h) refl

pub split-last : (d : ℕ) (a : Bytes) → Lacks d a → split d a ≡ a ∷ []
unfolding split push_part
split-last d [] h = refl
split-last d (c ∷ a) (h, hs) = rw (split-last d a hs, h) refl

pub append-Lacks : (d : ℕ) (a b : Bytes) → Lacks d a → Lacks d b → Lacks d (a ++ b)
append-Lacks d [] b h k = k
append-Lacks d (c ∷ a) b (h, hs) k = (h, append-Lacks d a b hs k)

-- The same as a test, for what is written out.
abbrev pub lacks : ℕ → Bytes → Bool
lacks d [] = true
lacks d (c ∷ s) = not (c == d) && lacks d s

pub lacks-Lacks : (d : ℕ) (s : Bytes) → lacks d s ≡ true → Lacks d s
lacks-Lacks d [] h = tt
lacks-Lacks d (c ∷ s) h = ground (arith, lacks-Lacks d s)
