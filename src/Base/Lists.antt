-- ===== src/Base/Lists.antt =====
-- Lists measured and indexed by native numbers, under the library's names: the slices and arrays
-- of the firmware.
use Prim.Native.Nat.add
use Prim.Native.Nat.{ℕ, zero, suc, ◌+◌, ◌-◌, ◌<◌, ◌≤◌, min}
use mathlib.Core.Path.{◌≡◌, refl, ap, sym, ◌∙◌}
use mathlib.Core.List.{List, [], ◌∷◌, ◌++◌}
use mathlib.Core.Option.{Option, none, some}
use native.Mathlib.Omega.{arith}

-- A predicate on every item.
abbrev pub All {ℓ κ} : {A : Type ℓ} → (A → Type κ) → List A → Type κ
All P [] = Unit
All P (x ∷ xs) = P x × All P xs

module _ {ℓ} {A : Type ℓ} where
  abbrev pub length : List A → ℕ
  length [] = 0
  length (x ∷ xs) = suc (length xs)

  abbrev pub get_elem? : List A → ℕ → Option A
  get_elem? [] i = none
  get_elem? (x ∷ xs) zero = some x
  get_elem? (x ∷ xs) (suc i) = get_elem? xs i

  abbrev pub get_or : List A → ℕ → A → A
  get_or [] i d = d
  get_or (x ∷ xs) zero d = x
  get_or (x ∷ xs) (suc i) d = get_or xs i d

  -- A write out of bounds changes nothing.
  abbrev pub set : List A → ℕ → A → List A
  set [] i v = []
  set (x ∷ xs) zero v = v ∷ xs
  set (x ∷ xs) (suc i) v = x ∷ set xs i v

  abbrev pub take : ℕ → List A → List A
  take zero xs = []
  take (suc n) [] = []
  take (suc n) (x ∷ xs) = x ∷ take n xs

  abbrev pub drop : ℕ → List A → List A
  drop zero xs = xs
  drop (suc n) [] = []
  drop (suc n) (x ∷ xs) = drop n xs

  abbrev pub replicate : ℕ → A → List A
  replicate zero a = []
  replicate (suc n) a = a ∷ replicate n a

  -- `b[at..at + src.len()].copy_from_slice(src)`; what does not fit is lost.
  abbrev pub copy_at : List A → ℕ → List A → List A
  copy_at [] at src = []
  copy_at (x ∷ xs) zero [] = x ∷ xs
  copy_at (x ∷ xs) zero (s ∷ src) = s ∷ copy_at xs zero src
  copy_at (x ∷ xs) (suc at) src = x ∷ copy_at xs at src

  pub length-append : (xs ys : List A) → length (xs ++ ys) ≡ length xs + length ys
  length-append [] ys = omega arith
  length-append (x ∷ xs) ys = omega (arith, length-append xs ys)

  pub length-set : (xs : List A) (i : ℕ) (v : A) → length (set xs i v) ≡ length xs
  length-set [] i v = refl
  length-set (x ∷ xs) zero v = refl
  length-set (x ∷ xs) (suc i) v = ap suc (length-set xs i v)

  pub length-take : (n : ℕ) (xs : List A) → length (take n xs) ≡ min n (length xs)
  length-take zero xs = omega arith
  length-take (suc n) [] = omega arith
  length-take (suc n) (x ∷ xs) = omega (arith, length-take n xs)

  pub length-drop : (n : ℕ) (xs : List A) → length (drop n xs) ≡ length xs - n
  length-drop zero xs = omega arith
  length-drop (suc n) [] = omega arith
  length-drop (suc n) (x ∷ xs) = omega (arith, length-drop n xs)

  pub length-replicate : (n : ℕ) (a : A) → length (replicate n a) ≡ n
  length-replicate zero a = refl
  length-replicate (suc n) a = ap suc (length-replicate n a)

  pub length-copy_at : (b : List A) (at : ℕ) (src : List A) → length (copy_at b at src) ≡ length b
  length-copy_at [] at src = refl
  length-copy_at (x ∷ xs) zero [] = refl
  length-copy_at (x ∷ xs) zero (s ∷ src) = ap suc (length-copy_at xs zero src)
  length-copy_at (x ∷ xs) (suc at) src = ap suc (length-copy_at xs at src)

  pub take-append-drop : (n : ℕ) (xs : List A) → take n xs ++ drop n xs ≡ xs
  take-append-drop zero xs = refl
  take-append-drop (suc n) [] = refl
  take-append-drop (suc n) (x ∷ xs) = rw (take-append-drop n xs)

  -- A list that fits is copied whole, and what stood behind it stays.
  pub copy_at-zero :
      (b src : List A) → length src ≤ length b → copy_at b 0 src ≡ src ++ drop (length src) b
  copy_at-zero [] [] h = refl
  copy_at-zero [] (s ∷ src) h = absurd (omega arith)
  copy_at-zero (x ∷ b) [] h = refl
  copy_at-zero (x ∷ b) (s ∷ src) h = ap (◌∷◌ s) (copy_at-zero b src (omega arith))

  pub take-length_append : (xs ys : List A) → take (length xs) (xs ++ ys) ≡ xs
  take-length_append [] ys = refl
  take-length_append (x ∷ xs) ys = ap (◌∷◌ x) (take-length_append xs ys)

  pub drop-length_append : (xs ys : List A) → drop (length xs) (xs ++ ys) ≡ ys
  drop-length_append [] ys = refl
  drop-length_append (x ∷ xs) ys = drop-length_append xs ys

  pub drop_all : (n : ℕ) (xs : List A) → length xs ≤ n → drop n xs ≡ []
  drop_all zero [] h = refl
  drop_all zero (x ∷ xs) h = absurd (omega arith)
  drop_all (suc n) [] h = refl
  drop_all (suc n) (x ∷ xs) h = drop_all n xs (omega arith)

  pub take_all : (n : ℕ) (xs : List A) → length xs ≤ n → take n xs ≡ xs
  take_all zero [] h = refl
  take_all zero (x ∷ xs) h = absurd (omega arith)
  take_all (suc n) [] h = refl
  take_all (suc n) (x ∷ xs) h = ap (◌∷◌ x) (take_all n xs (omega arith))

  pub take-suc-set :
      (n : ℕ) (xs : List A) (x : A)
      → n < length xs
      → take (suc n) (set xs n x) ≡ take n xs ++ (x ∷ [])
  take-suc-set n [] x h = absurd (omega arith)
  take-suc-set zero (y ∷ xs) x h = refl
  take-suc-set (suc n) (y ∷ xs) x h = ap (◌∷◌ y) (take-suc-set n xs x (omega arith))

  pub drop-suc-set : (n : ℕ) (xs : List A) (x : A) → drop (suc n) (set xs n x) ≡ drop (suc n) xs
  drop-suc-set n [] x = refl
  drop-suc-set zero (y ∷ xs) x = refl
  drop-suc-set (suc n) (y ∷ xs) x = drop-suc-set n xs x

  pub drop-one_append :
      (n : ℕ) (xs r : List A) → n < length xs → drop 1 (drop n xs ++ r) ≡ drop (suc n) xs ++ r
  drop-one_append n [] r h = absurd (omega arith)
  drop-one_append zero (y ∷ xs) r h = refl
  drop-one_append (suc n) (y ∷ xs) r h = drop-one_append n xs r (omega arith)

  pub drop-append : (n : ℕ) (xs ys : List A) → n ≤ length xs → drop n (xs ++ ys) ≡ drop n xs ++ ys
  drop-append zero xs ys h = refl
  drop-append (suc n) [] ys h = absurd (omega arith)
  drop-append (suc n) (x ∷ xs) ys h = drop-append n xs ys (omega arith)

  pub drop-drop : (m n : ℕ) (xs : List A) → drop m (drop n xs) ≡ drop (n + m) xs
  drop-drop m zero xs = rw (add.zero m)
  drop-drop m (suc n) [] = drop_all m [] (omega arith) ∙ sym (drop_all (suc n + m) [] (omega arith))
  drop-drop m (suc n) (x ∷ xs) = rw (add.suc n m) (drop-drop m n xs)
