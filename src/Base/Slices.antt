-- ===== src/Base/Slices.antt =====
-- Slices of a buffer that is put together from parts.
use Prim.Native.Nat.add
use Prim.Native.Nat.{ℕ, zero, suc, ◌+◌, ◌≤◌}
use mathlib.Core.Path.{◌≡◌, refl, ap}
use mathlib.Core.List.{List, [], ◌∷◌, ◌++◌}
use native.Mathlib.Omega.{arith}
use rs_smarthome_nodes.Base.Lists.{length, get_or, take, drop, copy_at}

module _ {ℓ} {A : Type ℓ} where
  -- A copy that fits the first part leaves the second alone.
  pub copy_at-append_left :
      (a b src : List A) → length src ≤ length a → copy_at (a ++ b) 0 src ≡ copy_at a 0 src ++ b
  copy_at-append_left [] [] [] h = refl
  copy_at-append_left [] (x ∷ b) [] h = refl
  copy_at-append_left [] b (s ∷ src) h = absurd (omega arith)
  copy_at-append_left (x ∷ a) b [] h = refl
  copy_at-append_left (x ∷ a) b (s ∷ src) h = ap (◌∷◌ s) (copy_at-append_left a b src (omega arith))

  -- A copy that begins behind the first part leaves it alone.
  pub copy_at-append_right :
      (a b : List A) (at : ℕ) (src : List A)
      → at ≡ length a
      → copy_at (a ++ b) at src ≡ a ++ copy_at b 0 src
  copy_at-append_right [] b zero src e = refl
  copy_at-append_right [] b (suc at) src e = absurd (omega arith)
  copy_at-append_right (x ∷ a) b zero src e = absurd (omega arith)
  copy_at-append_right (x ∷ a) b (suc at) src e =
      ap (◌∷◌ x) (copy_at-append_right a b at src (omega arith))

  pub get_or-append_right :
      (a b : List A) (i : ℕ) (d : A) → get_or (a ++ b) (length a + i) d ≡ get_or b i d
  get_or-append_right [] b i d = rw (add.zero i)
  get_or-append_right (x ∷ a) b i d = rw (add.suc (length a) i) (get_or-append_right a b i d)

  pub take-append_left : (a b : List A) (n : ℕ) → n ≤ length a → take n (a ++ b) ≡ take n a
  take-append_left a b zero h = refl
  take-append_left [] b (suc n) h = absurd (omega arith)
  take-append_left (x ∷ a) b (suc n) h = ap (◌∷◌ x) (take-append_left a b n (omega arith))

  pub take-append_right : (a b : List A) (n : ℕ) → n ≡ length a → take n (a ++ b) ≡ a
  take-append_right [] b zero e = refl
  take-append_right [] b (suc n) e = absurd (omega arith)
  take-append_right (x ∷ a) b zero e = absurd (omega arith)
  take-append_right (x ∷ a) b (suc n) e = ap (◌∷◌ x) (take-append_right a b n (omega arith))

  pub drop-append_right : (a b : List A) (n : ℕ) → n ≡ length a → drop n (a ++ b) ≡ b
  drop-append_right [] b zero e = refl
  drop-append_right [] b (suc n) e = absurd (omega arith)
  drop-append_right (x ∷ a) b zero e = absurd (omega arith)
  drop-append_right (x ∷ a) b (suc n) e = drop-append_right a b n (omega arith)

  -- What was copied to the front is read from the front.
  pub take-copy_at :
      (b src : List A) → length src ≤ length b → take (length src) (copy_at b 0 src) ≡ src
  take-copy_at b [] h = refl
  take-copy_at [] (s ∷ src) h = absurd (omega arith)
  take-copy_at (x ∷ b) (s ∷ src) h = ap (◌∷◌ s) (take-copy_at b src (omega arith))

  -- What was copied behind a beginning stands behind it.
  pub take-copy_at_behind :
      (b src : List A) (at n : ℕ)
      → n ≡ at + length src
      → n ≤ length b
      → take n (copy_at b at src) ≡ take at b ++ src
  take-copy_at_behind b src zero n e h =
      let e' : n ≡ length src = omega arith in rw e' (take-copy_at b src (omega arith))
  take-copy_at_behind [] src (suc at) n e h = absurd (omega arith)
  take-copy_at_behind (x ∷ b) src (suc at) zero e h = absurd (omega arith)
  take-copy_at_behind (x ∷ b) src (suc at) (suc n) e h =
      ap (◌∷◌ x) (take-copy_at_behind b src at n (omega arith) (omega arith))
