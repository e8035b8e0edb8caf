-- ===== src/Base/Keyed.antt =====
-- Hash maps as association lists over keys that can be compared. Iteration order is that of no map
-- of the program, so only what is stored matters.
use mathlib.Core.Path.{◌≡◌}
use mathlib.Core.Bool.{Bool, true, ◌&&◌}
use mathlib.Core.List.{List, [], ◌∷◌}
use mathlib.Core.Option.{Option, none, some}
use native.Mathlib.Omega.{arith}
use rs_smarthome_nodes.Base.Bytes.{Bytes}
use rs_smarthome_nodes.Base.Tests.{if◌then◌else◌}
use rs_smarthome_nodes.Base.Text.{bytes_eq, bytes_eq→eq, bytes_eq_refl}

pub record Key {ℓ} (K : Type ℓ) : Type ℓ where
  pub same : K → K → Bool
  pub same→eq : (a b : K) → same a b ≡ true → a ≡ b
  pub same_refl : (a : K) → same a a ≡ true

abbrev pub pair_same : Bytes × Bytes → Bytes × Bytes → Bool
pair_same (a, b) (c, d) = bytes_eq a c && bytes_eq b d

pub pair_same→eq : (a b : Bytes × Bytes) → pair_same a b ≡ true → a ≡ b
pair_same→eq (a, b) (c, d) h = ground (arith, bytes_eq→eq a c, bytes_eq→eq b d)

pub pair_same_refl : (a : Bytes × Bytes) → pair_same a a ≡ true
pair_same_refl (a, b) = ground (arith, bytes_eq_refl a, bytes_eq_refl b)

-- A node, and a channel of a node.
instance abbrev pub bytes_key : Key Bytes
bytes_key = record { same = bytes_eq; same→eq = bytes_eq→eq; same_refl = bytes_eq_refl }

instance abbrev pub pair_key : Key (Bytes × Bytes)
pair_key = record { same = pair_same; same→eq = pair_same→eq; same_refl = pair_same_refl }

abbrev pub same {ℓ} : {K : Type ℓ} ⦃k : Key K⦄ → K → K → Bool
same ⦃k⦄ = k.same

module _ {ℓ κ} {K : Type ℓ} {V : Type κ} ⦃k : Key K⦄ where
  unfoldable pub get : List (K × V) → K → Option V
  get [] a = none
  get ((b, v) ∷ m) a = if same b a then some v else get m a

  unfoldable pub remove : List (K × V) → K → List (K × V)
  remove [] a = []
  remove ((b, v) ∷ m) a = let rest = remove m a in if same b a then rest else (b, v) ∷ rest

  unfoldable pub insert : List (K × V) → K → V → List (K × V)
  insert m a v = (a, v) ∷ remove m a

  pub get-remove :
      (m : List (K × V)) (a b : K) → get (remove m a) b ≡ (if same a b then none else get m b)
  unfolding get remove
  get-remove [] a b = ground arith
  get-remove ((c, v) ∷ m) a b =
      ground (arith, get-remove m a b, k.same→eq a b, k.same→eq c b, k.same→eq c a, k.same_refl c)

  pub get-insert :
      (m : List (K × V)) (a b : K) (v : V)
      → get (insert m a v) b ≡ (if same a b then some v else get m b)
  unfolding get insert
  get-insert m a b v = ground (arith, get-remove m a b)
