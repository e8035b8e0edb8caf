-- ===== src/Archive/Database/Chained.antt =====
-- Results that several statements are asked for.
use rs_smarthome_nodes.Base.{◌≡◌, refl, none, some, List, [], ◌∷◌, ◌++◌, All}
use rs_smarthome_nodes.Base.Bytes.{Bytes}
use rs_smarthome_nodes.Archive.Database.{Asked, ◌>>!◌}

pub All-append {ℓ κ} :
    {A : Type ℓ} (P : A → Type κ) (xs ys : List A) → All P xs → All P ys → All P (xs ++ ys)
All-append P [] ys h k = k
All-append P (x ∷ xs) ys (p, h) k = (p, All-append P xs ys h k)

module _ {ℓ κ} {A : Type ℓ} {B : Type κ} where
  -- A result has one of the first part.
  pub >>!-eq-some :
      (m : Asked A) (k : A → Asked B) {b : B}
      → (m >>! k).1 ≡ some b
      → (a : A) × (m.1 ≡ some a) × ((k a).1 ≡ some b)
  >>!-eq-some (asked, none) k h = cc
  >>!-eq-some (asked, some a) k h = (a, refl, h)

  -- What holds of the statements of both parts holds of all that are asked.
  pub >>!-All :
      (P : Bytes → Type 0) (m : Asked A) (k : A → Asked B)
      → All P (m.0)
      → ((a : A) → m.1 ≡ some a → All P (k a).0)
      → All P (m >>! k).0
  >>!-All P (asked, none) k h l = h
  >>!-All P (asked, some a) k h l = All-append P asked (k a).0 h (l a refl)
