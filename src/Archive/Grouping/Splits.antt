-- ===== src/Archive/Grouping/Splits.antt =====
-- What the loop over rows leaves: every key once, with its values in their order.
use rs_smarthome_nodes.Base.{
  ◌≡◌, refl, ap, sym, ◌∙◌, Bool, true, false, Option, none, some, List, [], ◌∷◌, ◌++◌, arith,
  append-nil, append_assoc, if◌then◌else◌,
}
use rs_smarthome_nodes.Base.Keyed.{Key, same, get}
use rs_smarthome_nodes.Archive.Grouping.{push_into, group_onto, grouped}

module _ {κ} {V : Type κ} where
  abbrev pub joined : Option (List V) → List V → Option (List V)
  joined none [] = none
  joined none (v ∷ vs) = some (v ∷ vs)
  joined (some us) vs = some (us ++ vs)

  joined-nil : (o : Option (List V)) → joined o [] ≡ o
  joined-nil none = refl
  joined-nil (some us) = ap some (append-nil us)

  joined-joined :
      (o : Option (List V)) (v : V) (vs : List V)
      → joined (joined o (v ∷ [])) vs ≡ joined o (v ∷ vs)
  joined-joined none v vs = refl
  joined-joined (some us) v vs = ap some (append_assoc us (v ∷ []) vs)

  joined-if :
      (w : Bool) (o : Option (List V)) (v : V) (vs : List V)
      → joined (if w then joined o (v ∷ []) else o) vs ≡ joined o (if w then v ∷ vs else vs)
  joined-if true o v vs = joined-joined o v vs
  joined-if false o v vs = refl

module _ {ℓ κ} {K : Type ℓ} {V : Type κ} ⦃k : Key K⦄ where
  -- The values of one key, in the order of the rows.
  unfoldable pub values : K → List (K × V) → List V
  values key [] = []
  values key ((a, v) ∷ rows) = let rest = values key rows in if same a key then v ∷ rest else rest

  -- Every key stands once.
  unfoldable pub AreDistinct : List (K × List V) → Type κ
  AreDistinct [] = Unit {κ}
  AreDistinct ((a, vs) ∷ out) = (get out a ≡ none) × AreDistinct out

  pub get-push_into :
      (out : List (K × List V)) (key b : K) (v : V)
      → get (push_into out key v) b
        ≡ (if same key b then joined (get out b) (v ∷ []) else get out b)
  unfolding get push_into
  get-push_into [] key b v = ground arith
  get-push_into ((a, vs) ∷ out) key b v = ground (
    arith,
    get-push_into out key b v,
    k.same→eq key b,
    k.same→eq a b,
    k.same→eq a key,
    k.same_refl a,
  )

  get-group_onto :
      (rows : List (K × V)) (out : List (K × List V)) (b : K)
      → get (group_onto out rows) b ≡ joined (get out b) (values b rows)
  unfolding group_onto values
  get-group_onto [] out b = sym (joined-nil (get out b))
  get-group_onto ((key, v) ∷ rows) out b =
      get-group_onto rows (push_into out key v) b
      ∙ ap (λ o. joined o (values b rows)) (get-push_into out key b v)
      ∙ joined-if (same key b) (get out b) v (values b rows)

  push_into-AreDistinct :
      (out : List (K × List V)) (key : K) (v : V)
      → AreDistinct out
      → AreDistinct (push_into out key v)
  unfolding push_into AreDistinct get
  push_into-AreDistinct [] key v d = (refl, tt)
  push_into-AreDistinct ((a, vs) ∷ out) key v (h, d) = ground (
    arith,
    push_into-AreDistinct out key v d,
    get-push_into out key a v,
    k.same→eq key a,
    k.same_refl a,
  )

  group_onto-AreDistinct :
      (rows : List (K × V)) (out : List (K × List V))
      → AreDistinct out
      → AreDistinct (group_onto out rows)
  unfolding group_onto
  group_onto-AreDistinct [] out d = d
  group_onto-AreDistinct ((key, v) ∷ rows) out d =
      group_onto-AreDistinct rows (push_into out key v) (push_into-AreDistinct out key v d)

  pub get-grouped :
      (rows : List (K × V)) (b : K) → get (grouped rows) b ≡ joined none (values b rows)
  get-grouped rows b = get-group_onto rows [] b ∙ (unfold get in refl)

  pub grouped-AreDistinct : (rows : List (K × V)) → AreDistinct (grouped rows)
  grouped-AreDistinct rows = group_onto-AreDistinct rows [] (unfold AreDistinct in tt)
