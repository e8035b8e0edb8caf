-- ===== src/Presence/Sorting.antt =====
-- `sort_unstable` on `i32`: any sorting of a list of integers gives the same list; it is written
-- here as insertion.
use rs_smarthome_nodes.Base.{
  All, List, [], ◌∷◌, ◌++◌, ◌≡◌, refl, ap, sym, append-nil, ◌∙◌, if◌then◌else◌, length, suc, arith,
  Bool-cases, inl, inr,
}
use rs_smarthome_nodes.Base.Int.{ℤ, ltb_ℤ, ◌≤ℤ◌, eq_of_parts}

unfoldable pub insert : ℤ → List ℤ → List ℤ
insert x [] = x ∷ []
insert x (y ∷ ys) = if ltb_ℤ y x then y ∷ insert x ys else x ∷ y ∷ ys

unfoldable pub sort : List ℤ → List ℤ
unfolding insert
sort [] = []
sort (x ∷ xs) = insert x (sort xs)

-- Two insertions commute, so the order of the input does not matter.
insert_comm : (x y : ℤ) (zs : List ℤ) → insert x (insert y zs) ≡ insert y (insert x zs)
unfolding insert
insert_comm x y [] = ground (arith, eq_of_parts x y)
insert_comm x y (z ∷ zs) = ground (arith, eq_of_parts x y, insert_comm x y zs)

sort-append_middle : (x : ℤ) (xs ys : List ℤ) → sort (xs ++ (x ∷ ys)) ≡ insert x (sort (xs ++ ys))
unfolding sort
sort-append_middle x [] ys = refl
sort-append_middle x (z ∷ xs) ys =
    ap (insert z) (sort-append_middle x xs ys) ∙ insert_comm z x (sort (xs ++ ys))

-- Sorting forgets which of two parts of a list stands first.
pub sort-append_swap : (xs ys : List ℤ) → sort (xs ++ ys) ≡ sort (ys ++ xs)
unfolding sort
sort-append_swap [] ys = rw append-nil
sort-append_swap (x ∷ xs) ys =
    ap (insert x) (sort-append_swap xs ys) ∙ sym (sort-append_middle x ys xs)

-- What a sorted list is.
abbrev pub IsSorted : List ℤ → Type 0
IsSorted [] = Unit
IsSorted (x ∷ xs) = All (λ y. x ≤ℤ y) xs × IsSorted xs

pub All-insert {κ} : (P : ℤ → Type κ) (x : ℤ) (ys : List ℤ) → P x → All P ys → All P (insert x ys)
unfolding insert
All-insert P x [] p h = (p, tt)
All-insert P x (y ∷ ys) p (q, h) = elim (Bool-cases (ltb_ℤ y x)) [
  | inl e ↦ rw e (q, All-insert P x ys p h)
  | inr e ↦ rw e (p, (q, h))
]

All-weaken : (x y : ℤ) (zs : List ℤ) → x ≤ℤ y → All (λ z. y ≤ℤ z) zs → All (λ z. x ≤ℤ z) zs
All-weaken x y [] h a = tt
All-weaken x y (z ∷ zs) h (p, a) = (omega arith, All-weaken x y zs h a)

insert-IsSorted : (x : ℤ) (ys : List ℤ) → IsSorted ys → IsSorted (insert x ys)
unfolding insert
insert-IsSorted x [] h = (tt, tt)
insert-IsSorted x (y ∷ ys) (a, h) = elim (Bool-cases (ltb_ℤ y x)) [
  | inl e ↦ rw e (All-insert (λ z. y ≤ℤ z) x ys (ground arith) a, insert-IsSorted x ys h)
  | inr e ↦ rw e ((ground arith, All-weaken x y ys (ground arith) a), (a, h))
]

pub sort-IsSorted : (xs : List ℤ) → IsSorted (sort xs)
unfolding sort
sort-IsSorted [] = tt
sort-IsSorted (x ∷ xs) = insert-IsSorted x (sort xs) (sort-IsSorted xs)

pub All-sort {κ} : (P : ℤ → Type κ) (xs : List ℤ) → All P xs → All P (sort xs)
unfolding sort
All-sort P [] h = tt
All-sort P (x ∷ xs) (p, h) = All-insert P x (sort xs) p (All-sort P xs h)

length-insert : (x : ℤ) (ys : List ℤ) → length (insert x ys) ≡ suc (length ys)
unfolding insert
length-insert x [] = refl
length-insert x (y ∷ ys) = ground (arith, length-insert x ys)

pub length-sort : (xs : List ℤ) → length (sort xs) ≡ length xs
unfolding sort
length-sort [] = refl
length-sort (x ∷ xs) = omega (arith, length-insert x (sort xs), length-sort xs)
