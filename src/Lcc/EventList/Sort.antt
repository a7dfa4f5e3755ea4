-- ===== src/Lcc/EventList/Sort.antt =====
-- Sorted lists of events.
use train_utils.Common.{
  ℕ, suc, length, ◌+◌, ◌≤◌, ◌≡◌, refl, ap, ◌∙◌, arith, ◌||◌, List, [], ◌∷◌, ◌++◌, if◌then◌else◌,
  leb, ◌==◌, All, Bool-cases, inl, inr,
}
use train_utils.Lcc.EventList.{insert, sort, contains}

abbrev pub IsSorted : List ℕ → Type 0
IsSorted [] = Unit
IsSorted (x ∷ xs) = All (λ y. x ≤ y) xs × IsSorted xs

All-le_trans : (x y : ℕ) (ys : List ℕ) → x ≤ y → All (λ z. y ≤ z) ys → All (λ z. x ≤ z) ys
All-le_trans x y [] h a = tt
All-le_trans x y (z ∷ zs) h a = (omega arith, All-le_trans x y zs h a.1)

All-insert : (x y : ℕ) (ys : List ℕ) → x ≤ y → All (λ z. x ≤ z) ys → All (λ z. x ≤ z) (insert y ys)
unfolding insert
All-insert x y [] h a = (h, tt)
All-insert x y (z ∷ zs) h a = elim (Bool-cases (leb y z)) [
  | inl e ↦ rw e (h, a)
  | inr e ↦ rw e (a.0, All-insert x y zs h a.1)
]

insert-IsSorted : (x : ℕ) (xs : List ℕ) → IsSorted xs → IsSorted (insert x xs)
unfolding insert
insert-IsSorted x [] s = (tt, tt)
insert-IsSorted x (y ∷ ys) s = elim (Bool-cases (leb x y)) [
  | inl e ↦ rw e ((ground (arith, e), All-le_trans x y ys (ground (arith, e)) s.0), s)
  | inr e ↦ rw e (All-insert y x ys (ground (arith, e)) s.0, insert-IsSorted x ys s.1)
]

pub sort-IsSorted : (xs : List ℕ) → IsSorted (sort xs)
unfolding sort
sort-IsSorted [] = tt
sort-IsSorted (x ∷ xs) = insert-IsSorted x (sort xs) (sort-IsSorted xs)

-- How often an event stands in a list.
abbrev pub count : ℕ → List ℕ → ℕ
count id [] = 0
count id (x ∷ xs) = (if x == id then 1 else 0) + count id xs

count-insert : (id x : ℕ) (xs : List ℕ) → count id (insert x xs) ≡ count id (x ∷ xs)
unfolding insert
count-insert id x [] = refl
count-insert id x (y ∷ ys) = ground (arith, count-insert id x ys)

pub count-sort : (id : ℕ) (xs : List ℕ) → count id (sort xs) ≡ count id xs
unfolding sort
count-sort id [] = refl
count-sort id (x ∷ xs) = omega (arith, count-insert id x (sort xs), count-sort id xs)

pub count-append : (id : ℕ) (xs ys : List ℕ) → count id (xs ++ ys) ≡ count id xs + count id ys
count-append id [] ys = omega arith
count-append id (x ∷ xs) ys = omega (arith, count-append id xs ys)

contains-insert : (id x : ℕ) (xs : List ℕ) → contains id (insert x xs) ≡ contains id (x ∷ xs)
unfolding insert
contains-insert id x [] = refl
contains-insert id x (y ∷ ys) = ground (arith, contains-insert id x ys)

pub contains-sort : (id : ℕ) (xs : List ℕ) → contains id (sort xs) ≡ contains id xs
unfolding sort
contains-sort id [] = refl
contains-sort id (x ∷ xs) =
    contains-insert id x (sort xs) ∙ ap (λ b. (x == id) || b) (contains-sort id xs)

pub contains-append :
    (id : ℕ) (xs ys : List ℕ) → contains id (xs ++ ys) ≡ (contains id xs || contains id ys)
contains-append id [] ys = refl
contains-append id (x ∷ xs) ys = ground (arith, contains-append id xs ys)

pub length-sort : (xs : List ℕ) → length (sort xs) ≡ length xs
unfolding sort insert
length-sort [] = refl
length-sort (x ∷ xs) = length-insert x (sort xs) ∙ ap suc (length-sort xs)
  where
    length-insert : (x : ℕ) (xs : List ℕ) → length (insert x xs) ≡ suc (length xs)
    length-insert x [] = refl
    length-insert x (y ∷ ys) = ground (arith, length-insert x ys)
