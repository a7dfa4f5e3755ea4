-- ===== src/Lcc/EventList.antt =====
-- LCC/lcc-common-internal.c: the lists of events, in the build that allocates them.
-- `qsort` is a function that sorts; `bsearch` is a parameter.
pub mod Sort
pub mod Laws
use train_utils.Common.{
  ℕ, zero, suc, ◌+◌, ◌-◌, ◌*◌, Bool, true, false, ◌&&◌, ◌||◌, Option, none, some, List, [], ◌∷◌,
  ◌++◌, if◌then◌else◌, ltb, leb, ◌==◌, get_or, set, take, drop, replicate,
}

unfoldable pub insert : ℕ → List ℕ → List ℕ
insert x [] = x ∷ []
insert x (y ∷ ys) = if leb x y then x ∷ y ∷ ys else y ∷ insert x ys

unfoldable pub sort : List ℕ → List ℕ
sort [] = []
sort (x ∷ xs) = insert x (sort xs)

abbrev pub contains : ℕ → List ℕ → Bool
contains id [] = false
contains id (x ∷ xs) = (x == id) || contains id xs

-- `struct event_list`; the array is the whole allocation, and `none` is NULL. What `malloc` leaves in
-- it is 0 here: no function reads a place before it writes it.
pub record EventList : Type 0 where
  pub event_array : Option (List ℕ)
  pub size : ℕ
  pub len : ℕ

abbrev pub new_list : EventList
new_list = record { event_array = none; size = 0; len = 0 }

abbrev pub array : EventList → List ℕ
array l = elim l.event_array [ none ↦ [] | some a ↦ a ]

-- The events of a list.
abbrev pub used : EventList → List ℕ
used l = take l.len (array l)

-- `qsort` of the first `n` places.
unfoldable pub sort_front : ℕ → List ℕ → List ℕ
sort_front n a = sort (take n a) ++ drop n a

-- One more event in an array with room for it; a full array doubles.
unfoldable pub push_event : List ℕ → ℕ → ℕ → ℕ → EventList
push_event a size len id =
    let pushed = set a len id in
    if len + 1 == size
    then record { event_array = some (pushed ++ replicate size 0); size = size * 2; len = len + 1 }
    else record { event_array = some pushed; size = size; len = len + 1 }

unfoldable pub sort_list : EventList → EventList
sort_list l = elim l.event_array [
  | none ↦ l
  | some a ↦ record l { event_array = some (sort_front l.len a) }
]

unfoldable pub push_any : EventList → ℕ → EventList
push_any l id = elim l.event_array [
  | none ↦ push_event (replicate 10 0) 10 l.len id
  | some a ↦ push_event a l.size l.len id
]

unfoldable pub add_event : EventList → ℕ → Bool → EventList
add_event l id sorted = let pushed = push_any l id in if sorted then sort_list pushed else pushed

-- The loop from place `x` on, for `k` more places of the `len`.
unfoldable pub remove_loop : ℕ → ℕ → Bool → ℕ → ℕ → List ℕ → List ℕ
remove_loop zero x moving len id a = a
remove_loop (suc k) x moving len id a =
    let down = moving || (get_or a x 0 == id) in
    remove_loop k (x + 1) down len id
      (if down && ltb (x + 2) len then set a x (get_or a (x + 1) 0) else a)

-- `found` is never set, so `len` stays.
unfoldable pub remove_event : EventList → ℕ → EventList
remove_event l id = elim l.event_array [
  | none ↦ l
  | some a ↦ record l { event_array = some (remove_loop l.len 0 false l.len id a) }
]

unfoldable pub clear_list : EventList → EventList
clear_list l = record l { len = 0 }

unfoldable pub has_event : (ℕ → List ℕ → Bool) → EventList → ℕ → Bool
has_event bsearch l id = elim l.event_array [ none ↦ false | some a ↦ bsearch id (take l.len a) ]
