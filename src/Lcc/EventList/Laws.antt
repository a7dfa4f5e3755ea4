-- ===== src/Lcc/EventList/Laws.antt =====
-- What adding an event to a list does, and removing one.
use train_utils.Common.{
  ℕ, zero, suc, ◌+◌, ◌≤◌, ◌<◌, ◌≡◌, refl, ap, sym, ◌∙◌, arith, Bool, true, false, ◌&&◌, ◌||◌, none,
  some, List, [], ◌∷◌, ◌++◌, if◌then◌else◌, ltb, ◌==◌, length, get_or, set, take, drop, replicate,
  length-append, length-set, length-take, length-drop, length-replicate, ◌⊎◌, take-append, take-set,
  Bool-cases, inl, inr,
}
use train_utils.Lcc.EventList.{
  EventList, used, sort, sort_front, push_event, push_any, sort_list, add_event, remove_loop,
  remove_event,
}
use train_utils.Lcc.EventList.Sort.{length-sort}

take-append_le : (n : ℕ) (xs ys : List ℕ) → n ≤ length xs → take n (xs ++ ys) ≡ take n xs
take-append_le zero xs ys h = refl
take-append_le (suc n) [] ys h = absurd (omega arith)
take-append_le (suc n) (x ∷ xs) ys h = ap (λ l. x ∷ l) (take-append_le n xs ys (omega arith))

-- An allocated list has room for one more event.
abbrev pub Holds : EventList → Type 0
Holds l = (a : List ℕ) × (l.event_array ≡ some a) × (length a ≡ l.size) × (l.len < l.size)

-- A list is not allocated and empty, or it is allocated.
abbrev pub IsList : EventList → Type 0
IsList l = ((l.event_array ≡ none) × (l.len ≡ 0)) ⊎ Holds l

push_event-Holds :
    (a : List ℕ) (size len id : ℕ)
    → length a ≡ size
    → len < size
    → Holds (push_event a size len id) × (used (push_event a size len id) ≡ take len a ++ (id ∷ []))
unfolding push_event
push_event-Holds a size len id e h = elim (Bool-cases (len + 1 == size)) [
  | inl p ↦ rw p (
    (
      set a len id ++ replicate size 0,
      refl,
      omega (
        arith,
        length-append {0} (set a len id) (replicate size 0),
        length-set {0} a len id,
        length-replicate {0} {A = ℕ} size 0,
      ),
      ground arith,
    ),
    ap (λ k. take k (set a len id ++ replicate size 0)) {x = len + 1} {y = suc len} (omega arith)
        ∙ take-append_le (suc len) (set a len id) (replicate size 0)
            (omega (arith, length-set {0} a len id))
        ∙ take-set a len id (omega arith),
  )
  | inr p ↦ rw p (
    (set a len id, refl, length-set a len id ∙ e, ground (arith, p)),
    ap (λ k. take k (set a len id)) {x = len + 1} {y = suc len} (omega arith)
        ∙ take-set a len id (omega arith),
  )
]

push_any-Holds :
    (l : EventList) (id : ℕ)
    → IsList l
    → Holds (push_any l id) × (used (push_any l id) ≡ used l ++ (id ∷ []))
unfolding push_any
push_any-Holds l id (inl (e, z)) =
    rw (e, z) (push_event-Holds (replicate 10 0) 10 0 id refl (omega arith))
push_any-Holds l id (inr (a, e, size, room)) = rw e (push_event-Holds a l.size l.len id size room)

pub sort_list-Holds :
    (l : EventList) → Holds l → Holds (sort_list l) × (used (sort_list l) ≡ sort (used l))
unfolding sort_list sort_front
sort_list-Holds l (a, e, size, room) =
    let n : length (sort (take l.len a)) ≡ l.len =
      omega (arith, length-sort (take l.len a), length-take {0} l.len a) in
    rw e (
      (
        sort (take l.len a) ++ drop l.len a,
        refl,
        omega (
          arith,
          n,
          length-append {0} (sort (take l.len a)) (drop l.len a),
          length-drop {0} l.len a,
        ),
        room,
      ),
      ap (λ k. take k (sort (take l.len a) ++ drop l.len a)) (sym n)
          ∙ take-append (sort (take l.len a)) (drop l.len a),
    )

-- An event that is added stands behind the others, and is then sorted in if that is asked for. The
-- list is again one with room.
pub add_event-Holds :
    (l : EventList) (id : ℕ) (sorted : Bool)
    → IsList l
    → Holds (add_event l id sorted)
      × (used (add_event l id sorted)
          ≡ (if sorted then sort (used l ++ (id ∷ [])) else used l ++ (id ∷ [])))
unfolding add_event
add_event-Holds l id false v = push_any-Holds l id v
add_event-Holds l id true v =
    let pushed = push_any-Holds l id v in
    let done = sort_list-Holds (push_any l id) pushed.0 in (done.0, done.1 ∙ ap sort pushed.1)

-- What the loop of `event_list_remove_event` leaves: from the event on, all but the last two places
-- take the next one's event.
abbrev pub shift_down : List ℕ → List ℕ
shift_down [] = []
shift_down (a ∷ []) = a ∷ []
shift_down (a ∷ b ∷ []) = a ∷ b ∷ []
shift_down (a ∷ b ∷ c ∷ r) = b ∷ shift_down (b ∷ c ∷ r)

abbrev pub removed : ℕ → List ℕ → List ℕ
removed id [] = []
removed id (x ∷ xs) = if x == id then shift_down (x ∷ xs) else x ∷ removed id xs

-- The loop beyond the first place.
remove_loop-cons :
    (k x : ℕ) (m : Bool) (n id y : ℕ) (ys : List ℕ)
    → remove_loop k (suc x) m (suc n) id (y ∷ ys) ≡ y ∷ remove_loop k x m n id ys
unfolding remove_loop
remove_loop-cons zero x m n id y ys = refl
remove_loop-cons (suc k) x m n id y ys =
    let e : suc x + 1 ≡ suc (x + 1) = omega arith in
    let t : ltb (suc x + 2) (suc n) ≡ ltb (x + 2) n = ground arith in
    let down = m || (get_or ys x 0 == id) in
    rw (e, t)
      (elim (Bool-cases (down && ltb (x + 2) n)) [
        | inl c ↦ rw c (remove_loop-cons k (x + 1) down n id y (set ys x (get_or ys (x + 1) 0)))
        | inr c ↦ rw c (remove_loop-cons k (x + 1) down n id y ys)
      ])

from_first :
    (k n id : ℕ) (m : Bool) (y : ℕ) (ys : List ℕ)
    → remove_loop k (0 + 1) m (suc n) id (y ∷ ys) ≡ y ∷ remove_loop k 0 m n id ys
from_first k n id m y ys =
    ap (λ x. remove_loop k x m (suc n) id (y ∷ ys)) {x = 0 + 1} {y = suc 0} (omega arith)
    ∙ remove_loop-cons k 0 m n id y ys

moving_down :
    (k id : ℕ) (a : List ℕ)
    → k ≤ length a
    → remove_loop k 0 true k id a ≡ shift_down (take k a) ++ drop k a
unfolding remove_loop
moving_down zero id a h = refl
moving_down (suc k) id [] h = absurd (omega arith)
moving_down (suc zero) id (x ∷ xs) h = refl
moving_down (suc (suc k)) id (x ∷ []) h = absurd (omega arith)
moving_down (suc (suc zero)) id (x ∷ y ∷ ys) h = refl
moving_down (suc (suc (suc k))) id (x ∷ y ∷ []) h = absurd (omega arith)
moving_down (suc (suc (suc k))) id (x ∷ y ∷ z ∷ zs) h =
    let rest = from_first (suc (suc k)) (suc (suc k)) id true y (y ∷ z ∷ zs) in
    let more = moving_down (suc (suc k)) id (y ∷ z ∷ zs) (omega arith) in
    let far : ltb (0 + 2) (suc (suc (suc k))) ≡ true = ground arith in
    rw far (rest ∙ ap (λ l. y ∷ l) more)

remove_loop_lem :
    (k id : ℕ) (a : List ℕ)
    → k ≤ length a
    → remove_loop k 0 false k id a ≡ removed id (take k a) ++ drop k a
unfolding remove_loop
remove_loop_lem zero id a h = refl
remove_loop_lem (suc k) id [] h = absurd (omega arith)
remove_loop_lem (suc k) id (x ∷ xs) h = elim (Bool-cases (x == id)) [
  | inl e ↦ rw e (moving_down (suc k) id (x ∷ xs) h)
  | inr e ↦
      rw e (from_first k k id false x xs ∙ ap (λ l. x ∷ l) (remove_loop_lem k id xs (omega arith)))
]

length-shift_down : (xs : List ℕ) → length (shift_down xs) ≡ length xs
length-shift_down [] = refl
length-shift_down (a ∷ []) = refl
length-shift_down (a ∷ b ∷ []) = refl
length-shift_down (a ∷ b ∷ c ∷ r) = ap suc (length-shift_down (b ∷ c ∷ r))

length-removed : (id : ℕ) (xs : List ℕ) → length (removed id xs) ≡ length xs
length-removed id [] = refl
length-removed id (x ∷ xs) = elim (Bool-cases (x == id)) [
  | inl e ↦ rw e (length-shift_down (x ∷ xs))
  | inr e ↦ rw e (ap suc (length-removed id xs))
]

-- Removing an event leaves the list as long as it was. From the first place of the event on, all
-- places but the last two take the event of the next place; those two, and the places before, stay
-- as they are.
pub remove_event_lem :
    (l : EventList) (id : ℕ)
    → IsList l
    → IsList (remove_event l id)
      × ((remove_event l id).len ≡ l.len)
      × (used (remove_event l id) ≡ removed id (used l))
unfolding remove_event
remove_event_lem l id (inl (e, z)) = rw (e, z) (inl (refl, refl), refl, refl)
remove_event_lem l id (inr (a, e, size, room)) =
    let after = remove_loop_lem l.len id a (omega arith) in
    let n : length (removed id (take l.len a)) ≡ l.len =
      omega (arith, length-removed id (take l.len a), length-take {0} l.len a) in
    rw (e, after)
      (
        inr (
          removed id (take l.len a) ++ drop l.len a,
          refl,
          omega (
            arith,
            n,
            length-append {0} (removed id (take l.len a)) (drop l.len a),
            length-drop {0} l.len a,
          ),
          room,
        ),
        refl,
        ap (λ k. take k (removed id (take l.len a) ++ drop l.len a)) (sym n)
            ∙ take-append (removed id (take l.len a)) (drop l.len a),
      )
