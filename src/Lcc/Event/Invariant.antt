-- ===== src/Lcc/Event/Invariant.antt =====
-- Outside a transaction the events of a node are sorted, so that they are found.
use train_utils.Common.{
  ℕ, take, ◌≤◌, ◌≡◌, refl, arith, Bool, true, false, not, List, [], ◌∷◌, ◌++◌, if◌then◌else◌, ◌==◌,
  has_bits, All, Bool-cases, inl, inr,
}
use train_utils.Lcc.EventList.{
  EventList, used, contains, add_event, remove_event, clear_list, sort_list, has_event,
}
use train_utils.Lcc.EventList.Sort.{IsSorted, sort-IsSorted}
use train_utils.Lcc.EventList.Laws.{
  IsList, shift_down, removed, add_event-Holds, sort_list-Holds, remove_event_lem,
}
use train_utils.Lcc.Event.{
  EventContext, event_new, EventCall, add_consumed, add_produced, remove_consumed, clear_events,
  produced_start, produced_end, consumed_start, consumed_end, set_incoming_event,
  set_consumer_state, set_producer_state, event_call,
}

-- A list that is sorted unless `open`.
pub record IsReady (l : EventList) (opened : Bool) : Type 0 where
  pub fine : IsList l
  pub sorted : opened ≡ false → IsSorted (used l)

pub record IsValid (e : EventContext) : Type 0 where
  pub consumed : IsReady e.events_consumed e.in_add_consumed_event_transaction
  pub produced : IsReady e.events_produced e.in_add_produced_event_transaction

All-shift_down : (x : ℕ) (xs : List ℕ) → All (λ y. x ≤ y) xs → All (λ y. x ≤ y) (shift_down xs)
All-shift_down x [] a = a
All-shift_down x (b ∷ []) a = a
All-shift_down x (b ∷ c ∷ []) a = a
All-shift_down x (b ∷ c ∷ d ∷ r) a = (a.1.0, All-shift_down x (c ∷ d ∷ r) a.1)

shift_down-IsSorted : (xs : List ℕ) → IsSorted xs → IsSorted (shift_down xs)
shift_down-IsSorted [] s = s
shift_down-IsSorted (b ∷ []) s = s
shift_down-IsSorted (b ∷ c ∷ []) s = s
shift_down-IsSorted (b ∷ c ∷ d ∷ r) s =
    (All-shift_down c (c ∷ d ∷ r) (omega arith, s.1.0), shift_down-IsSorted (c ∷ d ∷ r) s.1)

All-removed : (x id : ℕ) (xs : List ℕ) → All (λ y. x ≤ y) xs → All (λ y. x ≤ y) (removed id xs)
All-removed x id [] a = a
All-removed x id (y ∷ ys) a = elim (Bool-cases (y == id)) [
  | inl e ↦ rw e (All-shift_down x (y ∷ ys) a)
  | inr e ↦ rw e (a.0, All-removed x id ys a.1)
]

removed-IsSorted : (id : ℕ) (xs : List ℕ) → IsSorted xs → IsSorted (removed id xs)
removed-IsSorted id [] s = s
removed-IsSorted id (y ∷ ys) s = elim (Bool-cases (y == id)) [
  | inl e ↦ rw e (shift_down-IsSorted (y ∷ ys) s)
  | inr e ↦ rw e (All-removed y id ys s.0, removed-IsSorted id ys s.1)
]

add_event-IsReady :
    (l : EventList) (id : ℕ) (opened : Bool)
    → IsReady l opened
    → IsReady (add_event l id (not opened)) opened
add_event-IsReady l id true r = record {
  fine = inr (add_event-Holds l id false r.fine).0;
  sorted = λ h. ground (arith, h);
}
add_event-IsReady l id false r =
    let added = add_event-Holds l id true r.fine in
    record { fine = inr added.0; sorted = λ h. rw added.1 (sort-IsSorted (used l ++ (id ∷ []))) }

sort_list-IsReady : (l : EventList) → IsList l → IsReady (sort_list l) false
unfolding sort_list
sort_list-IsReady l (inl (e, z)) = record {
  fine = rw e (inl (refl, z));
  sorted = λ h. rw (e, z) tt;
}
sort_list-IsReady l (inr holds) =
    let done = sort_list-Holds l holds in
    record { fine = inr done.0; sorted = λ h. rw done.1 (sort-IsSorted (used l)) }

remove_event-IsReady :
    (l : EventList) (id : ℕ) (opened : Bool) → IsReady l opened → IsReady (remove_event l id) opened
remove_event-IsReady l id opened r =
    let done = remove_event_lem l id r.fine in
    record { fine = done.0; sorted = λ h. rw done.2 (removed-IsSorted id (used l) (r.sorted h)) }

clear_list-IsReady :
    (l : EventList) (opened clear : Bool)
    → IsReady l opened
    → IsReady (if clear then clear_list l else l) opened
unfolding clear_list
clear_list-IsReady l opened false r = r
clear_list-IsReady l opened true r = record { fine = cleared r.fine; sorted = λ h. tt }
  where
    cleared : IsList l → IsList (clear_list l)
    cleared (inl (e, z)) = inl (e, refl)
    cleared (inr (a, e, size, room)) = inr (a, e, size, omega arith)

event_call-IsValid : (e : EventContext) (x : EventCall) → IsValid e → IsValid (event_call e x)
unfolding event_call
event_call-IsValid e (add_consumed id) v = record {
  consumed = add_event-IsReady _ id _ v.consumed;
  produced = v.produced;
}
event_call-IsValid e (add_produced id) v = record {
  consumed = v.consumed;
  produced = add_event-IsReady _ id _ v.produced;
}
event_call-IsValid e (remove_consumed id) v = record {
  consumed = remove_event-IsReady _ id _ v.consumed;
  produced = v.produced;
}
event_call-IsValid e (clear_events flags) v = record {
  consumed = clear_list-IsReady _ _ (has_bits flags 2) v.consumed;
  produced = clear_list-IsReady _ _ (has_bits flags 1) v.produced;
}
event_call-IsValid e produced_start v = record {
  consumed = v.consumed;
  produced = record { fine = v.produced.fine; sorted = λ h. ground (arith, h) };
}
event_call-IsValid e produced_end v = record {
  consumed = v.consumed;
  produced = sort_list-IsReady _ v.produced.fine;
}
event_call-IsValid e consumed_start v = record {
  consumed = record { fine = v.consumed.fine; sorted = λ h. ground (arith, h) };
  produced = v.produced;
}
event_call-IsValid e consumed_end v = record {
  consumed = sort_list-IsReady _ v.consumed.fine;
  produced = v.produced;
}
event_call-IsValid e (set_incoming_event f) v = record {
  consumed = v.consumed;
  produced = v.produced;
}
event_call-IsValid e (set_consumer_state f) v = record {
  consumed = v.consumed;
  produced = v.produced;
}
event_call-IsValid e (set_producer_state f) v = record {
  consumed = v.consumed;
  produced = v.produced;
}

unfoldable pub event_calls : EventContext → List EventCall → EventContext
event_calls e [] = e
event_calls e (x ∷ xs) = event_calls (event_call e x) xs

pub event_calls-IsValid :
    (e : EventContext) (xs : List EventCall) → IsValid e → IsValid (event_calls e xs)
unfolding event_calls
event_calls-IsValid e [] v = v
event_calls-IsValid e (x ∷ xs) v =
    event_calls-IsValid (event_call e x) xs (event_call-IsValid e x v)

pub event_new-IsValid : IsValid event_new
unfolding event_new
event_new-IsValid = record {
  consumed = record { fine = inl (refl, refl); sorted = λ h. tt };
  produced = record { fine = inl (refl, refl); sorted = λ h. tt };
}

-- What the code relies on of `bsearch`: in a sorted list it finds just what is there.
abbrev pub Finds : (ℕ → List ℕ → Bool) → Type 0
Finds bsearch = (id : ℕ) (xs : List ℕ) → IsSorted xs → bsearch id xs ≡ contains id xs

pub has_event_lem :
    (bsearch : ℕ → List ℕ → Bool)
    → Finds bsearch
    → (l : EventList) (id : ℕ) → IsReady l false
    → has_event bsearch l id ≡ contains id (used l)
unfolding has_event
has_event_lem bsearch finds l id r = by_list r.fine
  where
    by_list : IsList l → has_event bsearch l id ≡ contains id (used l)
    by_list (inl (e, z)) = rw (e, z) refl
    by_list (inr (a, e, size, room)) = rw e (finds id (take l.len a) (rw e at (r.sorted refl)))

-- After any calls from a new context on that leave no transaction open, an event is found among the
-- consumed events just when it is in their list, whatever was added, removed or cleared; and so for
-- the produced events.
pub events_found :
    (bsearch : ℕ → List ℕ → Bool) (xs : List EventCall) (id : ℕ)
    → Finds bsearch
    → (event_calls event_new xs).in_add_consumed_event_transaction ≡ false
    → (event_calls event_new xs).in_add_produced_event_transaction ≡ false
    → (has_event bsearch (event_calls event_new xs).events_consumed id
        ≡ contains id (used (event_calls event_new xs).events_consumed))
      × (has_event bsearch (event_calls event_new xs).events_produced id
          ≡ contains id (used (event_calls event_new xs).events_produced))
events_found bsearch xs id finds h k =
    let v = event_calls-IsValid event_new xs event_new-IsValid in
    let e = event_calls event_new xs in
    (
      has_event_lem bsearch finds e.events_consumed id
          (record { fine = v.consumed.fine; sorted = λ o. v.consumed.sorted h }),
      has_event_lem bsearch finds e.events_produced id
          (record { fine = v.produced.fine; sorted = λ o. v.produced.sorted k }),
    )
