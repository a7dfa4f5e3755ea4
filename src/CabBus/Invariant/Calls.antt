-- ===== src/CabBus/Invariant/Calls.antt =====
-- CabBusCommunications/CabBus.c: the invariant of a bus, under the calls of its client.
use train_utils.Common.{
  ℕ, suc, ◌+◌, ◌≡◌, refl, ap, ◌∙◌, inl, inr, Bool, arith, Option, none, some, List, [], ◌∷◌, map,
  if◌then◌else◌, ltb, Bool-cases, All, length, u32,
}
use train_utils.CabBus.Cab.{
  Cab, forward, reverse, set_time, set_direction, user_message, ask_question,
}
use train_utils.CabBus.Changes.{
  CabCall, loco_number, loco_speed, time_of_day, function_state, run_direction, apply_call,
}
use train_utils.CabBus.Bus.{
  BusContext, new_bus, cab_at, ping_step1, ping_step2, incoming_byte, put_cab, set_all_cab_times,
  set_bus_user_data,
}
use train_utils.CabBus.Polling.{at, next_any, step_of}
use train_utils.CabBus.Invariant.{
  IsValid, set_time-IsValid, set_loco_number-IsValid, speed-IsValid, set_functions-IsValid,
  user_message-IsValid, ask_question-IsValid,
}
use train_utils.CabBus.Invariant.Parts.{
  IsBus, new_bus-IsBus, cab_at-IsValid, put_cab-IsBus, incoming_byte-IsBus, at-IsBus, step2-IsBus,
}

-- The calls of a client and of the interrupt. A client has the cabs below 64; a call on another one
-- is none here.
pub data BusCall : Type 0 where
  step1 : BusCall
  step2 : (ℕ → List ℕ) → BusCall
  incoming : ℕ → BusCall
  on_cab : ℕ → CabCall → BusCall
  message question : ℕ → List ℕ → BusCall
  all_times : ℕ → ℕ → Bool → BusCall
  user_pointer : ℕ → BusCall

abbrev context_of : {A : Type 0} → Option (BusContext × A) → Option BusContext
context_of none = none
context_of (some (c, x)) = some c

abbrev change_cab : BusContext → ℕ → (Cab → Cab) → BusContext
change_cab c id f = if ltb id 64 then put_cab c id (f (cab_at c id)) else c

abbrev pub bus_call : BusContext → BusCall → Option BusContext
bus_call c step1 = context_of (ping_step1 c)
bus_call c (step2 arrivals) = some (ping_step2 arrivals c).context
bus_call c (incoming byte) = some (incoming_byte c byte)
bus_call c (on_cab id k) = some (change_cab c id (λ d. apply_call d k))
bus_call c (message id text) = some (change_cab c id (λ d. user_message d text))
bus_call c (question id text) = some (change_cab c id (λ d. ask_question d text))
bus_call c (all_times hours minutes am) = some (set_all_cab_times c hours minutes am)
bus_call c (user_pointer p) = some (set_bus_user_data c p)

abbrev pub bus_calls : Option BusContext → List BusCall → Option BusContext
bus_calls none ks = none
bus_calls (some c) [] = some c
bus_calls (some c) (k ∷ ks) = bus_calls (bus_call c k) ks

module _ (c : BusContext) (v : IsBus c) where
  change_cab-IsBus :
      (id : ℕ) (f : Cab → Cab) → ((d : Cab) → IsValid d → IsValid (f d)) → IsBus (change_cab c id f)
  change_cab-IsBus id f w = elim (Bool-cases (ltb id 64)) [
    | inl e ↦
        rw e (put_cab-IsBus c v id (f (cab_at c id)) (w (cab_at c id) (cab_at-IsValid c v id)))
    | inr e ↦ rw e v
  ]

  step1-IsBus : (d : BusContext) × (context_of (ping_step1 c) ≡ some d) × IsBus d
  step1-IsBus = elim (next_any 64 c c.current_cab_addr v.current (omega arith)) [
    | inl (b, e, gt, lt) ↦
        (let (evs, s) = step_of c b c.ping_num e in
          (at c b c.ping_num, ap context_of s, at-IsBus c v b c.ping_num lt v.pings))
    | inr e ↦
        (let (evs, s) = step_of c 0 (u32 (c.ping_num + 1)) e in
          (
            at c 0 (u32 (c.ping_num + 1)),
            ap context_of s,
            at-IsBus c v 0 _ (omega arith) (omega arith),
          ))
  ]

All-times :
    (hours minutes : ℕ) (am : Bool) (cs : List Cab)
    → All IsValid cs
    → (length (map (λ d. set_time d hours minutes am) cs) ≡ length cs)
      × All IsValid (map (λ d. set_time d hours minutes am) cs)
All-times hours minutes am [] v = (refl, tt)
All-times hours minutes am (c ∷ cs) v =
    let r = All-times hours minutes am cs v.1 in
    (ap suc r.0, (set_time-IsValid c v.0 hours minutes am, r.1))

apply_call-IsValid : (d : Cab) (k : CabCall) → IsValid d → IsValid (apply_call d k)
unfolding set_direction
apply_call-IsValid d (loco_number number) w = set_loco_number-IsValid d w number
apply_call-IsValid d (loco_speed speed) w = speed-IsValid d w d.speed speed
apply_call-IsValid d (time_of_day hour minute am) w = set_time-IsValid d w hour minute am
apply_call-IsValid d (function_state function on) w = set_functions-IsValid d w function on
apply_call-IsValid d (run_direction forward) w = speed-IsValid d w _ _
apply_call-IsValid d (run_direction reverse) w = speed-IsValid d w _ _

bus_call-IsBus :
    (c : BusContext) (k : BusCall) → IsBus c → (d : BusContext) × (bus_call c k ≡ some d) × IsBus d
unfolding set_all_cab_times set_bus_user_data
bus_call-IsBus c step1 v = step1-IsBus c v
bus_call-IsBus c (step2 arrivals) v = (_, refl, step2-IsBus arrivals c v)
bus_call-IsBus c (incoming byte) v = (_, refl, incoming_byte-IsBus c v byte)
bus_call-IsBus c (on_cab id k) v =
    (_, refl, change_cab-IsBus c v id (λ d. apply_call d k) (λ d w. apply_call-IsValid d k w))
bus_call-IsBus c (message id text) v = (
  _,
  refl,
  change_cab-IsBus c v id (λ d. user_message d text) (λ d w. user_message-IsValid d w text),
)
bus_call-IsBus c (question id text) v = (
  _,
  refl,
  change_cab-IsBus c v id (λ d. ask_question d text) (λ d w. ask_question-IsValid d w text),
)
bus_call-IsBus c (all_times hours minutes am) v =
    let r = All-times hours minutes am c.all_cabs v.cabs in
    (
      _,
      refl,
      record {
        count = r.0 ∙ v.count;
        cabs = r.1;
        current = v.current;
        pings = v.pings;
        status = v.status;
      },
    )
bus_call-IsBus c (user_pointer p) v = (
  _,
  refl,
  record {
    count = v.count;
    cabs = v.cabs;
    current = v.current;
    pings = v.pings;
    status = v.status;
  },
)

bus_calls_from :
    (c : BusContext) (ks : List BusCall)
    → IsBus c
    → (d : BusContext) × (bus_calls (some c) ks ≡ some d) × IsBus d
bus_calls_from c [] v = (c, refl, v)
bus_calls_from c (k ∷ ks) v =
    let (d, e, w) = bus_call-IsBus c k v in
    let (f, g, x) = bus_calls_from d ks w in (f, ap (λ o. bus_calls o ks) e ∙ g, x)

-- From a new context on, every sequence of pings, answers, bytes that come in, and calls that set
-- what the cabs show gives a context: the search for the next address ends. In it there are 64 cabs,
-- the address polled last is one of theirs, the interrupt has none, one or two bytes, and each cab has two rows of 16
-- characters, flags and a speed of a byte, a locomotive number up to 9999, a number in selection and
-- functions of 16 bits, and a cursor to be placed within the display.
pub calls-IsBus :
    (ks : List BusCall) → (c : BusContext) × (bus_calls (some new_bus) ks ≡ some c) × IsBus c
calls-IsBus ks = bus_calls_from new_bus ks new_bus-IsBus
