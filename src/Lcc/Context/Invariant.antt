-- ===== src/Lcc/Context/Invariant.antt =====
-- The states that the calls of a client lead to.
use train_utils.Common.{
  ℕ, ◌≤◌, ◌≡◌, arith, true, false, Option, none, some, List, [], ◌∷◌, ◌==◌, ◌!=◌, Bool-cases,
  Option-cases, ltb, leb, shr, bit_and, ◌&&◌, inl, inr,
}
use train_utils.Lcc.Frame.{CanFrame}
use train_utils.Lcc.Node.{
  Context, AliasState, not_set, sent_cid, fail, good, NodeState, inhibited, permitted, Outcome,
  returned, null_call, new_context, set_write_function, set_unique_identifer, write_each,
}
use train_utils.Lcc.Context.{
  is_alias_state, is_permitted, Reply, reply, null_write, Incoming, done, passed_on, generate_alias,
  send_cid, claim_alias, claim, incoming_frame, check_collision, handle_control_frame, answer,
  rid_frame, with_write, after, dispatch, next_alias, cid_frames,
}
use train_utils.Lcc.Context.Alias.{next_alias-range}

-- The alias states that go with a node state: permitted with a good alias, and inhibited with any
-- other.
abbrev pub Agrees : NodeState → AliasState → Type 0
Agrees permitted good = Unit
Agrees inhibited not_set = Unit
Agrees inhibited sent_cid = Unit
Agrees inhibited fail = Unit
Agrees _ _ = ⊥

-- An alias that is announced or held is one that the standard allows.
abbrev pub Announced : AliasState → ℕ → Type 0
Announced sent_cid alias = 1 ≤ alias
Announced good alias = 1 ≤ alias
Announced _ alias = Unit

pub record IsValid (c : Context) : Type 0 where
  pub agrees : Agrees c.state c.node_alias_state
  pub announced : Announced c.node_alias_state c.node_alias
  pub small : c.node_alias ≤ 0xFFE

-- What a client calls on a context. The frames that come in may have any contents.
pub data Call : Type 0 where
  set_write : Option (CanFrame → ℕ) → Option ℕ → Call
  set_unique claims : ℕ → Call
  generates : Call
  incoming : CanFrame → Call

-- The context after a call; `none` where the code calls a write function that is NULL.
abbrev pub context_of : Outcome → Option Context
context_of (returned st c fs) = some c
context_of null_call = none

abbrev pub replied : Reply → Option Context
replied (reply c fs) = some c
replied null_write = none

abbrev pub received : Incoming → Option Context
received (done r) = replied r
received (passed_on h c fs) = some c

unfoldable pub call : Context → Call → Option Context
call c (set_write w avail) = some (set_write_function c w avail).1
call c (set_unique id) = some (set_unique_identifer c id).1
call c generates = context_of (generate_alias c)
call c (claims room) = context_of (claim_alias c room)
call c (incoming f) = received (incoming_frame c f)

unfoldable pub calls : Option Context → List Call → Option Context
calls none cs = none
calls (some c) [] = some c
calls (some c) (x ∷ cs) = calls (call c x) cs

abbrev pub IsValid? : Option Context → Type 0
IsValid? none = Unit
IsValid? (some c) = IsValid c

agrees_fail : (s : NodeState) → is_permitted s ≡ false → Agrees s fail
agrees_fail permitted h = ground (arith, h)
agrees_fail inhibited h = tt

agrees_sent :
    (s : NodeState) (a : AliasState)
    → Agrees s a
    → is_alias_state a good ≡ false
    → Agrees s sent_cid
agrees_sent inhibited a h k = tt
agrees_sent permitted good h k = ground (arith, k)
agrees_sent permitted not_set h k = h
agrees_sent permitted sent_cid h k = h
agrees_sent permitted fail h k = h

announces : (a : AliasState) (n : ℕ) → 1 ≤ n → Announced a n
announces not_set n h = tt
announces sent_cid n h = h
announces fail n h = tt
announces good n h = h

claims_sent : (a : AliasState) (n : ℕ) → Announced a n → is_alias_state a sent_cid ≡ true → 1 ≤ n
claims_sent sent_cid n h k = h
claims_sent not_set n h k = ground (arith, k)
claims_sent fail n h k = ground (arith, k)
claims_sent good n h k = ground (arith, k)

send_cid-IsValid :
    (c : Context) (write : CanFrame → ℕ)
    → IsValid c
    → 1 ≤ c.node_alias
    → is_alias_state c.node_alias_state good ≡ false
    → IsValid? (context_of (send_cid c write))
unfolding send_cid
send_cid-IsValid c write v h k = elim (Bool-cases ((write_each write (cid_frames c)).0 == 0)) [
  | inl e ↦ rw e (record {
    agrees = agrees_sent c.state c.node_alias_state v.agrees k;
    announced = h;
    small = v.small;
  })
  | inr e ↦ rw e v
]

generate_alias-IsValid : (c : Context) → IsValid c → IsValid? (context_of (generate_alias c))
unfolding generate_alias
generate_alias-IsValid c v = elim (Bool-cases (c.unique_id == 0)) [
  | inl e ↦ rw e v
  | inr e ↦ elim (Bool-cases (is_alias_state c.node_alias_state good)) [
    | inl k ↦ rw (e, k) v
    | inr k ↦
        let range = next_alias-range c v.small in
        elim (Option-cases c.write_function) [
          | inl w ↦ rw (e, k, w) tt
          | inr (write, w) ↦
              rw (e, k, w)
                (send_cid-IsValid (record c { node_alias = next_alias c }) write
                  (record {
                    agrees = v.agrees;
                    announced = announces c.node_alias_state (next_alias c) range.0;
                    small = range.1;
                  })
                  range.0 k)
        ]
  ]
]

claim-IsValid :
    (c : Context)
    → IsValid c
    → is_alias_state c.node_alias_state sent_cid ≡ true
    → IsValid? (context_of (claim c))
unfolding claim
claim-IsValid c v k = elim (Option-cases c.write_function) [
  | inl w ↦ rw w tt
  | inr (write, w) ↦ rw w (record {
    agrees = tt;
    announced = claims_sent c.node_alias_state c.node_alias v.announced k;
    small = v.small;
  })
]

claim_alias-IsValid :
    (c : Context) (room : ℕ) → IsValid c → IsValid? (context_of (claim_alias c room))
unfolding claim_alias
claim_alias-IsValid c room v = elim (Bool-cases (is_alias_state c.node_alias_state sent_cid)) [
  | inr k ↦ rw k v
  | inl k ↦ elim (Bool-cases (c.write_buffer_avail_set && ltb room c.write_buffer_size)) [
    | inl e ↦ rw (k, e) v
    | inr e ↦ rw (k, e) (claim-IsValid c v k)
  ]
]

with_write-IsValid :
    (w : Option (CanFrame → ℕ)) (r : Reply)
    → IsValid? (replied r)
    → IsValid? (replied (with_write w r))
with_write-IsValid none r v = tt
with_write-IsValid (some write) r v = v

answer-IsValid : (c : Context) (fs : List CanFrame) → IsValid c → IsValid? (replied (answer c fs))
answer-IsValid c [] v = v
answer-IsValid c (f ∷ fs) v = with_write-IsValid c.write_function (reply c (f ∷ fs)) v

handle_control_frame-IsValid :
    (c : Context) (f : CanFrame) → IsValid c → IsValid? (replied (handle_control_frame c f))
unfolding handle_control_frame
handle_control_frame-IsValid c f v =
    elim (Bool-cases (shr (bit_and f.can_id 0x00FFF000) 12 != 0x702)) [
      | inl e ↦ rw e v
      | inr e ↦ elim (Bool-cases (is_permitted c.state)) [
        | inl k ↦ rw (e, k) (answer-IsValid c _ v)
        | inr k ↦ rw (e, k) v
      ]
    ]

check_collision-IsValid :
    (c : Context) (f : CanFrame) → IsValid c → IsValid? (replied (check_collision c f))
unfolding check_collision
check_collision-IsValid c f v = elim (Bool-cases (bit_and f.can_id 0xFFF != c.node_alias)) [
  | inl e ↦ rw e v
  | inr e ↦ elim (Bool-cases (leb 4 (bit_and (shr f.can_id 24) 7))) [
    | inl k ↦ rw (e, k) (answer-IsValid c (rid_frame c ∷ []) v)
    | inr k ↦ elim (Bool-cases (is_permitted c.state)) [
      | inl p ↦ rw (e, k, p) v
      | inr p ↦
          rw (e, k, p) (record { agrees = agrees_fail c.state p; announced = tt; small = v.small })
    ]
  ]
]

after-IsValid :
    (es : List CanFrame) (r : Reply) → IsValid? (replied r) → IsValid? (replied (after es r))
after-IsValid es (reply c fs) v = v
after-IsValid es null_write v = v

dispatch-IsValid :
    (f : CanFrame) (r : Reply) → IsValid? (replied r) → IsValid? (received (dispatch f r))
dispatch-IsValid f null_write v = v
dispatch-IsValid f (reply c es) v = elim (Bool-cases (is_permitted c.state)) [
  | inr p ↦ rw p v
  | inl p ↦ elim (Bool-cases (bit_and f.can_id 0x08000000 == 0)) [
    | inl e ↦ rw (p, e) (after-IsValid es _ (handle_control_frame-IsValid c f v))
    | inr e ↦ rw (p, e) v
  ]
]

call-IsValid : (c : Context) (x : Call) → IsValid c → IsValid? (call c x)
unfolding call set_write_function set_unique_identifer incoming_frame
call-IsValid c (set_write none avail) v = v
call-IsValid c (set_write (some w) avail) v = record {
  agrees = v.agrees;
  announced = v.announced;
  small = v.small;
}
call-IsValid c (set_unique id) v = record {
  agrees = v.agrees;
  announced = v.announced;
  small = v.small;
}
call-IsValid c generates v = generate_alias-IsValid c v
call-IsValid c (claims room) v = claim_alias-IsValid c room v
call-IsValid c (incoming f) v =
    dispatch-IsValid f (check_collision c f) (check_collision-IsValid c f v)

pub new_context-IsValid : IsValid new_context
unfolding new_context
new_context-IsValid = record { agrees = tt; announced = tt; small = omega arith }

-- Whatever a client calls on a valid context, and whatever frames come in, the context stays
-- valid: the node is permitted exactly while its alias is good, an alias that is announced or held
-- is from 1 to 0xFFE, and no alias tried is above that. Only a missing write function can end this.
pub alias-calls-IsValid : (c : Option Context) (cs : List Call) → IsValid? c → IsValid? (calls c cs)
unfolding calls
alias-calls-IsValid none cs v = tt
alias-calls-IsValid (some c) [] v = v
alias-calls-IsValid (some c) (x ∷ cs) v = alias-calls-IsValid (call c x) cs (call-IsValid c x v)
