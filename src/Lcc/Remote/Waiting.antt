-- ===== src/Lcc/Remote/Waiting.antt =====
-- LCC/lcc-remote-memory.c: a request that is under way, whatever comes in between, up to its answer.
use train_utils.Common.{
  ℕ, ◌≤◌, ◌≡◌, ◌≢◌, refl, true, false, ◌||◌, arith, none, some, List, [], ◌∷◌, map, ltb, ◌!=◌,
  length, get_or, if◌then◌else◌, Bool-cases, inl, inr, All,
}
use train_utils.Lcc.Node.{Context, error_invalid_arg, error_memory_tx_in_progress}
use train_utils.Lcc.Datagram.{Result, result, transfer_in_progress}
use train_utils.Lcc.Datagram.Incoming.{Handled}
use train_utils.Lcc.Memory.{Line}
use train_utils.Lcc.Remote.{
  RemoteContext, closed, refusal, Reply, reply_of, read_single_transfer, write_single_transfer,
  update_complete_request, remote_try_handle_datagram, remote_handle_rx_ok, remote_handle_rejected,
}
use train_utils.Lcc.Remote.Requests.{Request, reads, writes, IsRequest, issue}

-- What can happen while a node waits: the client asks for more, or another node is heard. The line is
-- the one at that time.
pub data Step : Type 0 where
  ask_read : Line → ℕ → ℕ → ℕ → ℕ → Step
  ask_write : Line → ℕ → ℕ → ℕ → List ℕ → Step
  ask_complete : Line → ℕ → Step
  hear_datagram : ℕ → List ℕ → ℕ → Step
  hear_rx_ok hear_rejected : ℕ → ℕ → Step

-- What the operation returns.
pub data Returned : Type 0 where
  asked : Result → Returned
  heard : Handled → Returned

abbrev from_asked : RemoteContext × Result → RemoteContext × Returned
from_asked (r, a) = (r, asked a)

abbrev from_heard : RemoteContext × Handled → RemoteContext × Returned
from_heard (r, a) = (r, heard a)

unfoldable pub step : Context → RemoteContext → Step → RemoteContext × Returned
step c r (ask_read l alias space address count) =
    from_asked (read_single_transfer c l r alias space address count)
step c r (ask_write l alias space address content) =
    from_asked (write_single_transfer c l r alias space address content)
step c r (ask_complete l alias) = from_asked (update_complete_request c l r alias)
step c r (hear_datagram alias buffer len) =
    from_heard (remote_try_handle_datagram c r alias buffer len)
step c r (hear_rx_ok alias flags) = from_heard (remote_handle_rx_ok r alias flags)
step c r (hear_rejected alias code) = from_heard (remote_handle_rejected r alias code)

unfoldable pub steps : Context → RemoteContext → List Step → RemoteContext × List Returned
steps c r [] = (r, [])
steps c r (s ∷ ss) = let (r1, a) = step c r s in let (r2, later) = steps c r1 ss in (r2, a ∷ later)

-- The node that is heard is not the one that was asked.
abbrev pub IsOther : ℕ → Step → Type 0
IsOther alias (hear_datagram source buffer len) = source ≢ alias
IsOther alias (hear_rx_ok source flags) = source ≢ alias
IsOther alias (hear_rejected source code) = source ≢ alias
IsOther alias _ = Unit

-- Each request is refused, and what is heard is left to others.
abbrev pub turned_down : Step → Returned
turned_down (ask_read l alias space address count) =
    asked (result error_memory_tx_in_progress l.datagram_context [])
turned_down (ask_write l alias space address content) = asked (
    result
      (if ltb (length content) 1 || ltb 64 (length content)
        then error_invalid_arg
        else error_memory_tx_in_progress)
      l.datagram_context [])
turned_down (ask_complete l alias) =
    asked (result error_memory_tx_in_progress l.datagram_context [])
turned_down _ = heard (false, [])

-- A message that is a reply.
pub record IsReply (buffer : List ℕ) (len : ℕ) (k : Reply) : Type 0 where
  pub long : 2 ≤ len
  pub command : get_or buffer 0 0 ≡ 0x20
  pub reply : reply_of (get_or buffer 1 0) (get_or buffer 6 0) ≡ some k

step-turned_down :
    (c : Context) (r : RemoteContext) (s : Step)
    → r.requesting_alias ≢ 0
    → IsOther r.requesting_alias s
    → step c r s ≡ (r, turned_down s)
unfolding step read_single_transfer write_single_transfer update_complete_request
    remote_try_handle_datagram remote_handle_rx_ok remote_handle_rejected
step-turned_down c r (ask_read l alias space address count) busy o =
    let b : (r.requesting_alias != 0) ≡ true = ground (arith, busy) in rw b refl
step-turned_down c r (ask_write l alias space address content) busy o =
    let b : (r.requesting_alias != 0) ≡ true = ground (arith, busy) in
    elim (Bool-cases (ltb (length content) 1 || ltb 64 (length content))) [
      | inl e ↦ rw e refl
      | inr e ↦ rw (e, b) refl
    ]
step-turned_down c r (ask_complete l alias) busy o =
    let b : (r.requesting_alias != 0) ≡ true = ground (arith, busy) in rw b refl
step-turned_down c r (hear_datagram alias buffer len) busy o =
    let n : (alias != r.requesting_alias) ≡ true = ground (arith, o) in
    elim (Bool-cases (ltb len 2 || (get_or buffer 0 0 != 0x20))) [
      | inl e ↦ rw e refl
      | inr e ↦ rw (e, n) refl
    ]
step-turned_down c r (hear_rx_ok alias flags) busy o =
    let n : (alias != r.requesting_alias) ≡ true = ground (arith, o) in rw n refl
step-turned_down c r (hear_rejected alias code) busy o =
    let n : (alias != r.requesting_alias) ≡ true = ground (arith, o) in rw n refl

steps-turned_down :
    (c : Context) (r : RemoteContext) (ss : List Step)
    → r.requesting_alias ≢ 0
    → All (IsOther r.requesting_alias) ss
    → steps c r ss ≡ (r, map turned_down ss)
unfolding steps
steps-turned_down c r [] busy o = refl
steps-turned_down c r (s ∷ ss) busy o =
    rw (step-turned_down c r s busy o.0, steps-turned_down c r ss busy o.1) refl

issue-alias :
    (c : Context) (l : Line) (r : RemoteContext) (alias space address : ℕ) (q : Request)
    → IsRequest q
    → r.requesting_alias ≡ 0
    → l.datagram_context.handling ≡ false
    → (issue c l r alias space address q).0.requesting_alias ≡ alias
unfolding read_single_transfer write_single_transfer transfer_in_progress
issue-alias c l r alias space address (reads count) f idle free =
    let i : (r.requesting_alias != 0) ≡ false = ground (arith, idle) in
    let n : ltb 64 count ≡ false = ground (arith, f) in rw (i, free, n) refl
issue-alias c l r alias space address (writes content) f idle free =
    let i : (r.requesting_alias != 0) ≡ false = ground (arith, idle) in
    let n : (ltb (length content) 1 || ltb 64 (length content)) ≡ false = ground (arith, f) in
    rw (n, i, free) refl

closes :
    (c : Context) (r : RemoteContext) (alias : ℕ) (buffer : List ℕ) (len : ℕ) (k : Reply)
    → r.requesting_alias ≡ alias
    → IsReply buffer len k
    → ((remote_try_handle_datagram c r alias buffer len).0 ≡ closed r)
      × ((remote_try_handle_datagram c r alias buffer len).1.0 ≡ true)
unfolding remote_try_handle_datagram
closes c r alias buffer len k a v =
    let n : (ltb len 2 || (get_or buffer 0 0 != 0x20)) ≡ false =
      ground (arith, v.long, v.command) in
    let m : (alias != r.requesting_alias) ≡ false = ground (arith, a) in
    rw (n, m, v.reply) (refl, refl)

-- A read of up to 64 bytes or a write of 1 to 64 is asked of a node whose alias is not 0, with no
-- request and no datagram under way. Until that node answers, whatever reads, writes and ends of an
-- update the client asks for are refused and write nothing, and whatever messages, acceptances and
-- rejections of other nodes come in are not taken for the answer, in any order, and the request stays
-- as it is. A reply of the node that was asked is then handled and ends the request, so that the next
-- is not refused while no datagram is under way.
pub one_request_lem :
    (c : Context) (l : Line) (r : RemoteContext) (alias space address : ℕ) (q : Request)
    (ss : List Step) (buffer : List ℕ) (len : ℕ) (k : Reply)
    → alias ≢ 0
    → IsRequest q
    → r.requesting_alias ≡ 0
    → l.datagram_context.handling ≡ false
    → All (IsOther alias) ss
    → IsReply buffer len k
    → let r1 = (issue c l r alias space address q).0 in
      let (r2, answers) = steps c r1 ss in
      let (r3, handled) = remote_try_handle_datagram c r2 alias buffer len in
      (r2 ≡ r1)
      × (answers ≡ map turned_down ss)
      × (handled.0 ≡ true)
      × (r3 ≡ closed r1)
      × (refusal r3 l ≡ none)
unfolding transfer_in_progress
one_request_lem c l r alias space address q ss buffer len k real f idle free o v =
    let r1 = (issue c l r alias space address q).0 in
    let a : r1.requesting_alias ≡ alias = issue-alias c l r alias space address q f idle free in
    let kept : steps c r1 ss ≡ (r1, map turned_down ss) =
      steps-turned_down c r1 ss (rw a real) (rw a o) in
    let done = closes c r1 alias buffer len k a v in
    rw kept (refl, refl, done.1, done.0, rw (done.0, free) refl)
