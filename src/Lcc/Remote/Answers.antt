-- ===== src/Lcc/Remote/Answers.antt =====
-- LCC/lcc-remote-memory.c and LCC/lcc-memory.c: the replies of a node.
use train_utils.Common.{
  ℕ, ◌^◌, ◌≤◌, ◌<◌, ◌≡◌, refl, subst, inl, inr, true, false, arith, Option, none, some, List, [],
  ◌∷◌, ◌++◌, if◌then◌else◌, ltb, ◌==◌, ◌!=◌, length, get_or, Bool-cases,
}
use train_utils.Lcc.Node.{Context}
use train_utils.Lcc.Datagram.{
  RemoteCall, remote_received, read_rejected, write_rejected, remote_write_ok, Result,
}
use train_utils.Lcc.Memory.{
  Line, reply_head, error_part, respond_read_reply_ok, respond_read_reply_fail,
  respond_write_reply_ok, respond_write_reply_fail,
}
use train_utils.Lcc.Remote.{
  RemoteContext, Reply, reply_of, handle_reply, remote_try_handle_datagram,
}

-- What a node answers to a read or a write.
pub data Answer : Type 0 where
  read_done : List ℕ → Answer
  write_done : Answer
  read_failed write_failed : ℕ → Option (List ℕ) → Answer

-- It fits a datagram.
abbrev pub Fits : Answer → Type 0
Fits (read_done content) = length content ≤ 64
Fits write_done = Unit
Fits (read_failed code message) = code < 2 ^ 16
Fits (write_failed code message) = code < 2 ^ 16

abbrev pub respond : Context → Line → ℕ → ℕ → ℕ → Answer → Result
respond c l alias space address (read_done content) =
    respond_read_reply_ok c l alias space address content
respond c l alias space address write_done = respond_write_reply_ok c l alias space address
respond c l alias space address (read_failed code message) =
    respond_read_reply_fail c l alias space address code message
respond c l alias space address (write_failed code message) =
    respond_write_reply_fail c l alias space address code message

abbrev pub base_code : Answer → ℕ
base_code (read_done content) = 0x50
base_code write_done = 0x10
base_code (read_failed code message) = 0x58
base_code (write_failed code message) = 0x18

abbrev pub rest_of : Answer → List ℕ
rest_of (read_done content) = content
rest_of write_done = []
rest_of (read_failed code message) = error_part code message
rest_of (write_failed code message) = error_part code message

-- The bytes of the datagram.
abbrev pub reply_bytes : ℕ → ℕ → Answer → List ℕ
reply_bytes space address a = reply_head (base_code a) space address ++ rest_of a

-- A message that is empty, or longer than 62 characters, does not arrive.
abbrev pub kept : Option (List ℕ) → Option (List ℕ)
kept none = none
kept (some []) = none
kept (some (x ∷ xs)) = if ltb 62 (length (x ∷ xs)) then none else some (x ∷ xs)

abbrev pub call_of : ℕ → ℕ → ℕ → Answer → RemoteCall
call_of alias space address (read_done content) = remote_received alias space address content
call_of alias space address write_done = remote_write_ok alias space address
call_of alias space address (read_failed code message) =
    read_rejected alias space address code (kept message)
call_of alias space address (write_failed code message) =
    write_rejected alias space address code (kept message)

-- The functions for answers are set.
pub record Listens (r : RemoteContext) : Type 0 where
  pub receives : r.received_set ≡ true
  pub rejects : r.read_rejected_set ≡ true
  pub writes : r.write_ok_set ≡ true
  pub write_rejects : r.write_rejected_set ≡ true

-- The spaces that have a code of their own, and the others.
pub data Coding : ℕ → Type 0 where
  configuration : Coding 0xFD
  all_memory : Coding 0xFE
  definition : Coding 0xFF
  generic : {s : ℕ} → (s == 0xFD) ≡ false → (s == 0xFE) ≡ false → (s == 0xFF) ≡ false → Coding s

pub space_cases : (s : ℕ) → Coding s
space_cases s = elim (Bool-cases (s == 0xFD)) [
  | inl e ↦ subst Coding (ground (arith, e)) configuration
  | inr e ↦ elim (Bool-cases (s == 0xFE)) [
    | inl f ↦ subst Coding (ground (arith, f)) all_memory
    | inr f ↦ elim (Bool-cases (s == 0xFF)) [
      | inl g ↦ subst Coding (ground (arith, g)) definition
      | inr g ↦ generic e f g
    ]
  ]
]

pub reply_step :
    (c : Context) (r : RemoteContext) (alias code len : ℕ) (rest : List ℕ) (k : Reply)
    → 2 ≤ len
    → r.requesting_alias ≡ alias
    → reply_of code (get_or (0x20 ∷ code ∷ rest) 6 0) ≡ some k
    → remote_try_handle_datagram c r alias (0x20 ∷ code ∷ rest) len
      ≡ handle_reply c r alias (0x20 ∷ code ∷ rest) len (some k)
unfolding remote_try_handle_datagram
reply_step c r alias code len rest k long e kind =
    let enough : ltb len 2 ≡ false = ground (arith, long) in
    let asked : (alias != r.requesting_alias) ≡ false = ground (arith, e) in
    rw (enough, asked, kind) refl

abbrev pub kind_of : Answer → ℕ → ℕ → Reply
kind_of (read_done content) start s = record {
  failure = false;
  write_reply = false;
  response = false;
  start = start;
  space = s;
}
kind_of write_done start s = record {
  failure = false;
  write_reply = true;
  response = false;
  start = 6;
  space = s;
}
kind_of (read_failed code message) start s = record {
  failure = true;
  write_reply = false;
  response = false;
  start = start;
  space = s;
}
kind_of (write_failed code message) start s = record {
  failure = true;
  write_reply = true;
  response = false;
  start = start;
  space = s;
}
