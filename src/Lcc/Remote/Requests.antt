-- ===== src/Lcc/Remote/Requests.antt =====
-- LCC/lcc-remote-memory.c: the requests that it sends.
use train_utils.Common.{
  ℕ, ◌≤◌, ◌≡◌, refl, false, ◌||◌, arith, List, [], ◌∷◌, ◌++◌, ltb, ◌!=◌, length, bit_and, replicate,
}
use train_utils.Lcc.Node.{Context}
use train_utils.Lcc.Datagram.{MemoryCall, read_space, write_space, Result, transfer_in_progress}
use train_utils.Lcc.Memory.{Line, reply_head, send_reply}
use train_utils.Lcc.Remote.{RemoteContext, read_single_transfer, write_single_transfer}

-- What a node asks another for.
pub data Request : Type 0 where
  reads : ℕ → Request
  writes : List ℕ → Request

abbrev pub IsRequest : Request → Type 0
IsRequest (reads count) = count ≤ 64
IsRequest (writes content) = (1 ≤ length content) × (length content ≤ 64)

abbrev pub issue : Context → Line → RemoteContext → ℕ → ℕ → ℕ → Request → RemoteContext × Result
issue c l r alias space address (reads count) = read_single_transfer c l r alias space address count
issue c l r alias space address (writes content) =
    write_single_transfer c l r alias space address content

abbrev pub base_of : Request → ℕ
base_of (reads count) = 0x40
base_of (writes content) = 0x00

abbrev pub rest_of : Request → List ℕ
rest_of (reads count) = bit_and count 0xFF ∷ []
rest_of (writes content) = content

abbrev pub request_bytes : ℕ → ℕ → Request → List ℕ
request_bytes space address q = reply_head (base_of q) space address ++ rest_of q

-- The bytes of the datagram that is sent; a read has the buffer for its answer cleared.
abbrev pub line_of : Line → Request → Line
line_of l (reads count) = record l {
  datagram_context = record l.datagram_context { buffer = replicate 72 0 };
}
line_of l (writes content) = l

abbrev pub call_of : ℕ → ℕ → ℕ → Request → MemoryCall
call_of alias space address (reads count) = read_space alias space address count
call_of alias space address (writes content) = write_space alias space address content

pub issued :
    (c : Context) (l : Line) (r : RemoteContext) (alias space address : ℕ) (q : Request)
    → IsRequest q
    → r.requesting_alias ≡ 0
    → l.datagram_context.handling ≡ false
    → (issue c l r alias space address q).1
      ≡ send_reply c (line_of l q) alias (request_bytes space address q)
unfolding read_single_transfer write_single_transfer transfer_in_progress
issued c l r alias space address (reads count) f idle free =
    let i : (r.requesting_alias != 0) ≡ false = ground (arith, idle) in
    let n : ltb 64 count ≡ false = ground (arith, f) in rw (i, free, n) refl
issued c l r alias space address (writes content) f idle free =
    let i : (r.requesting_alias != 0) ≡ false = ground (arith, idle) in
    let n : (ltb (length content) 1 || ltb 64 (length content)) ≡ false = ground (arith, f) in
    rw (n, i, free) refl
