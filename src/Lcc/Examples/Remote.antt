-- ===== src/Lcc/Examples/Remote.antt =====
-- Theorems on the memory of other nodes at concrete inputs.
use train_utils.Common.{
  ◌≡◌, refl, arith, true, false, ℕ, List, map, none, some, [], ◌∷◌, ◌++◌, length, replicate,
}
use train_utils.Lcc.Node.{Context, new_context}
use train_utils.Lcc.Datagram.{datagram_context_new, written, called, told, rxok_frame}
use train_utils.Lcc.Memory.{MemoryContext, memory_new, set_memory_functions, Line, send_reply}
use train_utils.Lcc.Memory.Incoming.{memory_try_handle_datagram}
use train_utils.Lcc.Remote.{
  RemoteContext, remote_memory_new, closed, refusal, Reply, reply_of, remote_try_handle_datagram,
  set_remote_functions, set_write_functions,
}
use train_utils.Lcc.Remote.Answers.{Answer, read_failed, respond, reply_bytes, call_of}
use train_utils.Lcc.Remote.Replies.{reply_lem}
use train_utils.Lcc.Remote.Requests.{Request, writes, issue, line_of, request_bytes}
use train_utils.Lcc.Remote.Waiting.{
  Step, ask_read, hear_rejected, hear_datagram, steps, turned_down, one_request_lem,
}
use train_utils.Lcc.Remote.Requests
use train_utils.Lcc.Remote.Heard.{request_lem}

abbrev asking : Context
unfolding new_context
asking = record new_context { node_alias = 0x123 }

abbrev asked : Context
unfolding new_context
asked = record new_context { node_alias = 0x456 }

abbrev line : Line
unfolding datagram_context_new
line = record { datagram_context = datagram_context_new; room = none; held = replicate 8 0 }

abbrev listening : RemoteContext
unfolding remote_memory_new set_remote_functions set_write_functions
listening =
    set_write_functions (set_remote_functions remote_memory_new true true true true true) true true

abbrev waiting : RemoteContext
waiting = record listening { requesting_alias = 0x456 }

abbrev serving : MemoryContext
unfolding memory_new set_memory_functions
serving = set_memory_functions memory_new true true true

-- A failure with code 0x1042 and the message "no".
abbrev failure : Answer
failure = read_failed 0x1042 (some (0x6E ∷ 0x6F ∷ []))

reply_lem_example :
    (respond asked line 0x123 0x12 0x100 failure
      ≡ send_reply asked line 0x123 (reply_bytes 0x12 0x100 failure))
    × (remote_try_handle_datagram asking waiting 0x456
          (reply_bytes 0x12 0x100 failure ++ 7 ∷ [])
          (length (reply_bytes 0x12 0x100 failure))
        ≡ (
          closed waiting,
          (
            true,
            told (call_of 0x456 0x12 0x100 failure) ∷ written (rxok_frame asking 0x456 0) ∷ [],
          ),
        ))
unfolding listening asked asking
reply_lem_example =
    reply_lem asked asking line waiting 0x12 0x100 failure (7 ∷ [])
      (record { receives = refl; rejects = refl; writes = refl; write_rejects = refl }) refl
      (omega arith) (omega arith)

abbrev two_bytes : Request
two_bytes = writes (1 ∷ 2 ∷ [])

request_lem_example :
    ((issue asking line listening 0x456 0xFD 0x20 two_bytes).1
      ≡ send_reply asking (line_of line two_bytes) 0x456 (request_bytes 0xFD 0x20 two_bytes))
    × (memory_try_handle_datagram serving asked line none 0x123
          (request_bytes 0xFD 0x20 two_bytes ++ [])
          (length (request_bytes 0xFD 0x20 two_bytes))
        ≡ (
          true,
          written (rxok_frame asked 0x123 0x80)
              ∷ called (Requests.call_of 0x123 0xFD 0x20 two_bytes)
              ∷ [],
        ))
unfolding serving listening line asked asking
request_lem_example =
    request_lem asking asked line line listening serving 0xFD 0x20 two_bytes [] refl refl
      (omega arith, omega arith) (record { by_read = refl; by_write = refl }) (omega arith)
      (λ e. omega (arith, e))

-- Another read, a rejection of node 0x789 and its reply to someone's read, which is not the answer.
abbrev meanwhile : List Step
meanwhile =
    ask_read line 0x789 0xFD 0 8
    ∷ hear_rejected 0x789 0x2020
    ∷ hear_datagram 0x789 (0x20 ∷ 0x51 ∷ 0 ∷ 0 ∷ 0 ∷ 0 ∷ 5 ∷ []) 7
    ∷ []

abbrev write_accepted : List ℕ
write_accepted = 0x20 ∷ 0x11 ∷ 0 ∷ 0 ∷ 0 ∷ 0x20 ∷ []

abbrev reply_kind : Reply
reply_kind = record {
  failure = false;
  write_reply = true;
  response = false;
  start = 6;
  space = 0xFD;
}

accepted : reply_of 0x11 0 ≡ some reply_kind
unfolding reply_of
accepted = refl

one_request_lem_example :
    let r1 = (issue asking line listening 0x456 0xFD 0x20 two_bytes).0 in
    let (r2, answers) = steps asking r1 meanwhile in
    let (r3, handled) = remote_try_handle_datagram asking r2 0x456 write_accepted 6 in
    (r2 ≡ r1)
    × (answers ≡ map turned_down meanwhile)
    × (handled.0 ≡ true)
    × (r3 ≡ closed r1)
    × (refusal r3 line ≡ none)
unfolding listening line
one_request_lem_example =
    one_request_lem asking line listening 0x456 0xFD 0x20 two_bytes meanwhile write_accepted 6
      reply_kind (λ e. omega (arith, e)) (omega arith, omega arith) refl refl
      (tt, ((λ e. omega (arith, e)), ((λ e. omega (arith, e)), tt)))
      (record { long = omega arith; command = refl; reply = accepted })
