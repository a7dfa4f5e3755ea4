-- ===== src/Lcc/MemoryMap/Served.antt =====
-- LCC/lcc-memory-map.c with LCC/lcc-memory.c and LCC/lcc-remote-memory.c: the memory of a node, written
-- and read by another.
use train_utils.Common.{ℕ, ◌≡◌, true, Option, none, some, List, [], ◌∷◌, ◌++◌, length}
use train_utils.Lcc.Node.{Context}
use train_utils.Lcc.Datagram.{written, called, told, rxok_frame}
use train_utils.Lcc.Memory.{Line, MemoryContext, send_reply}
use train_utils.Lcc.Memory.Incoming.{memory_try_handle_datagram}
use train_utils.Lcc.MemoryMap.{Segment, replied, MemoryMap, memory_map_new, answer_call}
use train_utils.Lcc.Remote.{RemoteContext, closed, remote_try_handle_datagram}
use train_utils.Lcc.Remote.Answers
use train_utils.Lcc.Remote.Answers.{Answer, reply_bytes, Listens}
use train_utils.Lcc.Remote.Requests.{Request, request_bytes, call_of}

-- Who takes part: the node that asks, with its line and its request under way, and the node that has
-- the memory.
pub record Parties : Type 0 where
  pub asker : Context
  pub node : Context
  pub line : Line
  pub request : RemoteContext
  pub memory : MemoryContext

-- The bytes of a request come to the node with the memory, which answers that a reply is pending and
-- calls its map; the map, now with other segments, sends a datagram; and its bytes tell the node that
-- asked the answer.
pub record Exchanged (p : Parties) (before after : MemoryMap) (space address : ℕ) (q : Request)
    (a : Answer) (notice : Option (ℕ × ℕ × ℕ)) (junk : List ℕ) : Type 0 where
  pub request_heard :
      memory_try_handle_datagram p.memory p.node p.line none p.asker.node_alias
        (request_bytes space address q ++ junk)
        (length (request_bytes space address q))
      ≡ (
        true,
        written (rxok_frame p.node p.asker.node_alias 0x80)
            ∷ called (call_of p.asker.node_alias space address q)
            ∷ [],
      )
  pub map_answers :
      answer_call p.node p.line before (call_of p.asker.node_alias space address q)
      ≡ some (
          replied after.segments
            (send_reply p.node p.line p.asker.node_alias (reply_bytes space address a))
            notice)
  pub answer_told :
      remote_try_handle_datagram p.asker p.request p.node.node_alias
        (reply_bytes space address a ++ junk)
        (length (reply_bytes space address a))
      ≡ (
        closed p.request,
        (
          true,
          told (Answers.call_of p.node.node_alias space address a)
              ∷ written (rxok_frame p.asker p.node.node_alias 0)
              ∷ [],
        ),
      )

-- A node that has the map's functions, to which the other has sent its request.
pub record Ready (p : Parties) (m : MemoryContext) (ss : List Segment) : Type 0 where
  pub installed : p.memory ≡ (memory_map_new m ss).0
  pub listening : Listens p.request
  pub asked : p.request.requesting_alias ≡ p.node.node_alias
