-- ===== src/Lcc/MemoryMap.antt =====
-- LCC/lcc-memory-map.c: spaces of memory that are arrays, with limits of their own.
-- A map and a context that are NULL are left out; segments end with the space 0 or with the list. What the code reads or
-- writes outside an array is an outcome of its own.
pub mod Stored
pub mod Served
use train_utils.Common.{
  ℕ, zero, suc, ◌+◌, ◌-◌, ◌^◌, ◌≤◌, ◌<◌, ◌≡◌, refl, sym, ap, ◌∙◌, arith, Bool, true, false, not,
  ◌&&◌, ◌||◌, Option, none, some, List, [], ◌∷◌, ◌++◌, if◌then◌else◌, ltb, ◌==◌, length, take, drop,
  write_from, has_bits, u32,
}
use train_utils.Lcc.Node.{Context}
use train_utils.Lcc.Datagram.{Result, MemoryCall, query_space, read_space, write_space}
use train_utils.Lcc.Memory.{
  Line, MemoryContext, set_memory_functions, respond_information_query, respond_read_reply_ok,
  respond_read_reply_fail, respond_write_reply_ok, respond_write_reply_fail,
}

-- `struct lcc_memory_segment`.
pub record Segment : Type 0 where
  pub space : ℕ
  pub space_flags : ℕ
  pub low_address : ℕ
  pub high_address : ℕ
  pub memory : List ℕ

unfoldable pub find_segment : List Segment → ℕ → Option Segment
find_segment [] space = none
find_segment (s ∷ ss) space =
    let later = find_segment ss space in
    if s.space == 0 then none else if s.space == space then some s else later

-- The segments, with other memory in the one that is found.
unfoldable pub put_memory : List Segment → ℕ → List ℕ → List Segment
put_memory [] space memory = []
put_memory (s ∷ ss) space memory =
    let later = put_memory ss space memory in
    if s.space == 0
    then s ∷ ss
    else if s.space == space
    then record s { memory = memory } ∷ ss
    else s ∷ later

-- A reply and the segments, with the call that tells the client of a write; or an access outside.
pub data MapResult : Type 0 where
  replied : List Segment → Result → Option (ℕ × ℕ × ℕ) → MapResult
  outside : MapResult

abbrev pub query_segment : Context → Line → ℕ → ℕ → Option Segment → Result
query_segment c l alias space none = respond_information_query c l alias false space 0 0 0
query_segment c l alias space (some s) =
    respond_information_query c l alias true space s.high_address s.space_flags s.low_address

unfoldable pub memory_map_query : Context → Line → List Segment → ℕ → ℕ → Result
memory_map_query c l segments alias space =
    query_segment c l alias space (find_segment segments space)

-- The sum is of 32 bits, and so is the limit.
abbrev pub beyond : Segment → ℕ → ℕ → Bool
beyond s address count =
    ltb address s.low_address || ltb (u32 (s.high_address + 1)) (u32 (address + count))

abbrev pub overruns : Segment → ℕ → ℕ → Bool
overruns s address count = ltb (length s.memory) (address - s.low_address + count)

abbrev pub read_segment : Context → Line → List Segment → ℕ → ℕ → ℕ → ℕ → Option Segment → MapResult
read_segment c l segments alias space address count none =
    replied segments (respond_read_reply_fail c l alias space address 0x1040 none) none
read_segment c l segments alias space address count (some s) =
    if beyond s address count
    then replied segments (respond_read_reply_fail c l alias space address 0x1080 none) none
    else if overruns s address count
    then outside
    else replied segments
        (respond_read_reply_ok c l alias space address
          (take count (drop (address - s.low_address) s.memory)))
        none

unfoldable pub memory_map_read : Context → Line → List Segment → ℕ → ℕ → ℕ → ℕ → MapResult
memory_map_read c l segments alias space address count =
    read_segment c l segments alias space address count (find_segment segments space)

abbrev pub write_segment :
    Context → Line → List Segment → Bool → ℕ → ℕ → ℕ → List ℕ → Option Segment → MapResult
write_segment c l segments told alias space address content none =
    replied segments (respond_write_reply_fail c l alias space address 0x1040 none) none
write_segment c l segments told alias space address content (some s) =
    if has_bits s.space_flags 0x01 || beyond s address (length content)
    then replied segments (respond_write_reply_fail c l alias space address 0x1080 none) none
    else if overruns s address (length content)
    then outside
    else replied (put_memory segments space (write_from s.memory (address - s.low_address) content))
        (respond_write_reply_ok c l alias space address)
        (if told then some (space, address, length content) else none)

unfoldable pub memory_map_write :
    Context → Line → List Segment → Bool → ℕ → ℕ → ℕ → List ℕ → MapResult
memory_map_write c l segments told alias space address content =
    write_segment c l segments told alias space address content (find_segment segments space)

-- `struct lcc_memory_map`; of the callback there is a flag that it is not NULL.
pub record MemoryMap : Type 0 where
  pub segments : List Segment
  pub written_set : Bool

-- The context gets the three functions above.
unfoldable pub memory_map_new : MemoryContext → List Segment → MemoryContext × MemoryMap
memory_map_new m segments =
    (set_memory_functions m true true true, record { segments = segments; written_set = false })

unfoldable pub memory_map_free : MemoryContext → MemoryContext
memory_map_free m = set_memory_functions m false false false

unfoldable pub set_written_callback : MemoryMap → Bool → MemoryMap
set_written_callback map is_set = record map { written_set = is_set }

-- What a call of the context does where its functions are those of the map.
unfoldable pub answer_call : Context → Line → MemoryMap → MemoryCall → Option MapResult
answer_call c l map (query_space alias space) =
    some (replied map.segments (memory_map_query c l map.segments alias space) none)
answer_call c l map (read_space alias space address count) =
    some (memory_map_read c l map.segments alias space address count)
answer_call c l map (write_space alias space address content) =
    some (memory_map_write c l map.segments map.written_set alias space address content)
answer_call c l map _ = none
