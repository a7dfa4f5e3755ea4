-- ===== src/Lcc/Memory/Made.antt =====
-- LCC/lcc-memory.c: the bytes of a configuration description, in memory or made on demand.
use train_utils.Common.{
  ℕ, zero, suc, ◌+◌, ◌-◌, ◌%◌, Option, none, some, List, [], ◌∷◌, ◌++◌, if◌then◌else◌, ltb, take,
  drop, u32,
}
use train_utils.Lcc.Cdi.{xml_length, to_xml_at_offset}
use train_utils.Lcc.Memory.{MemoryContext}

abbrev pub cdi_bytes : (ℕ → ℕ) → ℕ → ℕ → List ℕ
cdi_bytes f address zero = []
cdi_bytes f address (suc n) = f address ∷ cdi_bytes f (address + 1) n

-- `num_bytes_to_read` where the description is made.
abbrev pub at_most_64 : ℕ → ℕ
at_most_64 n = if ltb 64 n then 64 else n

-- `cdi_buffer`: a chunk, and the next one where the read reaches into it.
unfoldable pub made_bytes : List (List ℕ) → ℕ → ℕ → List ℕ
made_bytes strings address n =
    let chunk_start = address - address % 64 in
    let offset_in_chunk = address - chunk_start in
    let first = (to_xml_at_offset strings chunk_start).1 in
    let second : List ℕ =
      if ltb 64 (offset_in_chunk + n)
      then (to_xml_at_offset strings (u32 (chunk_start + 64))).1
      else [] in
    take n (drop offset_in_chunk (first ++ second))

abbrev pub description_bytes : (ℕ → ℕ) → Option (List (List ℕ)) → ℕ → ℕ → List ℕ
description_bytes f none address n = cdi_bytes f address n
description_bytes f (some strings) address n = made_bytes strings address (at_most_64 n)

unfoldable pub read_cdi : MemoryContext → ℕ → ℕ → List ℕ
read_cdi m address n = description_bytes m.cdi_data m.cdi_strings address n

-- The length is made anew where the description is.
unfoldable pub current_length : MemoryContext → ℕ
current_length m = elim m.cdi_strings [ none ↦ m.cdi_length | some strings ↦ xml_length strings ]
