-- ===== src/Lcc/Examples/MemoryMap.antt =====
-- The theorem on LCC/lcc-memory-map.c at a concrete write and read.
use train_utils.Common.{true, none, [], ◌∷◌, replicate}
use train_utils.Lcc.Node.{Context, new_context}
use train_utils.Lcc.Datagram.{datagram_context_new}
use train_utils.Lcc.Memory.{Line, MemoryContext, memory_new, set_memory_functions}
use train_utils.Lcc.Remote.{
  RemoteContext, remote_memory_new, set_remote_functions, set_write_functions,
}
use train_utils.Lcc.MemoryMap.{Segment, MemoryMap}
use train_utils.Lcc.MemoryMap.Served.{Parties}

abbrev mapped_node : Context
unfolding new_context
mapped_node = record new_context { node_alias = 0x456 }

abbrev mapped_line : Line
mapped_line = record { datagram_context = datagram_context_new; room = none; held = replicate 8 0 }

abbrev settings : Segment
settings = record {
  space = 3;
  space_flags = 0;
  low_address = 16;
  high_address = 19;
  memory = 1 ∷ 2 ∷ 3 ∷ 4 ∷ [];
}

abbrev other_settings : Segment
other_settings = record {
  space = 5;
  space_flags = 1;
  low_address = 0;
  high_address = 0;
  memory = 9 ∷ [];
}

abbrev asking_node : Context
unfolding new_context
asking_node = record new_context { node_alias = 0x123 }

abbrev asking_request : RemoteContext
unfolding remote_memory_new set_remote_functions set_write_functions
asking_request =
    record (set_write_functions (set_remote_functions remote_memory_new true true true true true)
      true true) { requesting_alias = 0x456 }

abbrev mapped_memory : MemoryContext
unfolding memory_new set_memory_functions
mapped_memory = set_memory_functions memory_new true true true

abbrev two_nodes : Parties
two_nodes = record {
  asker = asking_node;
  node = mapped_node;
  line = mapped_line;
  request = asking_request;
  memory = mapped_memory;
}

abbrev map_before : MemoryMap
map_before = record { segments = other_settings ∷ settings ∷ []; written_set = true }

abbrev map_after : MemoryMap
map_after = record {
  segments = other_settings ∷ record settings { memory = 1 ∷ 7 ∷ 8 ∷ 4 ∷ [] } ∷ [];
  written_set = true;
}
