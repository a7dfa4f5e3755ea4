-- ===== src/Lcc.antt =====
-- The LCC library (LCC/): frames, nodes and their aliases, events, datagrams, memory, and text.
pub mod Frame
pub mod EventList
pub mod Event
pub mod Node
pub mod Context
pub mod Simple
pub mod Addressed
pub mod Datagram
pub mod Cdi
pub mod Memory
pub mod MemoryMap
pub mod Clock
pub mod Remote
pub mod Whole
pub mod Firmware
pub mod Gridconnect
pub mod Examples
