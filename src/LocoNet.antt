-- ===== src/LocoNet.antt =====
-- The LocoNet library (LocoNetCommunications/): the byte buffer, the messages, the turnouts.
pub mod Context
pub mod Process
pub mod Write
pub mod Turnout
pub mod Throttle
pub mod Examples
