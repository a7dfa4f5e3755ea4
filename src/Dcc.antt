-- ===== src/Dcc.antt =====
-- The DCC library (DCC/): from the edges of the track signal to packets, and from packets to calls.
pub mod Parser
pub mod Decoder
mod Examples
