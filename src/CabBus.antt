-- ===== src/CabBus.antt =====
-- The NCE cab bus (CabBusCommunications/): hand-held throttles, their displays, and who is polled.
pub mod Text
pub mod Cab
pub mod Screens
pub mod Keys
pub mod Bus
pub mod Flags
pub mod Display
pub mod Settled
pub mod Changes
pub mod Poll
pub mod Typing
pub mod Select
pub mod Accessory
pub mod Switch
pub mod Polling
pub mod Invariant
pub mod Answer
pub mod Examples
