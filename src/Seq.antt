-- ===== src/Seq.antt =====
-- The library for ALSA Sequencer (src/seq): events, their flattened form, and the user client.
pub mod Uapi
pub mod Samples
mod Tests
pub mod Event
pub mod EventCntr
pub mod Schedule
pub mod UserClient
pub mod Query
pub mod ClientInfo
pub mod SubscribeData
pub mod PortInfo
pub mod RemoveFilter
