-- ===== src/Timer.antt =====
-- src/timer: the timer devices and the user instances of them.
pub mod UserInstance
pub mod Query
pub mod InstanceParams
mod Tests
