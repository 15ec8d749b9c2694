-- ===== src/Ctl.antt =====
-- src/ctl: the control character device of a sound card.
pub mod Card
pub mod Query
pub mod ElemValue
mod Tests
