-- ===== src/Rawmidi.antt =====
-- The library for ALSA Rawmidi (src/rawmidi): the object for a pair of streams, and the queries.
pub mod StreamPair
pub mod Query
mod Tests
