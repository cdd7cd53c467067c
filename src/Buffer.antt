-- ===== src/Buffer.antt =====
-- sources/agent/src/buffer.h and buffer.cc: the ring of one series, the key of a series, and the
-- map from keys to rings.
pub mod Series
pub mod Keys
pub mod Metrics
