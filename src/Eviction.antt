-- ===== src/Eviction.antt =====
-- internal/eviction: the S3-FIFO policy of one tenant domain and its ghost ring.
pub mod Ghost
pub mod Fifo
mod Witnesses
