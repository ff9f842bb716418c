-- ===== src/Dram.antt =====
-- internal/store/dram: the memory tier.
pub mod Allocator
pub mod Arena
pub mod BlockRef
pub mod Index
pub mod Lifecycle
pub mod Store
mod Witnesses
