-- ===== src/Nvme.antt =====
-- internal/store/nvme: the spill volume; the formats of its segment files are modelled.
pub mod Index
pub mod Segment
mod Witnesses
