-- ===== src/Protocol.antt =====
-- internal/protocol: the wire format.
pub mod Crc
pub mod Header
pub mod Ops
pub mod Body
pub mod Limits
pub mod Hello
pub mod PutBody
pub mod Bodies
pub mod Safety
mod Witnesses
