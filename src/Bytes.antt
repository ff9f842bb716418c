-- ===== src/Bytes.antt =====
-- Byte slices, and the little-endian words of encoding/binary. A byte is a number below 256, an
-- 8k-bit word a number below 256 ^ k.
mod Words
mod Slices
mod Reads
pub use Words.*
pub use Reads.*
unfoldable pub use Slices.*
