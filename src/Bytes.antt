-- ===== src/Bytes.antt =====
-- Byte slices and their decoders: the names of the children Reads and Safety, passed on.
mod Reads
mod Safety
pub mod Fields
unfoldable pub use Reads.*
unfoldable pub use Safety.*
