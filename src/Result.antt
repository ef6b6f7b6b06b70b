-- ===== src/Result.antt =====
-- Fallible code, and reads and writes of vectors.
mod Defs
mod Vector
pub use Defs.*
unfoldable pub use Vector.*
