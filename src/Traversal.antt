-- ===== src/Traversal.antt =====
-- crates/rxgraph/src/traversal/: path search.
pub mod Fingerprint
pub mod Arena
pub mod Stats
pub mod Visits
pub mod Search
pub mod Cursor
pub mod Kernel
pub mod Registry
pub mod Encoder
pub mod Adapter
pub mod Parallel
pub mod Run
pub mod Stream
pub mod Config
pub mod Entry
pub mod Native
