-- ===== src/Graph.antt =====
-- crates/rxgraph/src/graph: compact topology, identities and the topology queries.
pub mod Csr
pub mod Identity
pub mod Table
pub mod Preprocess
pub mod Repo
pub mod Walk
pub mod Query
