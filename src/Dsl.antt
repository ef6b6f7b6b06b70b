-- ===== src/Dsl.antt =====
-- crates/rxgraph/src/dsl/: the expression language of a traversal.
pub mod Integer
pub mod Float
pub mod Value
pub mod Scalar
pub mod Search
pub mod Arrow
pub mod Column
pub mod Arguments
pub mod Texts
pub mod Structs
pub mod Lists
pub mod Expr
pub mod Bound
pub mod Eval
pub mod Bind
