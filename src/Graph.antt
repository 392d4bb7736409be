-- ===== src/Graph.antt =====
-- crates/wireview-gui/src/graph.rs: the buffer of the GUI's graphs and what is shown of it.
pub mod Kinds
pub mod State
pub mod Times
pub mod Changes
pub mod Journal
