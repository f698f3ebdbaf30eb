-- ===== src/Subgraph/Lifecycle.antt =====
-- The life of a proposal and of an offering over the events of the index.
pub mod Frame
pub mod Proposals
pub mod Offerings
