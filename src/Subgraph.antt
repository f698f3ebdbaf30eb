-- ===== src/Subgraph.antt =====
-- packages/theword-subgraph/src: the handlers that index the events of the contracts.
pub mod Entities
pub mod Helpers
pub mod Consistent
pub mod House
pub mod Dao
pub mod Token
pub mod Events
pub mod Tally
pub mod Lifecycle
mod Tests
