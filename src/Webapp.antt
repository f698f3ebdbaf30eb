-- ===== src/Webapp.antt =====
-- packages/theword-webapp/src/state/slices: the reducers of the web application's store.
pub mod Offering
pub mod OnDisplay
pub mod Logs
pub mod Display
pub mod BidOrder
pub mod Chain
pub mod Filters
pub mod Functions
pub mod Markdown
pub mod Governance
pub mod Badges
pub mod Transactions
pub mod VotePage
pub mod BidForm
pub mod Timer
pub mod TransactionForm
pub mod Config
pub mod Ens
pub mod Profile
mod Tests
