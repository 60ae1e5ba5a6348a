-- ===== src/Loyalty.antt =====
-- The loyalty programme (src/modules/loyalty, src/modules/scheduler/services/loyalty.service.ts).
-- The rows are those of one customer's account: every query of the service filters by the account, but
-- for the nightly job, which is over a table of accounts.
pub mod Ledger
pub mod Balance
pub mod Lots
pub mod Expiry
mod Kept
pub mod Once
mod Nightly
pub mod Redemption
pub mod Orders
mod Tests
