-- ===== src/Payments.antt =====
-- Online payments (src/modules/payments).
pub mod Gateway
pub mod Rows
pub mod Remote
pub mod State
pub mod Sync
pub mod Checkout
pub mod Webhooks
mod Statuses
mod Keeps
mod Releases
mod Timely
mod Attempts
mod Events
mod Mismatch
mod Tests
mod Covered
mod Reads
mod Callbacks
mod Steps
mod Handled
mod Repeats
