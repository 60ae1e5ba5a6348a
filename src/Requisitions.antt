-- ===== src/Requisitions.antt =====
-- Requisitions of stock by a hub from the central warehouse (src/modules/requisitions).
pub mod Table
pub mod Ops
pub mod Shipping
pub mod Sums
pub mod Receipts
pub mod Moves
pub mod Conservation
pub mod Stages
pub mod Limits
pub mod Duplicates
mod Tests
