-- ===== src/Orders.antt =====
-- Orders: the status lifecycle, and what the hub, the administrator and the customer do to an order.
pub mod Status
pub mod Lifecycle
pub mod Drivers
pub mod Availability
pub mod World
pub mod Effects
pub mod Hub
pub mod Handover
pub mod Outcomes
pub mod Locks
pub mod Otp
pub mod Unverified
pub mod Payments
pub mod Codes
pub mod Inventory
pub mod Requests
pub mod Customer
pub mod Shop
pub mod Placement
pub mod Rescheduling
pub mod Tests
