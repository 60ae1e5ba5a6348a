-- ===== src/Delivery.antt =====
-- The delivery modules (src/modules/delivery).
pub mod Slots
pub mod Benefit
pub mod Vehicles
pub mod Windows
