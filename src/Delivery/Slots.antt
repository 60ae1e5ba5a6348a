-- ===== src/Delivery/Slots.antt =====
-- Delivery slot reservations (src/modules/delivery/delivery-slot.service.ts).
pub mod Store
pub mod Ops
pub mod Expiry
pub mod Capacity
pub mod Histories
pub mod Holds
mod Tests
