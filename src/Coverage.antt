-- ===== src/Coverage.antt =====
-- Hub coverage and routing (src/modules/coverage).
pub mod Geo
pub mod Routing
pub mod Nearest
pub mod Reasons
mod Tests
