-- ===== src/Endpoint/Laws.antt =====
-- What the endpoint manager guarantees.
pub mod Same
pub mod Held
pub mod Leases
pub mod Failing
