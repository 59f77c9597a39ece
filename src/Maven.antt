-- ===== src/Maven.antt =====
-- Maven dependencies (java/gazelle/private/maven).
pub mod Coordinate
pub mod Clean
pub mod Lock
pub mod Resolver
