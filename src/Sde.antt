-- ===== src/Sde.antt =====
-- src/sde/: the static data, as the parser reads it.
pub mod Parse
pub mod Cache
pub mod Refresh
