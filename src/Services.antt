-- ===== src/Services.antt =====
-- src/services/: what the handlers call, without HTTP.
pub mod Route
pub mod Blops
pub mod Range
