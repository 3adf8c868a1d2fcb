-- ===== src/Modules.antt =====
-- The modules that extend a run (src/modules).
pub mod Registry
