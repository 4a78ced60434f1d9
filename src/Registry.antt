-- ===== src/Registry.antt =====
-- The client of Docker registries in registry/, one child for each of its files.
pub mod Challenge
