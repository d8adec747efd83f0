-- ===== src/Iso.antt =====
-- The identity and the addresses of the machine, from the config-drive ISO.
pub mod Metadata
pub mod Reader
