-- ===== src/Dynamic.antt =====
-- Dynamic configuration: src/modules/dynamic_conf.
pub mod Bus
pub mod Update
pub mod Server
