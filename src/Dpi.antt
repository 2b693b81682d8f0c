-- ===== src/Dpi.antt =====
-- The context of the DPI library in a worker, `src/modules/dpi`.
pub mod Dump
pub mod Life
