-- ===== src/Http.antt =====
-- The reconstruction of HTTP files, `src/modules/dpi/reconstruct/http`.
pub mod Chunk
