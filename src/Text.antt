-- ===== src/Text.antt =====
-- The text of reports: src/lib/string_builder.h.
pub mod Number
pub mod Builder
