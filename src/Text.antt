-- ===== src/Text.antt =====
-- src/util.c and src/safety.c: byte strings, their checks and their cleaning.
pub mod Utf8
pub mod Strip
pub mod Gate
pub mod Sentence
pub mod Slug
