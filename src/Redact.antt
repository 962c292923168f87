-- ===== src/Redact.antt =====
-- The secret scanner: src/redact.c.
pub mod Patterns
pub mod Scan
pub mod Fits
pub mod Ordered
pub mod Sized
pub mod Covered
pub mod Enough
