-- ===== src/Examples.antt =====
-- Runs of the definitions at concrete inputs, and the theorems at inputs that meet their
-- conditions.
mod Text
mod Storage
mod Stream
mod Books
mod Uuid
mod Work
mod Approval
mod ToolCache
mod History
mod Duration
mod Wal
mod Date
mod Redact
mod Excerpt
mod Detail
