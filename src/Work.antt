-- ===== src/Work.antt =====
-- Acceptance contracts: what must be shown of a session's work before it counts as done, and the
-- evidence for it. src/work_definition.c, src/work_api.c, src/work_store.c, src/work_observe.c,
-- src/work_replay.c and the types of include/asngn.h.
pub mod Contract
pub mod Evidence
pub mod Refreshed
pub mod Settled
pub mod Store
pub mod Retained
pub mod Journal
pub mod Receipts
pub mod Proven
pub mod Reached
