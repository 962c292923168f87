-- ===== src/Lib.antt =====
-- asngn, the engine of the asterism harness: a turn of a conversation is admitted, routed to a
-- language model, carried out through tools, and accounted for. This library models, from the C
-- sources, the deterministic parts that the engine does not leave to the model, and proves what
-- they promise.
--
-- The parts and their files (paths from the repository's root):
-- - Common: lists, tests, words and integers that all parts share; Common/Errors is `asngn_err` of
--   include/asngn.h, Common/Writes what an append of src/stream.c to a journal comes to.
-- - Text: src/util.c and src/safety.c. Utf8 is `asngn_utf8_valid` and `utf8_invalid_offset`, Strip
--   the in-place loop of `asngn_strip_controls`, Gate `asngn_gate_input`, Sentence
--   `asngn_sentence_trim`, Slug `asngn_slug_valid`.
-- - Buffer: `asngn_buf` of src/util.c.
-- - Sha256: src/sha256.c, the digest behind the journals, the caches and the approvals.
-- - Consumption: src/consumption.c, the reducer of the token accounting; Operations:
--   src/operations.c, the reservation and settlement of a model call, which publish a row of the
--   reducer once it is on disk.
-- - Uuid: src/uuid.c, the identifiers of turns, actions and approvals.
-- - Work: the acceptance contract of a session. Contract and Evidence are src/work_definition.c,
--   Store src/work_store.c and src/work_api.c, Journal the replay of src/work_replay.c, Receipts
--   src/work_observe.c and src/verification.c; Refreshed, Settled, Retained, Proven and Reached hold
--   the proofs. A tool call is observed by Receipts, its proofs are reviewed by Evidence and saved
--   by Store, which appends the frame that Journal replays.
-- - Approval: a user's approval of a tool call. Approval is `asngn_approval_follows` of
--   src/approval_codec.c, Store src/approval_store.c and src/approval_replay.c, Binding
--   src/approval_request.c, Confirmation src/confirmation.c and `asngn_confirm` of src/api.c; Saved,
--   Journal, Reviewed, Sound, Reached and Answered hold the proofs. `asngn_call_confirm` is two functions, `ask`
--   up to its wait and `resume` from there, and an answer is a step in between.
-- - ToolCache: src/toolcache.c, the exact-key cache of tool results with its eviction; Evicted,
--   Distinct, Bounded, Reached and Found hold the proofs.
-- - History: src/context_history.c, the turns that a prompt quotes, with `asngn_context_tokens` of
--   src/context_budget.c.
-- - Duration: the ISO 8601 durations of src/time.c, for the configuration's time limits.
-- - Redact: src/redact.c, the secret scanner. Patterns are the matchers, Scan the two phases and the
--   copy; Fits, Ordered, Sized, Covered and Enough hold the proofs. The entropy of a run is a floating-point
--   number, so whether it reaches the bar is an argument.
-- - Excerpt: src/excerpt.c, the parts of a long output that a prompt shows. Windows, Kept and Merged hold
--   the proofs.
-- - Detail: src/detail.c, how much an answer may say. Cues holds the proof.
-- - Date: the calendar and the RFC 3339 times of src/time.c. Era and Calendar are days and dates,
--   Printed the text.
-- - Wal: src/wal.c, the frames under the journals of sessions and approvals: `asngn_wal_append`, and
--   `scan` behind `asngn_wal_visit` and `asngn_wal_inspect`. Decimal, Header, Frames and Sound are
--   one frame, Replayed and Crash a whole log. Its client is a callback, a parameter.
-- - Stream: `asngn_stream_append` of src/stream.c, the append to a file with its rollback; Whole holds the
--   proof. The log of Wal is written through it.
-- - Examples: runs of the code at concrete inputs.
--
-- Reading the model. A byte string is a list of numbers below 256, a NUL-terminated one the list
-- of the bytes in front of its NUL. Pointers that the callers never pass as NULL have no case. An
-- `int64_t` is an integer kept in its range by the code's own checks; an unsigned word wraps by `%
-- 2 ^ w`. `size_t` has 64 bits. Loops recur on the list, on the rounds left, or on fuel: a fuel is
-- the length of what is left to read, where each round reads a byte at least, 64 doublings for a
-- buffer's capacity, 64 bytes of padding, or the entries of a cache that is evicted from. The disk
-- and the clock are arguments: what a write came to, and the day. A write that fails may still
-- leave its frame on disk, as a failed fsync does. The xCDN reader and writer are parameters of
-- the definitions that call them, and so is what a comparison of floating-point numbers says.
-- Locks are not modelled: each function is one step of its object.
--
-- Not modelled: the model providers, the tool runtime, the memory service and the xCDN and JSON
-- parsers, which are other projects; the terminal and protocol front ends; threads; the rest of
-- file input and output.
pub mod Common
pub mod Text
pub mod Buffer
pub mod Sha256
pub mod Consumption
pub mod Operations
pub mod Uuid
pub mod Work
pub mod Approval
pub mod ToolCache
pub mod History
pub mod Duration
pub mod Date
pub mod Stream
pub mod Wal
pub mod Redact
pub mod Excerpt
pub mod Detail
pub mod Examples
