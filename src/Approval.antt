-- ===== src/Approval.antt =====
-- Approvals of tool calls that change something: what a user reviewed, and what became of it.
-- src/approval_codec.c, src/approval_store.c, src/approval_replay.c, src/approval_request.c,
-- src/confirmation.c and asngn_confirm of src/api.c. A `char` array is the list of the bytes in front
-- of its NUL; `session_wide`, an `int`, is only ever a truth value.
use asterism_asngn.Common.{
  ℕ, suc, ◌+◌, ◌*◌, ◌^◌, Bool, true, false, not, ◌&&◌, ◌||◌, Option, none, some, ltb, leb, ◌==◌,
  if◌then◌else◌, Bytes, bytes_eq,
}
pub mod Store
pub mod Confirmation
pub mod Binding
pub mod Saved
pub mod Journal
pub mod Sound
pub mod Reached
pub mod Answered
pub mod Reviewed

-- `asngn_security_profile`.
pub data SecurityProfile : Type 0 where
  chat coding_readonly coding_sandboxed automation_ci : SecurityProfile

abbrev pub same_profile : SecurityProfile → SecurityProfile → Bool
same_profile chat chat = true
same_profile coding_readonly coding_readonly = true
same_profile coding_sandboxed coding_sandboxed = true
same_profile automation_ci automation_ci = true
same_profile _ _ = false

-- `asngn_approval_status`.
pub data ApprovalStatus : Type 0 where
  pending approved denied consumed invalidated interrupted : ApprovalStatus

-- `asngn_approval`.
pub record Approval : Type 0 where
  pub sequence : ℕ
  pub id : Bytes
  pub turn_id : Bytes
  pub tool_ref : Bytes
  pub command : Bytes
  pub arguments_sha256 : Bytes
  pub package_sha256 : Bytes
  pub snapshot : Bytes
  pub workspace : Bytes
  pub profile : SecurityProfile
  pub status : ApprovalStatus
  pub session_wide : Bool
  pub arguments : Bytes

abbrev pub is_pending : ApprovalStatus → Bool
is_pending pending = true
is_pending _ = false

-- `status >= ASNGN_APPROVAL_DENIED`.
abbrev pub is_closed : ApprovalStatus → Bool
is_closed pending = false
is_closed approved = false
is_closed _ = true

-- What may come behind a pending record of the same request, by the new status and `session_wide`.
unfoldable pub after_pending : ApprovalStatus → Bool → Bool
after_pending approved wide = true
after_pending denied wide = not wide
after_pending interrupted wide = not wide
after_pending _ wide = false

abbrev pub same_bool : Bool → Bool → Bool
same_bool true b = b
same_bool false b = not b

-- Behind an approved one: `same` is `next->session_wide == before->session_wide`.
unfoldable pub after_approved : ApprovalStatus → Bool → Bool
after_approved consumed same = same
after_approved invalidated same = same
after_approved interrupted same = same
after_approved _ same = false

-- The fields that a request never changes, past its id.
unfoldable pub same_review : Approval → Approval → Bool
same_review a b =
    bytes_eq a.turn_id b.turn_id
    && bytes_eq a.tool_ref b.tool_ref
    && bytes_eq a.command b.command
    && bytes_eq a.arguments_sha256 b.arguments_sha256
    && bytes_eq a.package_sha256 b.package_sha256
    && bytes_eq a.snapshot b.snapshot
    && bytes_eq a.workspace b.workspace
    && bytes_eq a.arguments b.arguments
    && same_profile a.profile b.profile

unfoldable pub after_status : ApprovalStatus → Bool → Approval → Bool
unfolding after_pending after_approved
after_status pending wide next = after_pending next.status next.session_wide
after_status approved wide next = after_approved next.status (same_bool next.session_wide wide)
after_status _ wide next = false

-- `asngn_approval_follows`.
unfoldable pub follows : Option Approval → Approval → Bool
unfolding after_status same_review
follows none next = next.sequence == 1 && is_pending next.status && not next.session_wide
follows (some before) next =
    if not (next.sequence == before.sequence + 1)
    then false
    else if not (bytes_eq before.id next.id)
    then is_closed before.status && is_pending next.status && not next.session_wide
    else if not (same_review before next)
    then false
    else after_status before.status before.session_wide next
