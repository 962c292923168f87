-- ===== src/Approval/Binding.antt =====
-- What a request for approval is bound to: src/approval_request.c. `snapshot` is the result of
-- `asngn_approval_snapshot`, `redacted` that of `asngn_redact`, `random` the bytes of the new
-- identifier.
use asterism_asngn.Common.{
  ℕ, ◌*◌, false, Option, none, some, List, [], ◌∷◌, ◌++◌, ltb, if◌then◌else◌, Bytes, length, take,
}
use asterism_asngn.Common.Writes.{Wrote}
use asterism_asngn.Common.Errors.{Result, ok, err, limit}
use asterism_asngn.Sha256.{Ctx, update, final, sha256, sha256_hex}
use asterism_asngn.Sha256
use asterism_asngn.Uuid.{uuid_v4}
use asterism_asngn.Approval.{
  Approval, SecurityProfile, chat, coding_readonly, coding_sandboxed, automation_ci, pending,
}
use asterism_asngn.Approval.Store.{Session, Done, save}

-- `ASNGN_APPROVAL_ARGS_MAX`.
abbrev pub args_max : ℕ
args_max = 256 * 1024

-- The fields of `astools_selected_command` that the code reads.
pub record Tool : Type 0 where
  pub ref : Bytes
  pub command : Bytes
  pub content_sha256 : Bytes

-- Of the turn: its id, its profile and the root of its session's workspace.
pub record Turn : Type 0 where
  pub span_root : Bytes
  pub security_profile : SecurityProfile
  pub canonical_root : Bytes

-- `%d` of the profile.
abbrev pub profile_digit : SecurityProfile → Bytes
profile_digit chat = b'0' ∷ []
profile_digit coding_readonly = b'1' ∷ []
profile_digit coding_sandboxed = b'2' ∷ []
profile_digit automation_ci = b'3' ∷ []

abbrev grant_tag : Bytes
grant_tag =
    b'a' ∷ b's' ∷ b'n' ∷ b'g' ∷ b'n' ∷ b'-' ∷ b't' ∷ b'o' ∷ b'o' ∷ b'l' ∷ b'-' ∷ b'g' ∷ b'r' ∷ b'a'
    ∷ b'n' ∷ b't' ∷ b'-' ∷ b'v' ∷ b'1' ∷ []

abbrev pub grant_fields : Turn → Tool → List Bytes
grant_fields t tool =
    grant_tag
    ∷ tool.ref
    ∷ tool.command
    ∷ tool.content_sha256
    ∷ t.canonical_root
    ∷ profile_digit t.security_profile
    ∷ []

-- Each field with its NUL.
unfoldable pub hash_fields : Ctx → List Bytes → Ctx
hash_fields h [] = h
hash_fields h (field ∷ fields) = hash_fields (update h (field ++ 0 ∷ [])) fields

-- `asngn_approval_grant_key`.
unfoldable pub grant_key : Turn → Tool → Bytes
unfolding hash_fields
grant_key t tool = sha256_hex (final (hash_fields Sha256.init (grant_fields t tool))) 32

-- The record, with the cuts of its arrays.
unfoldable pub request : Turn → Tool → Bytes → Bytes → Bytes → Bytes → Approval
request t tool args random shown snapshot = record {
  sequence = 0;
  id = uuid_v4 random;
  turn_id = t.span_root;
  tool_ref = take 127 tool.ref;
  command = take 63 tool.command;
  arguments_sha256 = sha256_hex (sha256 args) 32;
  package_sha256 = take 64 tool.content_sha256;
  snapshot = snapshot;
  workspace = take 4095 t.canonical_root;
  profile = t.security_profile;
  status = pending;
  session_wide = false;
  arguments = shown;
}

-- The redacted text, or the arguments where nothing was masked.
abbrev pub shown_text : Bytes → Option Bytes → Bytes
shown_text args none = args
shown_text args (some masked) = masked

abbrev pub Prepared : Type 0
Prepared = Session × Result Approval

abbrev pub from_save : Approval → Done → Prepared
from_save a (s, none) = (s, ok a)
from_save a (s, some e) = (s, err e)

module _ (render : Approval → Option Bytes) where
  unfoldable pub prepare_bound : Session → Approval → Wrote → Prepared
  prepare_bound s a wrote = from_save a (save render s a wrote)

  unfoldable pub prepare_at :
      Session → Turn → Tool → Bytes → Bytes → Bytes → Result Bytes → Wrote → Prepared
  unfolding prepare_bound request
  prepare_at s t tool args random shown (err e) wrote = (s, err e)
  prepare_at s t tool args random shown (ok snapshot) wrote =
      prepare_bound s (request t tool args random shown snapshot) wrote

  unfoldable pub prepare_shown :
      Session
      → Turn
      → Tool
      → Bytes
      → Bytes
      → Result (Option Bytes)
      → Result Bytes
      → Wrote
      → Prepared
  unfolding prepare_at
  prepare_shown s t tool args random (err e) snapshot wrote = (s, err e)
  prepare_shown s t tool args random (ok masked) snapshot wrote =
      if ltb args_max (length (shown_text args masked))
      then (s, err limit)
      else prepare_at s t tool args random (shown_text args masked) snapshot wrote

  unfoldable pub prepare_args :
      Session
      → Turn
      → Tool
      → Bytes
      → Bytes
      → Result (Option Bytes)
      → Result Bytes
      → Wrote
      → Prepared
  unfolding prepare_shown
  prepare_args s t tool args random redacted snapshot wrote =
      if ltb args_max (length args)
      then (s, err limit)
      else prepare_shown s t tool args random redacted snapshot wrote

  -- `asngn_approval_prepare`; on success the id and the snapshot of the record are the caller's.
  unfoldable pub prepare :
      Session
      → Turn
      → Tool
      → Option Bytes
      → Bytes
      → Result (Option Bytes)
      → Result Bytes
      → Wrote
      → Prepared
  unfolding prepare_args
  prepare s t tool none random redacted snapshot wrote = (s, err limit)
  prepare s t tool (some args) random redacted snapshot wrote =
      prepare_args s t tool args random redacted snapshot wrote
