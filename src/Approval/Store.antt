-- ===== src/Approval/Store.antt =====
-- The approvals of a session and their journal: src/approval_store.c, and the replay and the repair
-- of src/approval_replay.c. `render` is the xCDN writer's text of a record, `wrote` what the append
-- came to; `journal` lists the records whose frames are whole on disk, newest first: it is what a
-- scan of the file `approvals.xcdn` finds. The callers hold the session's lock, the store is there,
-- and a copy's allocation succeeds.
use asterism_asngn.Common.{
  ℕ, ◌+◌, ◌*◌, ◌-◌, ◌^◌, Bool, true, false, not, ◌||◌, Option, none, some, List, [], ◌∷◌, leb, ltb,
  if◌then◌else◌, Bytes, length,
}
use asterism_asngn.Common.Writes.{Wrote, written, failed, unsynced}
use asterism_asngn.Common.Errors.{AsngnErr, io, limit, nomem, invalid, not_found}
use asterism_asngn.Common.Maybe.{◌>>=◌}
use asterism_asngn.Text.Utf8.{utf8_valid}
use asterism_asngn.Approval.{Approval, ApprovalStatus, pending, approved, interrupted, follows}

-- `ASNGN_APPROVAL_FRAME_MAX`.
abbrev pub frame_max : ℕ
frame_max = 2 * 1024 * 1024

abbrev pub int64_top : ℕ
int64_top = 2 ^ 63 - 1

-- The fields of `asngn_session` that the approvals use; `current` is `approvals->current`, `allow` the
-- grants for the session.
pub record Session : Type 0 where
  pub current : Option Approval
  pub journal : List Approval
  pub recovery_required : Bool
  pub allow : List Bytes

abbrev pub Done : Type 0
Done = Session × Option AsngnErr

abbrev pub is_io : AsngnErr → Bool
is_io io = true
is_io _ = false

-- The append and what follows it: an error leaves the record in memory as it was, but after a failed
-- fsync the frame of the new one is on disk.
unfoldable pub append_frame : Session → Approval → Wrote → Done
append_frame s next written = (record s { current = some next; journal = next ∷ s.journal }, none)
append_frame s next (failed e) =
    (record s { recovery_required = s.recovery_required || is_io e }, some e)
append_frame s next unsynced =
    (record s { recovery_required = true; journal = next ∷ s.journal }, some io)

-- A text that could not be written is a failed allocation.
unfoldable pub write_frame : Session → Approval → Option Bytes → Wrote → Done
unfolding append_frame
write_frame s next none wrote = (s, some nomem)
write_frame s next (some frame) wrote =
    if ltb frame_max (length frame)
    then (s, some limit)
    else if not (utf8_valid frame)
    then (s, some invalid)
    else append_frame s next wrote

-- `before && before->sequence >= INT64_MAX`, and the number of the next record.
unfoldable pub at_limit : Option Approval → Bool
at_limit none = false
at_limit (some before) = leb int64_top before.sequence

unfoldable pub next_sequence : Option Approval → ℕ
next_sequence none = 1
next_sequence (some before) = before.sequence + 1

module _ (render : Approval → Option Bytes) where
  -- `asngn_approval_save`.
  unfoldable pub save : Session → Approval → Wrote → Done
  unfolding write_frame at_limit next_sequence
  save s next wrote =
      let numbered = record next { sequence = next_sequence s.current } in
      if s.recovery_required
      then (s, some io)
      else if at_limit s.current
      then (s, some limit)
      else if not (follows s.current numbered)
      then (s, some invalid)
      else write_frame s numbered (render numbered) wrote

  unfoldable pub transition_from : Session → Option Approval → ApprovalStatus → Bool → Wrote → Done
  unfolding save
  transition_from s none status wide wrote = (s, some not_found)
  transition_from s (some before) status wide wrote =
      save s (record before { status = status; session_wide = wide }) wrote

  -- `asngn_approval_transition`.
  unfoldable pub transition : Session → ApprovalStatus → Bool → Wrote → Done
  unfolding transition_from
  transition s status wide wrote = transition_from s s.current status wide wrote

  unfoldable pub interrupt_by : Session → ApprovalStatus → Bool → Wrote → Done
  unfolding transition
  interrupt_by s pending wide wrote = transition s interrupted wide wrote
  interrupt_by s approved wide wrote = transition s interrupted wide wrote
  interrupt_by s _ wide wrote = (s, none)

  unfoldable pub interrupt_open : Session → Option Approval → Wrote → Done
  unfolding interrupt_by
  interrupt_open s none wrote = (s, none)
  interrupt_open s (some a) wrote = interrupt_by s a.status a.session_wide wrote

-- The static `replay` of src/approval_replay.c, on the records that the frames decode to: none is
-- a parse error.
unfoldable pub replay_step : Option Approval → Approval → Option (Option Approval)
replay_step before frame = if follows before frame then some (some frame) else none

unfoldable pub replay : List Approval → Option (Option Approval)
unfolding replay_step
replay [] = some none
replay (frame ∷ older) = replay older >>= λ before. replay_step before frame

-- `asngn_approval_load` on the frames of the file: the session with its repaired store, or none where
-- the file does not replay. Opening the file succeeds.
unfoldable pub load_from :
    (Approval → Option Bytes) → List Approval → Option (Option Approval) → Wrote → Option Done
unfolding interrupt_open
load_from render frames none wrote = none
load_from render frames (some current) wrote =
    let s : Session = record {
      current = current;
      journal = frames;
      recovery_required = false;
      allow = [];
    } in
    some (interrupt_open render s current wrote)

unfoldable pub load : (Approval → Option Bytes) → List Approval → Wrote → Option Done
unfolding load_from replay
load render frames wrote = load_from render frames (replay frames) wrote
