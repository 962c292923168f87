-- ===== src/Approval/Confirmation.antt =====
-- Asking and answering: src/confirmation.c and `asngn_confirm` of src/api.c. `asngn_call_confirm` is
-- two functions, up to its wait for an answer and from there: the answer comes from another thread
-- in between.
use asterism_asngn.Common.{
  Bool, true, false, not, ◌&&◌, ◌||◌, Option, none, some, List, [], ◌∷◌, ◌++◌, if◌then◌else◌, Bytes,
  bytes_eq,
}
use asterism_asngn.Common.Writes.{Wrote}
use asterism_asngn.Common.Errors.{AsngnErr, Result, ok, err, busy, not_found}
use asterism_asngn.Approval.{
  Approval, ApprovalStatus, pending, approved, denied, consumed, invalidated, interrupted,
  SecurityProfile, automation_ci, same_profile, same_bool,
}
use asterism_asngn.Approval.Store.{Session, Done, transition}
use asterism_asngn.Approval.Binding.{Tool, Turn, Prepared, grant_key, prepare}

-- `asngn_confirm_mode`.
pub data ConfirmMode : Type 0 where
  prompt deny allow_all : ConfirmMode

-- The code of a refused call.
pub data DenyCode : Type 0 where
  astools_denied confirm_required approval_stale astools_cancelled confirm_timeout : DenyCode

-- The fields of `asngn_tool_note` that the code reads.
pub record Note : Type 0 where
  pub read_only : Bool
  pub destructive : Bool

-- `asngn_confirm_slot`; `bound` says that its session is there.
pub record Slot : Type 0 where
  pub id : Bytes
  pub decided : Bool
  pub allow : Bool
  pub session_wide : Bool
  pub bound : Bool

-- The locals of `asngn_call_confirm` that outlive the wait.
pub record Waiting : Type 0 where
  pub id : Bytes
  pub snapshot : Bytes
  pub grant : Bytes

-- A runtime lane: the session of its turn, its slot, and the call that waits in it.
pub record Lane : Type 0 where
  pub session : Session
  pub slot : Slot
  pub waiting : Option Waiting

-- What `asngn_call_confirm` returns: `allowed`, `deny_code`, `approval_id` and its code.
pub record Verdict : Type 0 where
  pub allowed : Bool
  pub deny_code : DenyCode
  pub approval_id : Bytes
  pub code : Option AsngnErr

abbrev pub allowed_as : Bytes → Verdict
allowed_as id = record { allowed = true; deny_code = astools_denied; approval_id = id; code = none }

abbrev pub refused : DenyCode → Option AsngnErr → Verdict
refused deny_code code = record {
  allowed = false;
  deny_code = deny_code;
  approval_id = [];
  code = code;
}

abbrev pub empty_id : Bytes → Bool
empty_id [] = true
empty_id (ch ∷ s) = false

unfoldable pub granted : Bytes → List Bytes → Bool
granted grant [] = false
granted grant (g ∷ gs) = bytes_eq g grant || granted grant gs

-- The calls that are decided by policy alone.
unfoldable pub is_free : ConfirmMode → SecurityProfile → Note → Bool
is_free allow_all profile note = true
is_free deny profile note = note.read_only && not note.destructive
is_free prompt profile note =
    (note.read_only && not note.destructive)
    || (same_profile profile automation_ci && not note.destructive)

abbrev pub is_deny : ConfirmMode → Bool
is_deny deny = true
is_deny _ = false

-- The slot of a new request.
abbrev pub asking : Bytes → Slot
asking id = record { id = id; decided = false; allow = false; session_wide = false; bound = true }

-- A verdict, or none while the call waits.
abbrev pub Asked : Type 0
Asked = Lane × Option Verdict

unfoldable pub wait_on : Lane → Bytes → Prepared → Asked
wait_on l grant (s, err e) = (record l { session = s }, some (refused astools_denied (some e)))
wait_on l grant (s, ok a) = (
  record {
    session = s;
    slot = asking a.id;
    waiting = some (record { id = a.id; snapshot = a.snapshot; grant = grant });
  },
  none,
)

module _ (render : Approval → Option Bytes) where
  unfoldable pub ask :
      Lane
      → ConfirmMode
      → Turn
      → Tool
      → Note
      → Option Bytes
      → Bytes
      → Result (Option Bytes)
      → Result Bytes
      → Wrote
      → Asked
  unfolding is_free granted wait_on
  ask l mode t tool note args random redacted snapshot wrote =
      if is_free mode t.security_profile note
      then (l, some (allowed_as []))
      else if is_deny mode
      then (l, some (refused confirm_required none))
      else if granted (grant_key t tool) l.session.allow
      then (l, some (allowed_as []))
      else wait_on l (grant_key t tool)
          (prepare render l.session t tool args random redacted snapshot wrote)

  -- The answer of the store, and the slot that follows it.
  unfoldable pub decide : Lane → Bool → Bool → Done → Lane × Option AsngnErr
  decide l allow wide (s, some e) = (record l { session = s }, some e)
  decide l allow wide (s, none) = (
    record l {
      session = s;
      slot = record l.slot { decided = true; allow = allow; session_wide = allow && wide };
    },
    none,
  )

  -- `asngn_confirm` in one lane.
  unfoldable pub confirm_lane : Lane → Bytes → Bool → Bool → Wrote → Lane × Option AsngnErr
  unfolding decide
  confirm_lane l confirm_id allow wide wrote =
      if empty_id l.slot.id || not (bytes_eq l.slot.id confirm_id)
      then (l, some not_found)
      else if l.slot.decided
      then (
        l,
        if same_bool l.slot.allow allow && same_bool l.slot.session_wide (allow && wide)
            then none
            else some busy,
      )
      else if not l.slot.bound
      then (l, some not_found)
      else decide l allow wide
          (transition render l.session (if allow then approved else denied) (allow && wide) wrote)

  abbrev is_not_found : Option AsngnErr → Bool
  is_not_found (some not_found) = true
  is_not_found _ = false

  -- `asngn_confirm` over the lanes: the first that knows the request answers.
  unfoldable pub confirm : List Lane → Bytes → Bool → Bool → Wrote → List Lane × Option AsngnErr
  unfolding confirm_lane
  confirm [] confirm_id allow wide wrote = ([], some not_found)
  confirm (l ∷ ls) confirm_id allow wide wrote =
      let (l', e) = confirm_lane l confirm_id allow wide wrote in
      let (later, e') = confirm ls confirm_id allow wide wrote in
      if is_not_found e then (l' ∷ later, e') else (l' ∷ ls, e)

  -- The slot of no request.
  abbrev pub cleared : Slot → Slot
  cleared slot = record slot { id = []; decided = false; bound = false }

  -- `current` is the snapshot that is taken anew, `valid` the answer of `astools_selection_validate`.
  unfoldable pub is_fresh : Bytes → Result Bytes → Bool → Bool
  is_fresh snapshot (err e) valid = false
  is_fresh snapshot (ok current) valid = bytes_eq snapshot current && valid

  abbrev pub error_of {ℓ} : {A : Type ℓ} → Result A → Option AsngnErr
  error_of (ok a) = none
  error_of (err e) = some e

  -- The transition at the end, where the record is still open; there is one since the request.
  unfoldable pub close_by : Session → ApprovalStatus → ApprovalStatus → Bool → Wrote → Done
  close_by s pending status wide wrote = transition render s status wide wrote
  close_by s approved status wide wrote = transition render s status wide wrote
  close_by s _ status wide wrote = (s, none)

  unfoldable pub close : Session → Option Approval → ApprovalStatus → Wrote → Done
  unfolding close_by
  close s none status wrote = (s, none)
  close s (some a) status wrote = close_by s a.status status a.session_wide wrote

  -- A grant for the session, on an allocation that succeeds.
  unfoldable pub add_grant : Session → Bool → Bytes → Session
  add_grant s wide grant = if wide then record s { allow = s.allow ++ grant ∷ [] } else s

  -- The end of a call that may go ahead, after its record has been consumed.
  unfoldable pub finish_allowed : Bool → Waiting → Done → Session × Verdict
  unfolding add_grant
  finish_allowed wide w (s, some e) = (s, refused astools_denied (some e))
  finish_allowed wide w (s, none) = (add_grant s wide w.grant, allowed_as w.id)

  -- The end of a call that may not: `e` is the code so far.
  unfoldable pub finish_refused : DenyCode → Option AsngnErr → Done → Session × Verdict
  finish_refused code (some e) (s, saved) = (s, refused code (some e))
  finish_refused code none (s, saved) = (s, refused code saved)

  -- `e == ASNGN_OK && decided && !t->cancel && !asngn_turn_expired(c, t)`.
  abbrev pub is_answered : Slot → Option AsngnErr → Bool → Bool → Bool
  is_answered slot none cancelled expired = slot.decided && not cancelled && not expired
  is_answered slot (some e) cancelled expired = false

  -- From the wait on: `waited` is its code, `cancelled` and `expired` are the turn's as it ends.
  unfoldable pub settle :
      Session
      → Slot
      → Waiting
      → Option AsngnErr
      → Bool
      → Bool
      → Result Bytes
      → Bool
      → Wrote
      → Session × Verdict
  unfolding is_fresh close finish_allowed finish_refused
  settle s slot w waited cancelled expired current valid wrote =
      let timeout = if cancelled then astools_cancelled else confirm_timeout in
      if not (is_answered slot waited cancelled expired)
      then finish_refused timeout waited (close s s.current interrupted wrote)
      else if not slot.allow
      then (s, refused astools_denied none)
      else if is_fresh w.snapshot current valid
      then finish_allowed slot.session_wide w (close s s.current consumed wrote)
      else finish_refused approval_stale (error_of current) (close s s.current invalidated wrote)

  unfoldable pub resume :
      Lane → Waiting → Option AsngnErr → Bool → Bool → Result Bytes → Bool → Wrote → Lane × Verdict
  unfolding settle
  resume l w waited cancelled expired current valid wrote =
      let (s, verdict) = settle l.session l.slot w waited cancelled expired current valid wrote in
      (record { session = s; slot = cleared l.slot; waiting = none }, verdict)
