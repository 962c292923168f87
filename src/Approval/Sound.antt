-- ===== src/Approval/Sound.antt =====
-- What each step of a lane keeps: src/confirmation.c, `asngn_confirm` of src/api.c and
-- src/approval_replay.c.
use asterism_asngn.Common.{
  ◌≡◌, refl, subst, Bool, true, false, not, ◌&&◌, ◌||◌, Option, none, some, [], ◌∷◌, ◌++◌, ltb,
  if◌then◌else◌, Bytes, bytes_eq, length, pick, pick_on, or_left, if_true,
}
use asterism_asngn.Common.Writes.{Wrote}
use asterism_asngn.Common.Maybe.{some_eq}
use asterism_asngn.Common.Errors.{AsngnErr, Result, ok, err, not_found, limit}
use asterism_asngn.Approval.{
  Approval, ApprovalStatus, pending, approved, denied, consumed, invalidated, interrupted,
}
use asterism_asngn.Approval.Store.{Session, Done, save, transition}
use asterism_asngn.Approval.Binding.{
  Tool, Turn, Prepared, from_save, request, prepare, prepare_args, prepare_shown, prepare_at,
  prepare_bound, grant_key, args_max, shown_text,
}
use asterism_asngn.Approval.Confirmation.{
  ConfirmMode, DenyCode, confirm_required, approval_stale, astools_denied, Note, Slot, Waiting,
  Lane, Verdict, Asked, ask, wait_on, decide, confirm_lane, settle, resume, close, close_by,
  finish_allowed, finish_refused, add_grant, is_free, is_deny, granted, empty_id, is_fresh,
  is_answered, allowed_as, refused, error_of,
}
use asterism_asngn.Approval.Saved.{
  Recovers, Lasts, Holds, IsOf, save-Lasts, save-Holds, transition-Lasts, transition-IsOf, Turned,
  transition-Turned,
}

-- A slot that says yes belongs to an approval that is approved and not used; a lane where nobody waits
-- has no request.
abbrev pub IsAnswered : Session → Slot → Type 0
IsAnswered s slot =
    slot.decided ≡ true
    → slot.allow ≡ true
    → (a : Approval) × (s.current ≡ some a) × (a.status ≡ approved)

abbrev pub IsIdle : Slot → Type 0
IsIdle slot = (slot.decided ≡ false) × (slot.id ≡ [])

-- The record in memory is the request that the call waits for.
abbrev pub Awaits : Option Waiting → Session → Type 0
Awaits waiting s = (w : Waiting) → waiting ≡ some w → IsOf w.id w.snapshot s

abbrev pub IsSound : Lane → Type 0
IsSound l =
    Recovers l.session
    × IsAnswered l.session l.slot
    × (l.waiting ≡ none → IsIdle l.slot)
    × Awaits l.waiting l.session

-- A lane of a new process.
abbrev pub idle : Session → Lane
idle s = record {
  session = s;
  slot = record { id = []; decided = false; allow = false; session_wide = false; bound = false };
  waiting = none;
}

abbrev pub empty_session : Session
empty_session = record { current = none; journal = []; recovery_required = false; allow = [] }

pub idle-IsSound : (s : Session) → Recovers s → IsSound (idle s)
idle-IsSound s r = (r, (λ d. cc), (λ e. (refl, refl)), λ w e. cc)

blank_named : (id : Bytes) → id ≡ [] → empty_id id ≡ false → ⊥
blank_named id e h = cc

-- What `prepare` leaves.
abbrev Asks : Prepared → Type 0
Asks (s, err e) = Recovers s
Asks (s, ok a) = Recovers s × IsOf a.id a.snapshot s

module _ (render : Approval → Option Bytes) where
  from_save-Asks : (a : Approval) (d : Done) → Lasts d → Holds a d → Asks (from_save a d)
  from_save-Asks a (s, none) lasts held =
      let (n, found) = held refl in (lasts.0, (record a { sequence = n }, found, refl, refl))
  from_save-Asks a (s, some e) lasts held = lasts.0

  prepare_at-Asks :
      (s : Session) (t : Turn) (tool : Tool) (args random shown : Bytes) (snapshot : Result Bytes)
      (wrote : Wrote)
      → Recovers s
      → Asks (prepare_at render s t tool args random shown snapshot wrote)
  unfolding prepare_at prepare_bound
  prepare_at-Asks s t tool args random shown (err e) wrote r = r
  prepare_at-Asks s t tool args random shown (ok snapshot) wrote r =
      let a = request t tool args random shown snapshot in
      from_save-Asks a (save render s a wrote) (save-Lasts render s a wrote r)
        (save-Holds render s a wrote)

  prepare_shown-Asks :
      (s : Session) (t : Turn) (tool : Tool) (args random : Bytes)
      (redacted : Result (Option Bytes)) (snapshot : Result Bytes) (wrote : Wrote)
      → Recovers s
      → Asks (prepare_shown render s t tool args random redacted snapshot wrote)
  unfolding prepare_shown
  prepare_shown-Asks s t tool args random (err e) snapshot wrote r = r
  prepare_shown-Asks s t tool args random (ok masked) snapshot wrote r =
      pick Asks (ltb args_max (length (shown_text args masked))) (s, err limit) _ r
        (prepare_at-Asks s t tool args random (shown_text args masked) snapshot wrote r)

  prepare-Asks :
      (s : Session) (t : Turn) (tool : Tool) (args : Option Bytes) (random : Bytes)
      (redacted : Result (Option Bytes)) (snapshot : Result Bytes) (wrote : Wrote)
      → Recovers s
      → Asks (prepare render s t tool args random redacted snapshot wrote)
  unfolding prepare prepare_args
  prepare-Asks s t tool none random redacted snapshot wrote r = r
  prepare-Asks s t tool (some args) random redacted snapshot wrote r =
      pick Asks (ltb args_max (length args)) (s, err limit) _ r
        (prepare_shown-Asks s t tool args random redacted snapshot wrote r)

  wait_on-IsSound :
      (l : Lane) (grant : Bytes) (p : Prepared)
      → l.waiting ≡ none
      → Asks p
      → IsIdle l.slot
      → IsSound (wait_on l grant p).0
  unfolding wait_on
  wait_on-IsSound l grant (s, err e) free r (undecided, blank) =
      (r, (λ d. cc), (λ e. (undecided, blank)), λ w has. cc)
  wait_on-IsSound l grant (s, ok a) free (r, held) h = (
    r,
    (λ d. cc),
    (λ e. cc),
    λ w has. subst (λ (v : Waiting). IsOf v.id v.snapshot s) (some_eq has) held,
  )

  pub ask-IsSound :
      (l : Lane) (mode : ConfirmMode) (t : Turn) (tool : Tool) (note : Note) (args : Option Bytes)
      (random : Bytes) (redacted : Result (Option Bytes)) (snapshot : Result Bytes) (wrote : Wrote)
      → l.waiting ≡ none
      → IsSound l
      → IsSound (ask render l mode t tool note args random redacted snapshot wrote).0
  unfolding ask
  ask-IsSound l mode t tool note args random redacted snapshot wrote free i =
      let asked = prepare render l.session t tool args random redacted snapshot wrote in
      pick (λ (p : Asked). IsSound p.0) (is_free mode t.security_profile note)
        (l, some (allowed_as [])) _ i
        (pick (λ (p : Asked). IsSound p.0) (is_deny mode) (l, some (refused confirm_required none))
          _ i
          (pick (λ (p : Asked). IsSound p.0) (granted (grant_key t tool) l.session.allow)
            (l, some (allowed_as [])) _ i
            (wait_on-IsSound l (grant_key t tool) asked free
              (prepare-Asks l.session t tool args random redacted snapshot wrote i.0) (i.2 free))))

  decide-IsSound :
      (l : Lane) (allow wide : Bool) (d : Done)
      → Recovers d.0
      → Awaits l.waiting d.0
      → (allow ≡ true
          → d.1 ≡ none
          → (a : Approval) × (d.0.current ≡ some a) × (a.status ≡ approved))
      → empty_id l.slot.id ≡ false
      → l.slot.decided ≡ false
      → IsSound l
      → IsSound (decide render l allow wide d).0
  unfolding decide
  decide-IsSound l allow wide (s, some e) r held turned named undecided i =
      (r, (λ d. cc), i.2, held)
  decide-IsSound l allow wide (s, none) r held turned named undecided i = (
    r,
    (λ d yes. turned yes refl),
    (λ free. absurd (blank_named l.slot.id (i.2 free).1 named)),
    held,
  )

  pub confirm_lane-IsSound :
      (l : Lane) (confirm_id : Bytes) (allow wide : Bool) (wrote : Wrote)
      → IsSound l
      → IsSound (confirm_lane render l confirm_id allow wide wrote).0
  unfolding confirm_lane
  confirm_lane-IsSound l confirm_id allow wide wrote i =
      let status = if allow then approved else denied in
      let d = transition render l.session status (allow && wide) wrote in
      let P : Lane × Option AsngnErr → Type 0 = λ p. IsSound p.0 in
      pick_on P (empty_id l.slot.id || not (bytes_eq l.slot.id confirm_id)) (l, some not_found) _
        (λ h. i)
        (λ h.
          pick_on P l.slot.decided (l, _) _ (λ k. i)
            (λ k.
              pick P (not l.slot.bound) (l, some not_found) (decide render l allow wide d) i
                (decide-IsSound l allow wide d
                  (transition-Lasts render l.session status (allow && wide) wrote i.0).0
                  (λ w has.
                    transition-IsOf render l.session status (allow && wide) wrote (i.3 w has))
                  (λ yes.
                    subst (λ st. Turned render l.session st d) (if_true approved denied yes)
                      (transition-Turned render l.session status (allow && wide) wrote))
                  (or_left (empty_id l.slot.id) _ h) k i)))

  -- The ends of a call.
  close_by-Recovers :
      (s : Session) (from status : ApprovalStatus) (wide : Bool) (wrote : Wrote)
      → Recovers s
      → Recovers (close_by render s from status wide wrote).0
  unfolding close_by
  close_by-Recovers s pending status wide wrote r =
      (transition-Lasts render s status wide wrote r).0
  close_by-Recovers s approved status wide wrote r =
      (transition-Lasts render s status wide wrote r).0
  close_by-Recovers s denied status wide wrote r = r
  close_by-Recovers s consumed status wide wrote r = r
  close_by-Recovers s invalidated status wide wrote r = r
  close_by-Recovers s interrupted status wide wrote r = r

  close-Recovers :
      (s : Session) (current : Option Approval) (status : ApprovalStatus) (wrote : Wrote)
      → Recovers s
      → Recovers (close render s current status wrote).0
  unfolding close
  close-Recovers s none status wrote r = r
  close-Recovers s (some a) status wrote r =
      close_by-Recovers s a.status status a.session_wide wrote r

  finish_allowed-Recovers :
      (wide : Bool) (w : Waiting) (d : Done)
      → Recovers d.0
      → Recovers (finish_allowed render wide w d).0
  unfolding finish_allowed add_grant
  finish_allowed-Recovers wide w (s, some e) r = r
  finish_allowed-Recovers wide w (s, none) r =
      pick Recovers wide (record s { allow = s.allow ++ w.grant ∷ [] }) s r r

  finish_refused-Recovers :
      (code : DenyCode) (e : Option AsngnErr) (d : Done)
      → Recovers d.0
      → Recovers (finish_refused render code e d).0
  unfolding finish_refused
  finish_refused-Recovers code none (s, saved) r = r
  finish_refused-Recovers code (some e) (s, saved) r = r

  settle-Recovers :
      (s : Session) (slot : Slot) (w : Waiting) (waited : Option AsngnErr)
      (cancelled expired : Bool) (current : Result Bytes) (valid : Bool) (wrote : Wrote)
      → Recovers s
      → Recovers (settle render s slot w waited cancelled expired current valid wrote).0
  unfolding settle
  settle-Recovers s slot w waited cancelled expired current valid wrote r =
      let P : Session × Verdict → Type 0 = λ p. Recovers p.0 in
      pick P (not (is_answered render slot waited cancelled expired)) _ _
        (finish_refused-Recovers _ waited (close render s s.current interrupted wrote)
          (close-Recovers s s.current interrupted wrote r))
        (pick P (not slot.allow) (s, refused astools_denied none) _ r
          (pick P (is_fresh render w.snapshot current valid) _ _
            (finish_allowed-Recovers slot.session_wide w (close render s s.current consumed wrote)
              (close-Recovers s s.current consumed wrote r))
            (finish_refused-Recovers approval_stale (error_of render current)
              (close render s s.current invalidated wrote)
              (close-Recovers s s.current invalidated wrote r))))

  pub resume-IsSound :
      (l : Lane) (w : Waiting) (waited : Option AsngnErr) (cancelled expired : Bool)
      (current : Result Bytes) (valid : Bool) (wrote : Wrote)
      → IsSound l
      → IsSound (resume render l w waited cancelled expired current valid wrote).0
  unfolding resume
  resume-IsSound l w waited cancelled expired current valid wrote i = (
    settle-Recovers l.session l.slot w waited cancelled expired current valid wrote i.0,
    (λ d. cc),
    (λ e. (refl, refl)),
    λ v has. cc,
  )
