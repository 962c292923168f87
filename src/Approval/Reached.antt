-- ===== src/Approval/Reached.antt =====
-- The lanes that asking, answering, carrying on and reopening lead to: src/confirmation.c,
-- `asngn_confirm` of src/api.c and src/approval_replay.c, in any order that the threads allow. One
-- turn at a time runs in a lane, so a call asks only where none waits.
use asterism_asngn.Common.{
  ◌≡◌, ◌≢◌, refl, sym, ◌∙◌, ap, subst, Bool, true, false, not, Option, none, some, inl, List, [],
  ◌∷◌, ◌++◌, Bytes, bytes_eq→eq, arith, pick, pick_on,
}
use asterism_asngn.Common.Maybe.{some_eq}
use asterism_asngn.Common.Writes.{Wrote}
use asterism_asngn.Common.Errors.{AsngnErr, Result, ok, err}
use asterism_asngn.Approval.{Approval, approved, consumed, interrupted, invalidated}
use asterism_asngn.Approval.Store.{Session, Done, replay, load, transition}
use asterism_asngn.Approval.Binding.{Tool, Turn}
use asterism_asngn.Approval.Confirmation.{
  ConfirmMode, Note, Slot, Waiting, Lane, Verdict, DenyCode, ask, confirm_lane, settle, resume,
  close, close_by, finish_allowed, finish_refused, add_grant, is_fresh, is_answered, refused,
  astools_denied,
}
use asterism_asngn.Approval.Saved.{
  Replays, Recovers, IsOf, transition-Turned, transition-Lasts, transition-IsOf,
}
use asterism_asngn.Approval.Journal.{load-Recovers}
use asterism_asngn.Approval.Reviewed.{IsReviewed, replay-IsReviewed}
use asterism_asngn.Approval.Sound.{
  IsSound, IsAnswered, idle, empty_session, idle-IsSound, ask-IsSound, confirm_lane-IsSound,
  resume-IsSound,
}

module _ (render : Approval → Option Bytes) where
  pub data Step : Lane → Lane → Type 0 where
    asked :
        (l : Lane) (mode : ConfirmMode) (t : Turn) (tool : Tool) (note : Note) (args : Option Bytes)
        (random : Bytes) (redacted : Result (Option Bytes)) (snapshot : Result Bytes)
        (wrote : Wrote)
        → l.waiting ≡ none
        → Step l (ask render l mode t tool note args random redacted snapshot wrote).0
    answered :
        (l : Lane) (confirm_id : Bytes) (allow wide : Bool) (wrote : Wrote)
        → Step l (confirm_lane render l confirm_id allow wide wrote).0
    resumed :
        (l : Lane) (w : Waiting) (waited : Option AsngnErr) (cancelled expired : Bool)
        (current : Result Bytes) (valid : Bool) (wrote : Wrote)
        → l.waiting ≡ some w
        → Step l (resume render l w waited cancelled expired current valid wrote).0
    -- A new process opens the session. Where the repair fails the program uses only the next one; here
    -- calls may follow all the same.
    reopened :
        (l : Lane) (s : Session) (e : Option AsngnErr) (wrote : Wrote)
        → load render l.session.journal wrote ≡ some (s, e)
        → Step l (idle s)
    -- A frame that was not synced may be gone by then.
    lost :
        (l : Lane) (next : Approval) (older : List Approval) (s : Session) (e : Option AsngnErr)
        (wrote : Wrote)
        → l.session.recovery_required ≡ true
        → l.session.journal ≡ next ∷ older
        → load render older wrote ≡ some (s, e)
        → Step l (idle s)

  pub data Reach : Lane → Type 0 where
    start : Reach (idle empty_session)
    step : {l m : Lane} → Reach l → Step l m → Reach m

  Step-IsSound : {l m : Lane} → Step l m → IsSound l → IsSound m
  Step-IsSound (asked l mode t tool note args random redacted snapshot wrote free) i =
      ask-IsSound render l mode t tool note args random redacted snapshot wrote free i
  Step-IsSound (answered l confirm_id allow wide wrote) i =
      confirm_lane-IsSound render l confirm_id allow wide wrote i
  Step-IsSound (resumed l w waited cancelled expired current valid wrote has) i =
      resume-IsSound render l w waited cancelled expired current valid wrote i
  Step-IsSound (reopened l s e wrote h) i =
      idle-IsSound s (load-Recovers render l.session.journal wrote h)
  Step-IsSound (lost l next older s e wrote broken has h) i =
      idle-IsSound s (load-Recovers render older wrote h)

  start-Recovers : Recovers empty_session
  unfolding replay
  start-Recovers = inl refl

  -- In every lane that the threads and restarts lead to, whatever the writes came to: the journal of
  -- approvals replays to the record in memory, or else a save has failed whose frame is on disk, and
  -- then the session needs recovery, the journal in front of that frame replays to the record in memory and
  -- the frame's record may follow it; a slot that says yes belongs to an approval that stands as
  -- approved; a lane where no call waits has neither a request nor an answer; and where one waits, the
  -- record in memory is its request, of the same files.
  pub Reach-IsSound : {l : Lane} → Reach l → IsSound l
  Reach-IsSound start = idle-IsSound empty_session start-Recovers
  Reach-IsSound (step before next) = Step-IsSound next (Reach-IsSound before)

  -- A call that goes ahead: the user said yes in time, the files and the tool are the reviewed ones.
  abbrev pub IsCleared : Slot → Waiting → Bool → Bool → Result Bytes → Bool → Type 0
  IsCleared slot w cancelled expired current valid =
      (slot.decided ≡ true)
      × (slot.allow ≡ true)
      × (cancelled ≡ false)
      × (expired ≡ false)
      × (current ≡ ok w.snapshot)
      × (valid ≡ true)

  -- The record in memory, and the last one of the file, is the use of the request.
  abbrev pub IsUsed : Waiting → Session → Approval → Type 0
  IsUsed w s a =
      (s.current ≡ some a) × (a.status ≡ consumed) × (a.id ≡ w.id) × (a.snapshot ≡ w.snapshot)

  abbrev Used : Waiting → Session → Type 0
  Used w s = Replays s × (a : Approval) × IsUsed w s a

  is_fresh-parts :
      (snapshot : Bytes) (current : Result Bytes) (valid : Bool)
      → is_fresh render snapshot current valid ≡ true
      → (current ≡ ok snapshot) × (valid ≡ true)
  unfolding is_fresh
  is_fresh-parts snapshot (err e) valid h = cc
  is_fresh-parts snapshot (ok now) valid h = ground (arith, bytes_eq→eq snapshot now)

  is_answered-parts :
      (slot : Slot) (waited : Option AsngnErr) (cancelled expired : Bool)
      → is_answered render slot waited cancelled expired ≡ true
      → (slot.decided ≡ true) × (cancelled ≡ false) × (expired ≡ false)
  is_answered-parts slot none cancelled expired h = ground arith
  is_answered-parts slot (some e) cancelled expired h = cc

  -- A use that is saved.
  abbrev Uses : Waiting → Done → Type 0
  Uses w d = d.1 ≡ none → Used w d.0

  transition-Uses :
      (s : Session) (w : Waiting) (wide : Bool) (wrote : Wrote)
      → Recovers s
      → IsOf w.id w.snapshot s
      → Uses w (transition render s consumed wide wrote)
  transition-Uses s w wide wrote r held saved =
      let (a, has, is) = transition-Turned render s consumed wide wrote saved in
      let (b, found, same, files) = transition-IsOf render s consumed wide wrote held in
      let it : b ≡ a = some_eq (sym found ∙ has) in
      (
        (transition-Lasts render s consumed wide wrote r).1 saved,
        a,
        (
          has,
          is,
          ap (λ (c : Approval). c.id) (sym it) ∙ same,
          ap (λ (c : Approval). c.snapshot) (sym it) ∙ files,
        ),
      )

  close_by-Uses :
      (s : Session) (w : Waiting) (wide : Bool) (wrote : Wrote)
      → Recovers s
      → IsOf w.id w.snapshot s
      → Uses w (close_by render s approved consumed wide wrote)
  unfolding close_by
  close_by-Uses s w wide wrote r held = transition-Uses s w wide wrote r held

  close-Uses :
      (s : Session) (w : Waiting) (current : Option Approval) (wrote : Wrote) {a : Approval}
      → Recovers s
      → IsOf w.id w.snapshot s
      → current ≡ some a
      → a.status ≡ approved
      → Uses w (close render s current consumed wrote)
  unfolding close
  close-Uses s w none wrote r held e is = cc
  close-Uses s w (some b) wrote r held e is =
      subst (λ st. Uses w (close_by render s st consumed b.session_wide wrote))
        (sym (ap (λ (c : Approval). c.status) (some_eq e) ∙ is))
        (close_by-Uses s w b.session_wide wrote r held)

  finish_allowed-Used :
      (wide : Bool) (w : Waiting) (d : Done)
      → Uses w d
      → (finish_allowed render wide w d).1.allowed ≡ true
      → Used w (finish_allowed render wide w d).0
  unfolding finish_allowed add_grant
  finish_allowed-Used wide w (t, some e) uses h = cc
  finish_allowed-Used wide w (t, none) uses h =
      pick (Used w) wide (record t { allow = t.allow ++ w.grant ∷ [] }) t (uses refl) (uses refl)

  finish_refused-allowed :
      (code : DenyCode) (e : Option AsngnErr) (d : Done)
      → (finish_refused render code e d).1.allowed ≢ true
  unfolding finish_refused
  finish_refused-allowed code none (t, saved) h = cc
  finish_refused-allowed code (some e) (t, saved) h = cc

  settle-Used :
      (s : Session) (slot : Slot) (w : Waiting) (waited : Option AsngnErr)
      (cancelled expired : Bool) (current : Result Bytes) (valid : Bool) (wrote : Wrote)
      → Recovers s
      → IsAnswered s slot
      → IsOf w.id w.snapshot s
      → (settle render s slot w waited cancelled expired current valid wrote).1.allowed ≡ true
      → IsCleared slot w cancelled expired current valid
        × Used w (settle render s slot w waited cancelled expired current valid wrote).0
  unfolding settle
  settle-Used s slot w waited cancelled expired current valid wrote r sound held =
      let P : Session × Verdict → Type 0 =
        λ p. p.1.allowed ≡ true → IsCleared slot w cancelled expired current valid × Used w p.0 in
      pick_on P (not (is_answered render slot waited cancelled expired)) _ _
        (λ h goes.
          absurd
            (finish_refused-allowed _ waited (close render s s.current interrupted wrote) goes))
        (λ h.
          pick_on P (not slot.allow) (s, refused astools_denied none) _ (λ k goes. cc)
            (λ k.
              pick_on P (is_fresh render w.snapshot current valid) _ _
                (λ m goes.
                  let (said, live, timely) =
                    is_answered-parts slot waited cancelled expired (ground arith) in
                  let (same, ok_tool) = is_fresh-parts w.snapshot current valid m in
                  let allow : slot.allow ≡ true = ground arith in
                  let (a, has, is) = sound said allow in
                  (
                    (said, allow, live, timely, same, ok_tool),
                    finish_allowed-Used slot.session_wide w
                        (close render s s.current consumed wrote)
                        (close-Uses s w s.current wrote r held has is) goes,
                  ))
                (λ m goes.
                  absurd (
                    finish_refused-allowed _ _ (close render s s.current invalidated wrote) goes))))

  -- In every lane that can be reached, the call that waits there goes ahead only if the user's answer
  -- was a yes, the turn was neither cancelled nor out of time, the files are those of the request and
  -- the tool is still the selected one. Then the newest record, in memory and on disk, is the use of
  -- this request, with its id and its files; directly in front of it, in the file, stand the user's approval and the
  -- pending request, and the three agree in all that was reviewed.
  pub resume-IsReviewed :
      (l : Lane) (w : Waiting) (waited : Option AsngnErr) (cancelled expired : Bool)
      (current : Result Bytes) (valid : Bool) (wrote : Wrote)
      → Reach l
      → l.waiting ≡ some w
      → (resume render l w waited cancelled expired current valid wrote).1.allowed ≡ true
      → (let after = (resume render l w waited cancelled expired current valid wrote).0.session in
          IsCleared l.slot w cancelled expired current valid
          × (a : Approval) × IsUsed w after a
          × IsReviewed after.journal a)
  unfolding resume
  resume-IsReviewed l w waited cancelled expired current valid wrote reach has goes =
      let sound = Reach-IsSound reach in
      let (ready, (replays, a, used)) =
        settle-Used l.session l.slot w waited cancelled expired current valid wrote sound.0 sound.1
          (sound.3 w has) goes in
      let after =
        (settle render l.session l.slot w waited cancelled expired current valid wrote).0 in
      (ready, a, used, replay-IsReviewed after.journal used.1 (replays ∙ ap some used.0))
