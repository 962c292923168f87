-- ===== src/Approval/Saved.antt =====
-- What a save leaves of the journal of approvals: src/approval_store.c.
use asterism_asngn.Common.{
  ℕ, ◌≡◌, refl, sym, ◌∙◌, ap, Bool, true, false, not, Option, none, some, List, ◌∷◌, ltb, Bytes,
  length, arith, ◌⊎◌, inl, inr, pick, pick_on, subst,
}
use asterism_asngn.Common.Writes.{Wrote, written, failed, unsynced}
use asterism_asngn.Common.Errors.{AsngnErr, io, limit, nomem, invalid}
use asterism_asngn.Common.Maybe.{some_eq}
use asterism_asngn.Text.Utf8.{utf8_valid}
use asterism_asngn.Approval.{Approval, ApprovalStatus, follows}
use asterism_asngn.Approval.Store.{
  Session, Done, append_frame, write_frame, save, transition, transition_from, at_limit,
  next_sequence, replay, replay_step, frame_max,
}

-- The record in memory is what the frames on disk replay to.
abbrev pub Replays : Session → Type 0
Replays s = replay s.journal ≡ some s.current

-- The file is one frame ahead: the save of a record that may follow the one in memory has failed, but
-- its frame is on disk, and no call saves again before the session is opened anew.
abbrev pub IsAhead : Session → Type 0
IsAhead s =
    (s.recovery_required ≡ true)
    × (next : Approval) × (older : List Approval) × (s.journal ≡ next ∷ older)
    × (replay older ≡ some s.current)
    × (follows s.current next ≡ true)

abbrev pub Recovers : Session → Type 0
Recovers s = Replays s ⊎ IsAhead s

-- What a call leaves that may save: after a success the file and the memory agree.
abbrev pub Lasts : Done → Type 0
Lasts d = Recovers d.0 × (d.1 ≡ none → Replays d.0)

pub replay_step-follows :
    (before : Option Approval) (frame : Approval) {after : Option Approval}
    → replay_step before frame ≡ some after
    → (follows before frame ≡ true) × (after ≡ some frame)
unfolding replay_step
replay_step-follows before frame h = ground arith

replay-append :
    (s : Session) (next : Approval)
    → Replays s
    → follows s.current next ≡ true
    → replay (next ∷ s.journal) ≡ some (some next)
unfolding replay replay_step
replay-append s next r h = rw (r, h)

append_frame-Lasts :
    (s : Session) (next : Approval) (wrote : Wrote)
    → Replays s
    → follows s.current next ≡ true
    → Lasts (append_frame s next wrote)
unfolding append_frame
append_frame-Lasts s next written r h =
    let grown = replay-append s next r h in (inl grown, λ e. grown)
append_frame-Lasts s next (failed code) r h = (inl r, λ e. cc)
append_frame-Lasts s next unsynced r h = (inr (refl, next, s.journal, refl, r, h), λ e. cc)

-- A call that reports success has put `next`, with some number, behind the journal.
abbrev pub Holds : Approval → Done → Type 0
Holds next d = d.1 ≡ none → (n : ℕ) × (d.0.current ≡ some (record next { sequence = n }))

append_frame-Holds :
    (s : Session) (next : Approval) (n : ℕ) (wrote : Wrote)
    → Holds next (append_frame s (record next { sequence = n }) wrote)
unfolding append_frame
append_frame-Holds s next n written = λ e. (n, refl)
append_frame-Holds s next n (failed code) = λ e. cc
append_frame-Holds s next n unsynced = λ e. cc

-- The record in memory is one of this request and of these files.
abbrev pub IsOf : Bytes → Bytes → Session → Type 0
IsOf id snapshot s = (a : Approval) × (s.current ≡ some a) × (a.id ≡ id) × (a.snapshot ≡ snapshot)

append_frame-IsOf :
    (s : Session) (next : Approval) (wrote : Wrote)
    → IsOf next.id next.snapshot s
    → IsOf next.id next.snapshot (append_frame s next wrote).0
unfolding append_frame
append_frame-IsOf s next written held = (next, refl, refl, refl)
append_frame-IsOf s next (failed code) held = held
append_frame-IsOf s next unsynced held = held

-- A save is refused with an error and nothing changed, or it is an append to a session that needs no
-- recovery, of a record that may follow.
write_frame-cases :
    (P : Done → Type 0) (s : Session) (next : Approval) (frame : Option Bytes) (wrote : Wrote)
    → ((e : AsngnErr) → P (s, some e))
    → P (append_frame s next wrote)
    → P (write_frame s next frame wrote)
unfolding write_frame
write_frame-cases P s next none wrote stays goes = stays nomem
write_frame-cases P s next (some frame) wrote stays goes =
    pick P (ltb frame_max (length frame)) (s, some limit) _ (stays limit)
      (pick P (not (utf8_valid frame)) (s, some invalid) (append_frame s next wrote) (stays invalid)
        goes)

module _ (render : Approval → Option Bytes) (s : Session) where
  save-cases :
      (P : Done → Type 0) (next : Approval) (wrote : Wrote)
      → ((e : AsngnErr) → P (s, some e))
      → (s.recovery_required ≡ false
          → follows s.current (record next { sequence = next_sequence s.current }) ≡ true
          → P (append_frame s (record next { sequence = next_sequence s.current }) wrote))
      → P (save render s next wrote)
  unfolding save
  save-cases P next wrote stays goes =
      let numbered = record next { sequence = next_sequence s.current } in
      pick_on P s.recovery_required (s, some io) _ (λ h. stays io)
        (λ sane.
          pick P (at_limit s.current) (s, some limit) _ (stays limit)
            (pick_on P (not (follows s.current numbered)) (s, some invalid) _ (λ h. stays invalid)
              (λ h.
                write_frame-cases P s numbered (render numbered) wrote stays
                  (goes sane (ground arith)))))

  sane-Replays : Recovers s → s.recovery_required ≡ false → Replays s
  sane-Replays (inl r) sane = r
  sane-Replays (inr ahead) sane = let broken = ahead.0 in cc

  pub save-Lasts : (next : Approval) (wrote : Wrote) → Recovers s → Lasts (save render s next wrote)
  save-Lasts next wrote r =
      save-cases Lasts next wrote (λ e. (r, λ d. cc))
        (λ sane h. append_frame-Lasts s _ wrote (sane-Replays r sane) h)

  pub save-Holds : (next : Approval) (wrote : Wrote) → Holds next (save render s next wrote)
  save-Holds next wrote =
      save-cases (Holds next) next wrote (λ e d. cc)
        (λ sane h. append_frame-Holds s next (next_sequence s.current) wrote)

  save-IsOf :
      (next : Approval) (wrote : Wrote)
      → IsOf next.id next.snapshot s
      → IsOf next.id next.snapshot (save render s next wrote).0
  save-IsOf next wrote held =
      save-cases (λ d. IsOf next.id next.snapshot d.0) next wrote (λ e. held)
        (λ sane h. append_frame-IsOf s _ wrote held)

  transition_from-Lasts :
      (before : Option Approval) (status : ApprovalStatus) (wide : Bool) (wrote : Wrote)
      → Recovers s
      → Lasts (transition_from render s before status wide wrote)
  unfolding transition_from
  transition_from-Lasts none status wide wrote r = (r, λ d. cc)
  transition_from-Lasts (some before) status wide wrote r =
      save-Lasts (record before { status = status; session_wide = wide }) wrote r

  pub transition-Lasts :
      (status : ApprovalStatus) (wide : Bool) (wrote : Wrote)
      → Recovers s
      → Lasts (transition render s status wide wrote)
  unfolding transition
  transition-Lasts status wide wrote r = transition_from-Lasts s.current status wide wrote r

  -- A transition that reports success leaves a record of that status.
  abbrev pub Turned : ApprovalStatus → Done → Type 0
  Turned status d = d.1 ≡ none → (a : Approval) × (d.0.current ≡ some a) × (a.status ≡ status)

  transition_from-Turned :
      (before : Option Approval) (status : ApprovalStatus) (wide : Bool) (wrote : Wrote)
      → Turned status (transition_from render s before status wide wrote)
  unfolding transition_from
  transition_from-Turned none status wide wrote e = cc
  transition_from-Turned (some before) status wide wrote e =
      let next = record before { status = status; session_wide = wide } in
      let (n, held) = save-Holds next wrote e in (record next { sequence = n }, held, refl)

  pub transition-Turned :
      (status : ApprovalStatus) (wide : Bool) (wrote : Wrote)
      → Turned status (transition render s status wide wrote)
  unfolding transition
  transition-Turned status wide wrote = transition_from-Turned s.current status wide wrote

  transition_from-IsOf :
      (before : Option Approval) (status : ApprovalStatus) (wide : Bool) (wrote : Wrote)
      {id snapshot : Bytes}
      → s.current ≡ before
      → IsOf id snapshot s
      → IsOf id snapshot (transition_from render s before status wide wrote).0
  unfolding transition_from
  transition_from-IsOf none status wide wrote has held = held
  transition_from-IsOf (some b) status wide wrote {id} {snapshot} has (a, found, same, files) =
      let is : a ≡ b = some_eq (sym found ∙ has) in
      let next = record b { status = status; session_wide = wide } in
      let mine : next.id ≡ id = ap (λ (c : Approval). c.id) (sym is) ∙ same in
      let its : next.snapshot ≡ snapshot = ap (λ (c : Approval). c.snapshot) (sym is) ∙ files in
      subst (λ i. IsOf i snapshot (save render s next wrote).0) mine
        (subst (λ f. IsOf next.id f (save render s next wrote).0) its
          (save-IsOf next wrote (b, has, refl, refl)))

  pub transition-IsOf :
      (status : ApprovalStatus) (wide : Bool) (wrote : Wrote) {id snapshot : Bytes}
      → IsOf id snapshot s
      → IsOf id snapshot (transition render s status wide wrote).0
  unfolding transition
  transition-IsOf status wide wrote held =
      transition_from-IsOf s.current status wide wrote refl held
