-- ===== src/Approval/Journal.antt =====
-- The journal of approvals as a session opens on it: src/approval_replay.c.
use asterism_asngn.Common.{
  ◌≡◌, refl, sym, ◌∙◌, ap, Bool, true, false, Option, none, some, List, [], Bytes, inl, subst,
}
use asterism_asngn.Common.Writes.{Wrote}
use asterism_asngn.Common.Maybe.{some_eq}
use asterism_asngn.Approval.{
  Approval, ApprovalStatus, pending, approved, denied, consumed, invalidated, interrupted,
  is_closed,
}
use asterism_asngn.Approval.Store.{
  Session, Done, replay, interrupt_open, interrupt_by, load, load_from,
}
use asterism_asngn.Approval.Saved.{Replays, Recovers, Lasts, transition-Lasts, transition-Turned}

interrupt_by-Lasts :
    (render : Approval → Option Bytes) (s : Session) (status : ApprovalStatus) (wide : Bool)
    (wrote : Wrote)
    → Replays s
    → Lasts (interrupt_by render s status wide wrote)
unfolding interrupt_by
interrupt_by-Lasts render s pending wide wrote r =
    transition-Lasts render s interrupted wide wrote (inl r)
interrupt_by-Lasts render s approved wide wrote r =
    transition-Lasts render s interrupted wide wrote (inl r)
interrupt_by-Lasts render s denied wide wrote r = (inl r, λ e. r)
interrupt_by-Lasts render s consumed wide wrote r = (inl r, λ e. r)
interrupt_by-Lasts render s invalidated wide wrote r = (inl r, λ e. r)
interrupt_by-Lasts render s interrupted wide wrote r = (inl r, λ e. r)

interrupt_open-Lasts :
    (render : Approval → Option Bytes) (s : Session) (current : Option Approval) (wrote : Wrote)
    → Replays s
    → Lasts (interrupt_open render s current wrote)
unfolding interrupt_open
interrupt_open-Lasts render s none wrote r = (inl r, λ e. r)
interrupt_open-Lasts render s (some a) wrote r =
    interrupt_by-Lasts render s a.status a.session_wide wrote r

-- No request is left open.
abbrev pub Closed : Session → Type 0
Closed s = (a : Approval) → s.current ≡ some a → is_closed a.status ≡ true

interrupt_by-Closed :
    (render : Approval → Option Bytes) (s : Session) (a : Approval) (status : ApprovalStatus)
    (wide : Bool) (wrote : Wrote)
    → s.current ≡ some a
    → a.status ≡ status
    → (interrupt_by render s status wide wrote).1 ≡ none
    → Closed (interrupt_by render s status wide wrote).0
unfolding interrupt_by
interrupt_by-Closed render s a pending wide wrote has is done b e =
    let (c, held, closed) = transition-Turned render s interrupted wide wrote done in
    rw (some_eq (sym e ∙ held), closed) refl
interrupt_by-Closed render s a approved wide wrote has is done b e =
    let (c, held, closed) = transition-Turned render s interrupted wide wrote done in
    rw (some_eq (sym e ∙ held), closed) refl
interrupt_by-Closed render s a denied wide wrote has is done b e =
    rw (some_eq (sym e ∙ has), is) refl
interrupt_by-Closed render s a consumed wide wrote has is done b e =
    rw (some_eq (sym e ∙ has), is) refl
interrupt_by-Closed render s a invalidated wide wrote has is done b e =
    rw (some_eq (sym e ∙ has), is) refl
interrupt_by-Closed render s a interrupted wide wrote has is done b e =
    rw (some_eq (sym e ∙ has), is) refl

interrupt_open-Closed :
    (render : Approval → Option Bytes) (s : Session) (current : Option Approval) (wrote : Wrote)
    → s.current ≡ current
    → (interrupt_open render s current wrote).1 ≡ none
    → Closed (interrupt_open render s current wrote).0
unfolding interrupt_open
interrupt_open-Closed render s none wrote has done = λ b e. cc
interrupt_open-Closed render s (some a) wrote has done =
    interrupt_by-Closed render s a a.status a.session_wide wrote has refl done

load_from-Closed :
    (render : Approval → Option Bytes) (frames : List Approval) (found : Option (Option Approval))
    (wrote : Wrote) {s : Session}
    → replay frames ≡ found
    → load_from render frames found wrote ≡ some (s, none)
    → Replays s × Closed s
unfolding load_from
load_from-Closed render frames none wrote r h = cc
load_from-Closed render frames (some current) wrote {s} r h =
    let opened : Session = record {
      current = current;
      journal = frames;
      recovery_required = false;
      allow = [];
    } in
    let same : interrupt_open render opened current wrote ≡ (s, none) = some_eq h in
    let replays =
      (interrupt_open-Lasts render opened current wrote r).1 (ap (λ (d : Done). d.1) same) in
    let closed =
      interrupt_open-Closed render opened current wrote refl (ap (λ (d : Done). d.1) same) in
    (subst (λ (d : Done). Replays d.0) same replays, subst (λ (d : Done). Closed d.0) same closed)

load_from-Recovers :
    (render : Approval → Option Bytes) (frames : List Approval) (found : Option (Option Approval))
    (wrote : Wrote) {d : Done}
    → replay frames ≡ found
    → load_from render frames found wrote ≡ some d
    → Recovers d.0
unfolding load_from
load_from-Recovers render frames none wrote r h = cc
load_from-Recovers render frames (some current) wrote r h =
    subst (λ (d : Done). Recovers d.0) (some_eq h) (interrupt_open-Lasts render _ current wrote r).0

-- Also where the repair of the file has failed.
pub load-Recovers :
    (render : Approval → Option Bytes) (frames : List Approval) (wrote : Wrote) {d : Done}
    → load render frames wrote ≡ some d
    → Recovers d.0
unfolding load
load-Recovers render frames wrote h = load_from-Recovers render frames (replay frames) wrote refl h

-- A session that is opened again on its file has no request that waits or may still be used: such a
-- one has been closed as interrupted, and the file replays to the record in memory.
pub load-Closed :
    (render : Approval → Option Bytes) (frames : List Approval) (wrote : Wrote) {s : Session}
    → load render frames wrote ≡ some (s, none)
    → Replays s × Closed s
unfolding load
load-Closed render frames wrote h = load_from-Closed render frames (replay frames) wrote refl h
