-- ===== src/Approval/Reviewed.antt =====
-- What a journal that replays says of a consumed approval: `asngn_approval_follows` of
-- src/approval_codec.c.
use asterism_asngn.Common.{
  ◌+◌, ◌≡◌, refl, sym, ◌∙◌, ap, Bool, true, false, not, ◌&&◌, Option, none, some, List, [], ◌∷◌,
  bytes_eq, bytes_eq→eq, arith, ◌==◌, subst,
}
use asterism_asngn.Common.Maybe.{some_eq, >>=-eq-some}
use asterism_asngn.Approval.{
  Approval, ApprovalStatus, pending, approved, denied, consumed, invalidated, interrupted,
  is_pending, follows, same_review, same_profile, SecurityProfile, after_status, after_pending,
  after_approved, same_bool,
}
use asterism_asngn.Approval.Store.{replay, replay_step}
use asterism_asngn.Approval.Saved.{replay_step-follows}

-- The same request, with all that was reviewed: only its number, its status and its width differ.
abbrev pub SameRequest : Approval → Approval → Type 0
SameRequest a b =
    b ≡ record a { sequence = b.sequence; status = b.status; session_wide = b.session_wide }

same_profile→eq : (p q : SecurityProfile) → same_profile p q ≡ true → p ≡ q
same_profile→eq p q h = ground arith

same_review→eq : (a b : Approval) → a.id ≡ b.id → same_review a b ≡ true → SameRequest a b
unfolding same_review
same_review→eq a b e h = ground (
  arith,
  bytes_eq→eq a.turn_id b.turn_id,
  bytes_eq→eq a.tool_ref b.tool_ref,
  bytes_eq→eq a.command b.command,
  bytes_eq→eq a.arguments_sha256 b.arguments_sha256,
  bytes_eq→eq a.package_sha256 b.package_sha256,
  bytes_eq→eq a.snapshot b.snapshot,
  bytes_eq→eq a.workspace b.workspace,
  bytes_eq→eq a.arguments b.arguments,
  same_profile→eq a.profile b.profile,
)

after_pending-consumed : (wide : Bool) → after_pending consumed wide ≡ false
unfolding after_pending
after_pending-consumed wide = refl

after_status-consumed :
    (status : ApprovalStatus) (wide : Bool) (next : Approval)
    → next.status ≡ consumed
    → after_status status wide next ≡ true
    → status ≡ approved
unfolding after_status
after_status-consumed approved wide next is h = refl
after_status-consumed pending wide next is h =
    let none_such : after_pending next.status next.session_wide ≡ false =
      rw is (after_pending-consumed next.session_wide) in
    cc
after_status-consumed denied wide next is h = cc
after_status-consumed consumed wide next is h = cc
after_status-consumed invalidated wide next is h = cc
after_status-consumed interrupted wide next is h = cc

after_approved-approved : (same : Bool) → after_approved approved same ≡ false
unfolding after_approved
after_approved-approved same = refl

after_status-approved :
    (status : ApprovalStatus) (wide : Bool) (next : Approval)
    → next.status ≡ approved
    → after_status status wide next ≡ true
    → status ≡ pending
unfolding after_status
after_status-approved pending wide next is h = refl
after_status-approved approved wide next is h =
    let same = same_bool next.session_wide wide in
    let none_such : after_approved next.status same ≡ false =
      rw is (after_approved-approved same) in
    cc
after_status-approved denied wide next is h = cc
after_status-approved consumed wide next is h = cc
after_status-approved invalidated wide next is h = cc
after_status-approved interrupted wide next is h = cc

after_approved-consumed : (same : Bool) → after_approved consumed same ≡ same
unfolding after_approved
after_approved-consumed same = refl

after_status-width :
    (b a : Approval)
    → b.status ≡ approved
    → a.status ≡ consumed
    → after_status b.status b.session_wide a ≡ true
    → b.session_wide ≡ a.session_wide
unfolding after_status
after_status-width b a was is h =
    let same = same_bool a.session_wide b.session_wide in
    let kept : same ≡ true =
      sym (after_approved-consumed same)
      ∙ ap (λ st. after_approved st same) (sym is)
      ∙ ap (λ st. after_status st b.session_wide a) (sym was)
      ∙ h in
    ground arith

empty_false : (x y z : Bool) → y ≡ false → (x && y && z) ≡ true → ⊥
empty_false x y z e h = ground arith

-- What stands before a record of an old request.
follows-parts :
    (before : Option Approval) (next : Approval)
    → is_pending next.status ≡ false
    → follows before next ≡ true
    → (b : Approval) × (before ≡ some b)
      × (next.sequence ≡ b.sequence + 1)
      × SameRequest b next
      × (after_status b.status b.session_wide next ≡ true)
unfolding follows
follows-parts none next is h =
    absurd (empty_false (next.sequence == 1) (is_pending next.status) (not next.session_wide) is h)
follows-parts (some b) next is h =
    let parts : (next.sequence ≡ b.sequence + 1)
        × (bytes_eq b.id next.id ≡ true)
        × (same_review b next ≡ true)
        × (after_status b.status b.session_wide next ≡ true) =
      ground arith in
    let (number, same_id, same, after) = parts in
    (b, refl, number, same_review→eq b next (bytes_eq→eq b.id next.id same_id) same, after)

replay-parts :
    (journal : List Approval) {a : Approval}
    → replay journal ≡ some (some a)
    → (older : List Approval) × (before : Option Approval) × (journal ≡ a ∷ older)
      × (replay older ≡ some before)
      × (follows before a ≡ true)
unfolding replay
replay-parts [] h = cc
replay-parts (frame ∷ older) h =
    let (before, found, then_frame) = >>=-eq-some (replay older) (λ b. replay_step b frame) h in
    let (ok_frame, same) = replay_step-follows before frame then_frame in
    (
      older,
      before,
      ap (λ f. f ∷ older) (sym (some_eq same)),
      found,
      subst (λ f. follows before f ≡ true) (sym (some_eq same)) ok_frame,
    )

-- The record behind one of an old request, in a journal that replays.
replay-older :
    (journal : List Approval) {a : Approval}
    → is_pending a.status ≡ false
    → replay journal ≡ some (some a)
    → (older : List Approval) × (b : Approval) × (journal ≡ a ∷ older)
      × (replay older ≡ some (some b))
      × SameRequest b a
      × (a.sequence ≡ b.sequence + 1)
      × (after_status b.status b.session_wide a ≡ true)
replay-older journal {a} is h =
    let (older, before, e, found, ok_frame) = replay-parts journal h in
    let (b, known, number, same, after) = follows-parts before a is ok_frame in
    (older, b, e, found ∙ ap some known, same, number, after)

-- The three newest records of a journal: a request, its approval and its use.
abbrev pub IsReviewed : List Approval → Approval → Type 0
IsReviewed journal a =
    (b c : Approval) × (older : List Approval) × (journal ≡ a ∷ b ∷ c ∷ older)
    × (b.status ≡ approved)
    × (c.status ≡ pending)
    × SameRequest b a
    × SameRequest c b
    × (b.session_wide ≡ a.session_wide)

joined :
    {journal older oldest deepest : List Approval} {a b c : Approval}
    → journal ≡ a ∷ older
    → older ≡ b ∷ oldest
    → oldest ≡ c ∷ deepest
    → journal ≡ a ∷ b ∷ c ∷ deepest
joined e e' e'' = cc

-- In a journal that replays, a consumed approval at the end stands directly behind its approval by the
-- user, and that directly behind the pending request, and the three agree in everything that was
-- reviewed: the id, the turn, the tool and its package, the arguments, the files and the profile.
pub replay-IsReviewed :
    (journal : List Approval) {a : Approval}
    → a.status ≡ consumed
    → replay journal ≡ some (some a)
    → IsReviewed journal a
replay-IsReviewed journal {a} is h =
    let (older, b, e, found, same, number, after) = replay-older journal (ap is_pending is) h in
    let was : b.status ≡ approved = after_status-consumed b.status b.session_wide a is after in
    let (oldest, c, e', found', same', number', after') =
      replay-older older (ap is_pending was) found in
    let asked : c.status ≡ pending = after_status-approved c.status c.session_wide b was after' in
    let (deepest, before, e'', found'', first) = replay-parts oldest found' in
    (b, c, deepest, joined e e' e'', was, asked, same, same', after_status-width b a was is after)
