-- ===== src/Approval/Answered.antt =====
-- Repeated answers: `asngn_confirm` of src/api.c.
use asterism_asngn.Common.{
  ◌≡◌, refl, ◌∙◌, ap, Bool, true, false, not, ◌&&◌, ◌||◌, Option, none, some, if◌then◌else◌,
  if_true, if_false, Bytes, bytes_eq, arith, pick_on,
}
use asterism_asngn.Common.Writes.{Wrote}
use asterism_asngn.Common.Errors.{AsngnErr, not_found, busy}
use asterism_asngn.Approval.{Approval, approved, denied, same_bool}
use asterism_asngn.Approval.Store.{Done, transition}
use asterism_asngn.Approval.Confirmation.{Lane, decide, confirm_lane, empty_id}

abbrev is_other : Lane → Bytes → Bool
is_other l confirm_id = empty_id l.slot.id || not (bytes_eq l.slot.id confirm_id)

-- The slot has taken this very answer.
abbrev HasTaken : Lane → Bytes → Bool → Bool → Type 0
HasTaken l confirm_id allow wide =
    (is_other l confirm_id ≡ false)
    × (l.slot.decided ≡ true)
    × (l.slot.allow ≡ allow)
    × (l.slot.session_wide ≡ (allow && wide))

same_answer :
    (a b c d : Bool)
    → (if same_bool a b && same_bool c d then none else some busy) ≡ none
    → (a ≡ b) × (c ≡ d)
same_answer a b c d h = ground arith

module _ (render : Approval → Option Bytes) (confirm_id : Bytes) where
  decide-HasTaken :
      (l : Lane) (allow wide : Bool) (d : Done)
      → is_other l confirm_id ≡ false
      → (decide render l allow wide d).1 ≡ none
      → HasTaken (decide render l allow wide d).0 confirm_id allow wide
  unfolding decide
  decide-HasTaken l allow wide (s, some e) named h = cc
  decide-HasTaken l allow wide (s, none) named h = (named, refl, refl, refl)

  confirm_lane-HasTaken :
      (l : Lane) (allow wide : Bool) (wrote : Wrote)
      → (confirm_lane render l confirm_id allow wide wrote).1 ≡ none
      → HasTaken (confirm_lane render l confirm_id allow wide wrote).0 confirm_id allow wide
  unfolding confirm_lane
  confirm_lane-HasTaken l allow wide wrote =
      let status = if allow then approved else denied in
      let d = transition render l.session status (allow && wide) wrote in
      let P : Lane × Option AsngnErr → Type 0 =
        λ p. p.1 ≡ none → HasTaken p.0 confirm_id allow wide in
      pick_on P (is_other l confirm_id) (l, some not_found) _ (λ h e. cc)
        (λ h.
          pick_on P l.slot.decided (l, _) _
            (λ k e.
              let (says, widely) =
                same_answer l.slot.allow allow l.slot.session_wide (allow && wide) e in
              (h, k, says, widely))
            (λ k.
              pick_on P (not l.slot.bound) (l, some not_found) (decide render l allow wide d)
                (λ b e. cc) (λ b. decide-HasTaken l allow wide d h)))

  confirm_lane-again :
      (l : Lane) (allow wide allow' wide' : Bool) (wrote : Wrote)
      → HasTaken l confirm_id allow wide
      → confirm_lane render l confirm_id allow' wide' wrote ≡ (
        l,
        if same_bool allow allow' && same_bool (allow && wide) (allow' && wide')
            then none
            else some busy,
      )
  unfolding confirm_lane
  confirm_lane-again l allow wide allow' wide' wrote (h, k, says, widely) =
      if_false _ _ h
      ∙ if_true _ _ k
      ∙ ap
          (λ a. (
            l,
            if same_bool a allow' && same_bool l.slot.session_wide (allow' && wide')
                then none
                else some busy,
          ))
          says
      ∙ ap
          (λ w. (
            l,
            if same_bool allow allow' && same_bool w (allow' && wide') then none else some busy,
          ))
          widely

  -- Once an answer to a request has been taken, the same answer again succeeds and any other is
  -- refused as busy; neither changes the lane, so the first decision stands.
  pub confirm_lane-confirm_lane :
      (l : Lane) (allow wide allow' wide' : Bool) (wrote wrote' : Wrote)
      → (confirm_lane render l confirm_id allow wide wrote).1 ≡ none
      → confirm_lane render
          (confirm_lane render l confirm_id allow wide wrote).0
          confirm_id
          allow'
          wide'
          wrote'
        ≡ (
          (confirm_lane render l confirm_id allow wide wrote).0,
          if same_bool allow allow' && same_bool (allow && wide) (allow' && wide')
              then none
              else some busy,
        )
  confirm_lane-confirm_lane l allow wide allow' wide' wrote wrote' taken =
      confirm_lane-again (confirm_lane render l confirm_id allow wide wrote).0 allow wide allow'
        wide' wrote' (confirm_lane-HasTaken l allow wide wrote taken)
