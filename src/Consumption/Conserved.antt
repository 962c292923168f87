-- ===== src/Consumption/Conserved.antt =====
-- Proofs on `asngn_consumption_observe` of src/consumption.c: where the charged tokens go.
use asterism_asngn.Common.{
  true, false, some, ◌≡◌, refl, ◌∙◌, sym, subst, ap, inl, inr, if◌then◌else◌, Bool-cases, if_true,
  if_false, arith,
}
use asterism_asngn.Common.Int.{eqb_ℤ, ℤ, pos, ◌+ℤ◌, ◌-ℤ◌, ltb_ℤ, int_laws}
use asterism_asngn.Common.Maybe.{some_eq, >>=-eq-some}
use asterism_asngn.Consumption.{
  Totals, Usage, Row, zero_totals, add, release, observe_known, observe_unknown, observe_settled,
  observe_charged, observe, roll, consumption_observe,
}
use asterism_asngn.Consumption.Balance.{
  IsBalanced, IsConserved, charge-IsBalanced, observe_reserved-IsBalanced, release-IsBalanced,
  observe_known-IsBalanced, observe_unknown-IsBalanced, observe_outcome-IsBalanced,
}

-- The rows that `asngn_operation_begin` and `asngn_operation_end` write for a reservation.
abbrev pub IsRow : Row → ℤ → Type 0
IsRow r reserved =
    ((r.reserved ≡ true) → r.delta ≡ reserved)
    × ((r.reserved ≡ false)
        → r.delta ≡ (if r.known then r.input +ℤ r.output -ℤ reserved else pos 0))

observe_settled-IsConserved :
    {v w : Totals} (r : Row) (reserved : ℤ)
    → IsBalanced v (if r.known then r.input +ℤ r.output -ℤ reserved else pos 0)
    → observe_settled v r reserved ≡ some w
    → IsConserved w
unfolding observe_settled
observe_settled-IsConserved {v} r reserved b e =
    let (released, e1, r1) = >>=-eq-some (release v reserved) _ e in
    let (used, e2, r2) =
      >>=-eq-some (if r.known then observe_known released r else observe_unknown released reserved)
        _ r1 in
    let open' = release-IsBalanced b reserved e1 in
    observe_outcome-IsBalanced r.outcome
      (elim (Bool-cases r.known) [
        | inl known ↦
            observe_known-IsBalanced
              (subst (IsBalanced released) (ap (λ n. n +ℤ reserved) (if_true _ _ known)) open') r
              (omega int_laws) (sym (if_true _ _ known) ∙ e2)
        | inr unknown ↦
            observe_unknown-IsBalanced
              (subst (IsBalanced released) (ap (λ n. n +ℤ reserved) (if_false _ _ unknown)) open')
              (omega int_laws) (sym (if_false _ _ unknown) ∙ e2)
      ])
      r2

observe_charged-IsConserved :
    {v w : Totals} (r : Row) (reserved : ℤ)
    → IsRow r reserved
    → IsBalanced v r.delta
    → observe_charged v r reserved ≡ some w
    → IsConserved w
unfolding observe_charged
observe_charged-IsConserved {v} r reserved (first, last) b e = elim (Bool-cases r.reserved) [
  | inl opening ↦ observe_reserved-IsBalanced b (first opening) (sym (if_true _ _ opening) ∙ e)
  | inr closing ↦
      observe_settled-IsConserved r reserved (subst (IsBalanced v) (last closing) b)
        (sym (if_false _ _ closing) ∙ e)
]

observe-IsConserved :
    {v w : Totals} (r : Row) (reserved : ℤ)
    → IsRow r reserved
    → IsConserved v
    → observe v r reserved ≡ some w
    → IsConserved w
unfolding observe
observe-IsConserved {v} r reserved row b e = elim (Bool-cases (ltb_ℤ reserved (pos 0))) [
  | inl negative ↦ cc (rw negative at e)
  | inr fine ↦
      let (charged, e1, r1) = >>=-eq-some (add v.charged_tokens r.delta) _ (rw fine at e) in
      observe_charged-IsConserved r reserved row (charge-IsBalanced b refl e1) r1
]

zero-IsConserved : IsConserved zero_totals
unfolding ◌+ℤ◌
zero-IsConserved = ground arith

-- Both totals are conserved.
pub record IsAccounted (u : Usage) : Type 0 where
  pub lifetime_conserved : IsConserved u.lifetime
  pub today_conserved : IsConserved u.today

pub roll-IsAccounted : {u : Usage} (day : ℤ) → IsAccounted u → IsAccounted (roll u day)
unfolding roll
roll-IsAccounted {u} day a = elim (Bool-cases (ltb_ℤ u.utc_day day)) [
  | inl later ↦
      rw later
        (record { lifetime_conserved = a.lifetime_conserved; today_conserved = zero-IsConserved })
  | inr same ↦ rw same a
]

-- An accepted row keeps the books: in the lifetime totals and in today's, the charged tokens stay
-- the known input and output, the open reservations and the reservations of unknown usage; every
-- count stays within 0 and `INT64_MAX`. The condition is that the row has the shape that the engine
-- writes for the reservation.
pub consumption_observe-IsAccounted :
    {u w : Usage} (r : Row) (reserved : ℤ)
    → IsRow r reserved
    → IsAccounted u
    → consumption_observe u r reserved ≡ some w
    → IsAccounted w
unfolding consumption_observe
consumption_observe-IsAccounted {u} {w} r reserved row a e =
    let next = roll u r.day in
    let rolled = roll-IsAccounted r.day a in
    let (lifetime', e1, r1) = >>=-eq-some (observe next.lifetime r reserved) _ e in
    let (today', e2, r2) =
      >>=-eq-some
        (if eqb_ℤ r.day next.utc_day then observe next.today r reserved else some next.today) _
        r1 in
    let life = observe-IsConserved r reserved row rolled.lifetime_conserved e1 in
    let day : IsConserved today' = elim (Bool-cases (eqb_ℤ r.day next.utc_day)) [
      | inl current ↦
          observe-IsConserved r reserved row rolled.today_conserved (sym (if_true _ _ current) ∙ e2)
      | inr past ↦ subst IsConserved (some_eq (sym (if_false _ _ past) ∙ e2)) rolled.today_conserved
    ] in
    subst IsAccounted (some_eq r2) (record { lifetime_conserved = life; today_conserved = day })
