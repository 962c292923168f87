-- ===== src/Operations/Budget.antt =====
-- Proofs on the daily token budget of src/operations.c.
use asterism_asngn.Common.{
  Bool, true, false, Option, none, some, ◌&&◌, ◌||◌, not, if◌then◌else◌, Bool-cases, Bytes, ℕ, ◌≡◌,
  ◌≢◌, refl, ◌∙◌, sym, subst, ap, inl, inr, arith, if_true, if_false,
}
use asterism_asngn.Common.Int.{
  eqb_ℤ, ℤ, pos, negsuc, ◌+ℤ◌, ◌-ℤ◌, ◌≤ℤ◌, ltb_ℤ, int_laws, ltb_ℤ-false,
}
use asterism_asngn.Common.Maybe.{>>=-eq-some, some_eq}
use asterism_asngn.Common.Errors.{AsngnErr, io, invalid, limit}
use asterism_asngn.Consumption.{
  Totals, Usage, Row, add, observe_reserved, observe_charged, observe, roll, consumption_observe,
}
use asterism_asngn.Consumption.Balance.{IsCount, add-some, parts}
use asterism_asngn.Consumption.Conserved.{IsAccounted, roll-IsAccounted}
use asterism_asngn.Operations.{
  Operation, Engine, publish, journal, is_ok, operations_max, reserve_row, admit, bad_name,
  bad_request, operation_begin,
}

observe_reserved-charged :
    (v : Totals) (reserved : ℤ) {w : Totals}
    → observe_reserved v reserved ≡ some w
    → w.charged_tokens ≡ v.charged_tokens
unfolding observe_reserved
observe_reserved-charged v reserved e =
    let (calls', e1, r1) = >>=-eq-some (add v.calls (pos 1)) _ e in
    let (opens, e2, r2) = >>=-eq-some (add v.unsettled_calls (pos 1)) _ r1 in
    let (tokens, e3, r3) = >>=-eq-some (add v.unsettled_tokens reserved) _ r2 in
    ap (λ (t : Totals). t.charged_tokens) (sym (some_eq r3))

-- A reservation adds exactly its tokens to the charge.
observe-charged :
    (v : Totals) (op : Operation) {w : Totals}
    → IsCount v.charged_tokens
    → observe v (reserve_row op) op.reserved ≡ some w
    → w.charged_tokens ≡ v.charged_tokens +ℤ op.reserved
unfolding observe observe_charged
observe-charged v op h e = elim (Bool-cases (ltb_ℤ op.reserved (pos 0))) [
  | inl negative ↦ cc (sym (if_true _ _ negative) ∙ e)
  | inr fine ↦
      let (charged, e1, r1) =
        >>=-eq-some (add v.charged_tokens op.reserved) _ (sym (if_false _ _ fine) ∙ e) in
      observe_reserved-charged (record v { charged_tokens = charged }) op.reserved r1
      ∙ (add-some v.charged_tokens op.reserved h e1).0
]

same_day : (d : ℤ) → (ltb_ℤ d d ≡ false) × (eqb_ℤ d d ≡ true)
same_day (pos n) = ground arith
same_day (negsuc n) = ground arith

roll_same : (u : Usage) (d : ℤ) → d ≡ u.utc_day → roll u d ≡ u
unfolding roll
roll_same u d e =
    if_false _ _ (subst (λ x. ltb_ℤ u.utc_day x ≡ false) (sym e) (same_day u.utc_day).0)

-- A row of the current day is booked on today's totals.
consumption_observe-today :
    (u : Usage) (row : Row) (reserved : ℤ) {w : Usage}
    → row.day ≡ u.utc_day
    → consumption_observe u row reserved ≡ some w
    → observe u.today row reserved ≡ some w.today
unfolding consumption_observe
consumption_observe-today u row reserved {w} d e =
    let rolled = roll u row.day in
    let (life, e1, r1) = >>=-eq-some (observe rolled.lifetime row reserved) _ e in
    let (day, e2, r2) =
      >>=-eq-some
        (if eqb_ℤ row.day rolled.utc_day
          then observe rolled.today row reserved
          else some rolled.today)
        _ r1 in
    let same = subst (λ x. eqb_ℤ row.day x ≡ true) d (same_day row.day).1 in
    let booked =
      subst
        (λ (n : Usage).
          (if eqb_ℤ row.day n.utc_day then observe n.today row reserved else some n.today)
          ≡ some day)
        (roll_same u row.day d) e2 in
    sym (if_true _ _ same) ∙ booked ∙ ap (λ (x : Usage). some x.today) (some_eq r2)

-- A state that the budget allows: where there is a budget, today's charge is within it.
abbrev pub WithinBudget : Engine → Type 0
WithinBudget c = c.consumption.today.charged_tokens ≤ℤ c.daily_tokens

publish_ok :
    (c : Engine) (wrote : Option AsngnErr) (m : Option Usage)
    → (publish c wrote m).1 ≡ none
    → (next : Usage) × (m ≡ some next) × ((publish c wrote m).0 ≡ record c { consumption = next })
unfolding publish
publish_ok c wrote none e = cc
publish_ok c none (some next) e = (next, refl, refl)
publish_ok c (some x) (some next) e = cc

journal-WithinBudget :
    (c : Engine) (op : Operation) (wrote : Option AsngnErr)
    → op.day ≡ c.consumption.utc_day
    → IsAccounted c.consumption
    → op.reserved ≤ℤ c.daily_tokens -ℤ c.consumption.today.charged_tokens
    → (journal c (reserve_row op) op.reserved wrote).1 ≡ none
    → WithinBudget (journal c (reserve_row op) op.reserved wrote).0
unfolding journal
journal-WithinBudget c op wrote d a h e =
    let m = consumption_observe c.consumption (reserve_row op) op.reserved in
    let (next, done, c') = publish_ok c wrote m e in
    let today' = consumption_observe-today c.consumption (reserve_row op) op.reserved d done in
    let exact = observe-charged c.consumption.today op a.today_conserved.charged_count today' in
    subst WithinBudget (sym c') (omega (int_laws, parts exact))

abbrev Outcome : Type 0
Outcome = Engine × Operation × Option AsngnErr

passes :
    (p q r : Bool) (x y z w : Outcome)
    → x.2 ≢ none
    → y.2 ≢ none
    → z.2 ≢ none
    → (if p then x else if q then y else if r then z else w).2 ≡ none
    → (r ≡ false) × ((if p then x else if q then y else if r then z else w) ≡ w)
passes true q r x y z w hx hy hz e = absurd (hx e)
passes false true r x y z w hx hy hz e = absurd (hy e)
passes false false true x y z w hx hy hz e = absurd (hz e)
passes false false false x y z w hx hy hz e = (refl, refl)

second_false : (a b : Bool) → a ≡ true → (a && b) ≡ false → b ≡ false
second_false a b h k = ground arith

abbrev Begun : Type 0
Begun = Engine × Option Operation × Option AsngnErr

refused_or :
    (bad : Bool) (c : Engine) (op : Operation) (c' : Engine) (e : Option AsngnErr)
    → (let r : Begun = if bad then (c, none, some invalid) else (c', some op, e) in r.2 ≡ none)
    → (e ≡ none)
      × ((let r : Begun = if bad then (c, none, some invalid) else (c', some op, e) in r.0) ≡ c')
refused_or true c op c' e h = cc
refused_or false c op c' e h = (h, refl)

module _ (id_max request_id_max : ℕ) where
  admit-WithinBudget :
      (c : Engine) (reserve : ℤ) (wrote : Option AsngnErr)
      → IsAccounted c.consumption
      → ltb_ℤ (pos 0) c.daily_tokens ≡ true
      → (admit id_max request_id_max c reserve wrote).2 ≡ none
      → WithinBudget (admit id_max request_id_max c reserve wrote).0
  unfolding admit
  admit-WithinBudget c reserve wrote a budget e =
      let op : Operation = record {
        reserved = reserve;
        day = c.consumption.utc_day;
        active = false;
      } in
      let (c', e') = journal c (reserve_row op) reserve wrote in
      let over = ltb_ℤ (c.daily_tokens -ℤ c.consumption.today.charged_tokens) reserve in
      let (room, all) =
        passes c.recovery_required (not (ltb_ℤ c.consumption.lifetime.calls operations_max))
          (ltb_ℤ (pos 0) c.daily_tokens && over) (c, op, some io) (c, op, some limit)
          (c, op, some limit) (c', record op { active = is_ok e' }, e') (λ h. cc) (λ h. cc)
          (λ h. cc) e in
      let fits : over ≡ false = second_false _ _ budget room in
      let done : e' ≡ none = ap (λ (r : Outcome). r.2) (sym all) ∙ e in
      subst (λ (r : Outcome). WithinBudget r.0) (sym all)
        (journal-WithinBudget c op wrote refl a
          (ltb_ℤ-false (c.daily_tokens -ℤ c.consumption.today.charged_tokens) reserve fits) done)

  -- Where a daily budget is set, a reservation that succeeds leaves today's charge within it. The
  -- condition is that the books balanced before.
  pub operation_begin-WithinBudget :
      (c : Engine) (model kind : Bytes) (request_id : Option Bytes) (reserve today : ℤ)
      (wrote : Option AsngnErr)
      → IsAccounted c.consumption
      → ltb_ℤ (pos 0) c.daily_tokens ≡ true
      → (operation_begin id_max request_id_max c model kind request_id reserve today wrote).2 ≡ none
      → WithinBudget
          (operation_begin id_max request_id_max c model kind request_id reserve today wrote).0
  unfolding operation_begin
  operation_begin-WithinBudget c model kind request_id reserve today wrote a budget e =
      let bad =
        bad_name id_max request_id_max model id_max
        || bad_name id_max request_id_max kind 32
        || ltb_ℤ reserve (pos 0)
        || bad_request id_max request_id_max request_id in
      let rolled : Engine = record c { consumption = roll c.consumption today } in
      let (c', op, e') = admit id_max request_id_max rolled reserve wrote in
      let (done, same) = refused_or bad c op c' e' e in
      subst WithinBudget (sym same)
        (admit-WithinBudget rolled reserve wrote (roll-IsAccounted today a) budget done)
