-- ===== src/Consumption/Balance.antt =====
-- The effect of each reducer step on the balance of the totals.
use asterism_asngn.Common.{Option, none, some, ◌≡◌, subst, inl, inr, Bool-cases, arith, ◌+◌}
use asterism_asngn.Common.Int.{
  ℤ, pos, negsuc, ◌+ℤ◌, ◌-ℤ◌, ◌≤ℤ◌, int64_max, int_laws, pos_part, neg_part,
}
use asterism_asngn.Common.Maybe.{>>=-eq-some}
use asterism_asngn.Common.Errors.{AsngnErr}
use asterism_asngn.Consumption.{
  Totals, Row, add, observe_reserved, release, observe_known, observe_unknown, observe_failure,
  observe_outcome, is_cancelled,
}

-- A count that stays in `int64_t` and is not negative.
abbrev pub IsCount : ℤ → Type 0
IsCount n = (pos 0 ≤ℤ n) × (n ≤ℤ int64_max)

-- All counts are in range, and `k` of the charged tokens are not attributed yet.
pub record IsBalanced (v : Totals) (k : ℤ) : Type 0 where
  pub calls_count : IsCount v.calls
  pub unsettled_count : IsCount v.unsettled_calls
  pub unknown_count : IsCount v.unknown_calls
  pub failed_count : IsCount v.failed_calls
  pub cancelled_count : IsCount v.cancelled_calls
  pub input_count : IsCount v.known_input_tokens
  pub output_count : IsCount v.known_output_tokens
  pub unsettled_tokens_count : IsCount v.unsettled_tokens
  pub unknown_tokens_count : IsCount v.unknown_tokens
  pub charged_count : IsCount v.charged_tokens
  pub balance :
      v.charged_tokens
      ≡ v.known_input_tokens +ℤ v.known_output_tokens +ℤ v.unsettled_tokens +ℤ v.unknown_tokens +ℤ k

-- Charged tokens are known input, known output, open reservations and reservations of calls whose
-- usage stayed unknown, and nothing else.
abbrev pub IsConserved : Totals → Type 0
IsConserved v = IsBalanced v (pos 0)

-- An accepted addition is exact, and a count stays one.
pub add-some :
    (value delta : ℤ) {sum : ℤ}
    → IsCount value
    → add value delta ≡ some sum
    → (sum ≡ value +ℤ delta) × IsCount sum
unfolding add
add-some value delta h e = ground arith

add-IsCount : (value delta : ℤ) {sum : ℤ} → add value delta ≡ some sum → IsCount value → IsCount sum
add-IsCount value delta e h = (add-some value delta h e).1

pub parts : {a b : ℤ} → a ≡ b → pos_part a + neg_part b ≡ pos_part b + neg_part a
parts e = ground arith

module _ {v : Totals} {k : ℤ} (b : IsBalanced v k) where
  pub charge-IsBalanced :
      {delta sum : ℤ}
      → k ≡ pos 0
      → add v.charged_tokens delta ≡ some sum
      → IsBalanced (record v { charged_tokens = sum }) delta
  charge-IsBalanced {delta} {sum} z e =
      let (exact, count) = add-some v.charged_tokens delta b.charged_count e in
      let balance' : sum
          ≡ v.known_input_tokens +ℤ v.known_output_tokens +ℤ v.unsettled_tokens +ℤ v.unknown_tokens
            +ℤ delta =
        omega (int_laws, parts exact, parts b.balance, parts z) in
      ground arith

  pub observe_reserved-IsBalanced :
      {reserved : ℤ} {w : Totals}
      → k ≡ reserved
      → observe_reserved v reserved ≡ some w
      → IsConserved w
  unfolding observe_reserved
  observe_reserved-IsBalanced {reserved} {w} z e =
      let (calls', e1, r1) = >>=-eq-some (add v.calls (pos 1)) _ e in
      let (opens, e2, r2) = >>=-eq-some (add v.unsettled_calls (pos 1)) _ r1 in
      let (tokens, e3, r3) = >>=-eq-some (add v.unsettled_tokens reserved) _ r2 in
      let one = add-some v.calls (pos 1) b.calls_count e1 in
      let two = add-some v.unsettled_calls (pos 1) b.unsettled_count e2 in
      let three = add-some v.unsettled_tokens reserved b.unsettled_tokens_count e3 in
      let balance' : v.charged_tokens
          ≡ v.known_input_tokens +ℤ v.known_output_tokens +ℤ tokens +ℤ v.unknown_tokens +ℤ pos 0 =
        omega (int_laws, parts three.0, parts b.balance, parts z) in
      ground (arith, one.1, two.1, three.1)

  pub release-IsBalanced :
      (reserved : ℤ) {w : Totals} → release v reserved ≡ some w → IsBalanced w (k +ℤ reserved)
  unfolding release
  release-IsBalanced reserved {w} e =
      let (opens, e1, r1) = >>=-eq-some (add v.unsettled_calls (negsuc 0)) _ e in
      let (tokens, e2, r2) = >>=-eq-some (add v.unsettled_tokens (pos 0 -ℤ reserved)) _ r1 in
      let one = add-some v.unsettled_calls (negsuc 0) b.unsettled_count e1 in
      let two = add-some v.unsettled_tokens (pos 0 -ℤ reserved) b.unsettled_tokens_count e2 in
      let balance' : v.charged_tokens
          ≡ v.known_input_tokens
            +ℤ v.known_output_tokens
            +ℤ tokens
            +ℤ v.unknown_tokens
            +ℤ (k +ℤ reserved) =
        omega (int_laws, parts two.0, parts b.balance) in
      ground (arith, one.1, two.1)

  pub observe_known-IsBalanced :
      (r : Row) {w : Totals} → k ≡ r.input +ℤ r.output → observe_known v r ≡ some w → IsConserved w
  unfolding observe_known
  observe_known-IsBalanced r {w} z e =
      let (inputs, e1, r1) = >>=-eq-some (add v.known_input_tokens r.input) _ e in
      let (outputs, e2, r2) = >>=-eq-some (add v.known_output_tokens r.output) _ r1 in
      let one = add-some v.known_input_tokens r.input b.input_count e1 in
      let two = add-some v.known_output_tokens r.output b.output_count e2 in
      let balance' : v.charged_tokens
          ≡ inputs +ℤ outputs +ℤ v.unsettled_tokens +ℤ v.unknown_tokens +ℤ pos 0 =
        omega (int_laws, parts one.0, parts two.0, parts b.balance, parts z) in
      ground (arith, one.1, two.1)

  pub observe_unknown-IsBalanced :
      {reserved : ℤ} {w : Totals}
      → k ≡ reserved
      → observe_unknown v reserved ≡ some w
      → IsConserved w
  unfolding observe_unknown
  observe_unknown-IsBalanced {reserved} {w} z e =
      let (calls', e1, r1) = >>=-eq-some (add v.unknown_calls (pos 1)) _ e in
      let (tokens, e2, r2) = >>=-eq-some (add v.unknown_tokens reserved) _ r1 in
      let one = add-some v.unknown_calls (pos 1) b.unknown_count e1 in
      let two = add-some v.unknown_tokens reserved b.unknown_tokens_count e2 in
      let balance' : v.charged_tokens
          ≡ v.known_input_tokens +ℤ v.known_output_tokens +ℤ v.unsettled_tokens +ℤ tokens +ℤ pos 0 =
        omega (int_laws, parts two.0, parts b.balance, parts z) in
      ground (arith, one.1, two.1)

  observe_failure-IsBalanced :
      (f : AsngnErr) {w : Totals} → observe_failure v f ≡ some w → IsBalanced w k
  unfolding observe_failure
  observe_failure-IsBalanced f {w} e = elim (Bool-cases (is_cancelled f)) [
    | inl c ↦
        let (calls', e1, r1) = >>=-eq-some (add v.cancelled_calls (pos 1)) _ (rw c at e) in
        let count = add-IsCount v.cancelled_calls (pos 1) e1 b.cancelled_count in ground arith
    | inr c ↦
        let (calls', e1, r1) = >>=-eq-some (add v.failed_calls (pos 1)) _ (rw c at e) in
        let count = add-IsCount v.failed_calls (pos 1) e1 b.failed_count in ground arith
  ]

pub observe_outcome-IsBalanced :
    {v : Totals} {k : ℤ} (o : Option AsngnErr) {w : Totals}
    → IsBalanced v k
    → observe_outcome v o ≡ some w
    → IsBalanced w k
unfolding observe_outcome
observe_outcome-IsBalanced {v} {k} none {w} b e = subst (λ x. IsBalanced x k) (ground arith) b
observe_outcome-IsBalanced (some f) b e = observe_failure-IsBalanced b f e
