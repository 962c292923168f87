-- ===== src/Work/Proven.antt =====
-- Proofs on what a tool call can add to the evidence: src/work_observe.c.
use asterism_asngn.Common.{
  ℕ, zero, suc, ◌≡◌, ◌⊎◌, refl, sym, ◌∙◌, subst, ap, inl, inr, Bool, true, false, not, ◌&&◌, ◌||◌,
  Option, none, some, List, [], ◌∷◌, ==_iff, if◌then◌else◌, Bytes, bytes_eq, bytes_eq→eq, get_elem?,
  arith, Bool-cases, if_true, if_false,
}
use asterism_asngn.Common.Maybe.{some_eq}
use asterism_asngn.Common.Int.{ℤ, pos, negsuc, eqb_ℤ}
use asterism_asngn.Work.Contract.{Criterion, test_command}
use asterism_asngn.Work.Evidence.{
  ProofStatus, not_run, passed, failed, inconclusive, infrastructure_error, stale, Proof, WorkState,
  refresh,
}
use asterism_asngn.Work.Refreshed.{Backed, refresh-Backed}
use asterism_asngn.Work.Receipts.{
  Args, Receipt, Call, is_text, is_int, passed_text, not_run_text, infrastructure_text,
  expected_path, some_test_ran, passed_status, receipt_status, unchanged, call_status, call_proof,
  is_observed, observe_loop, observe_over, observed,
}

is_text→eq : (o : Option Bytes) (t : Bytes) → is_text o t ≡ true → o ≡ some t
is_text→eq none t h = cc
is_text→eq (some s) t h = ap some (bytes_eq→eq s t h)

eqb_ℤ→eq : (a b : ℤ) → eqb_ℤ a b ≡ true → a ≡ b
eqb_ℤ→eq (pos a) (pos b) h = ap pos ((==_iff a b).0 h)
eqb_ℤ→eq (pos a) (negsuc b) h = cc
eqb_ℤ→eq (negsuc a) (pos b) h = cc
eqb_ℤ→eq (negsuc a) (negsuc b) h = ap negsuc ((==_iff a b).0 h)

is_int→eq : (o : Option ℤ) (n : ℤ) → is_int o n ≡ true → o ≡ some n
is_int→eq none n h = cc
is_int→eq (some m) n h = ap some (eqb_ℤ→eq m n h)

-- What the tool reported.
pub record Reported (cmd : Bytes) (r : Receipt) : Type 0 where
  pub action : r.action ≡ some cmd
  pub schema : r.verification_schema ≡ some (pos 1)
  pub exit : r.exit_code ≡ some (pos 0)
  pub verdict : r.verification_status ≡ some passed_text
  pub tests :
      bytes_eq cmd test_command ≡ true → some_test_ran r.tests_collected r.tests_skipped ≡ true

passed_status-tests :
    (cmd : Bytes) (r : Receipt)
    → passed_status cmd r ≡ passed
    → bytes_eq cmd test_command ≡ true
    → some_test_ran r.tests_collected r.tests_skipped ≡ true
unfolding passed_status
passed_status-tests cmd r h k = ground arith

and_left : (a b : Bool) → (a && b) ≡ true → a ≡ true
and_left a b h = ground arith

-- The ladder of `status` reaches `passed` by one branch.
ladder :
    (a b c : Bool) (x : ProofStatus) (d e : Bool)
    → (if a
        then inconclusive
        else if b
        then failed
        else if c
        then x
        else if d
        then not_run
        else if e
        then infrastructure_error
        else inconclusive)
      ≡ passed
    → (a ≡ false) × (c ≡ true) × (x ≡ passed)
ladder a b c x d e h = ground arith

none_true : (a b c d : Bool) → (not a || not b || not c || not d) ≡ false → (b ≡ true) × (c ≡ true)
none_true a b c d h = ground arith

all_true :
    (a b c d : Bool)
    → (a && (b && c && d)) ≡ true
    → (a ≡ true) × (b ≡ true) × (c ≡ true) × (d ≡ true)
all_true a b c d h = ground arith

receipt_status-Reported :
    (cmd : Bytes) (r : Receipt) → receipt_status cmd (some r) ≡ passed → Reported cmd r
unfolding receipt_status
receipt_status-Reported cmd r h =
    let word = is_text r.verification_status passed_text in
    let schema = is_int r.verification_schema (pos 1) in
    let (first, third, reached) =
      ladder _ _ _ (passed_status cmd r) (is_text r.verification_status not_run_text)
        (is_text r.verification_status infrastructure_text) h in
    let (named, schemed) = none_true _ _ _ _ first in
    let (worded, schema', word', exit) =
      all_true word schema word (is_int r.exit_code (pos 0)) third in
    record {
      action = is_text→eq r.action cmd named;
      schema = is_int→eq r.verification_schema (pos 1) schemed;
      exit = is_int→eq r.exit_code (pos 0) exit;
      verdict = is_text→eq r.verification_status passed_text worded;
      tests = passed_status-tests cmd r reached;
    }

-- A call of the criterion's own command that ran, left the files as they were, and reported that the
-- check passed in the criterion's directory.
pub record Earned (root : Bytes) (c : Criterion) (call : Call) (v : Option Receipt) : Type 0 where
  pub receipt : Receipt
  pub parsed : v ≡ some receipt
  pub own_command : c.command ≡ call.cmd
  pub ran : call.tool_ok ≡ true
  pub steady : call.before ≡ call.after
  pub place : receipt.cwd ≡ some (expected_path root c)
  pub report : Reported call.cmd receipt

call_ladder :
    (a b c : Bool) (x : ProofStatus)
    → (if not a
        then stale
        else if not b
        then infrastructure_error
        else if c
        then x
        else inconclusive)
      ≡ passed
    → (a ≡ true) × (b ≡ true) × (c ≡ true) × (x ≡ passed)
call_ladder a b c x h = ground arith

unchanged→eq : (before after : Option Bytes) → unchanged before after ≡ true → before ≡ after
unfolding unchanged
unchanged→eq (some x) (some y) h = ap some (bytes_eq→eq x y (ground arith))
unchanged→eq none after h = cc
unchanged→eq (some x) none h = cc

call_status-Earned :
    (root : Bytes) (call : Call) (v : Option Receipt) (c : Criterion)
    → c.command ≡ call.cmd
    → call_status root call v c ≡ passed
    → Earned root c call v
unfolding call_status
call_status-Earned root call none c own h =
    let (steady, ran, placed, reached) =
      call_ladder (unchanged call.before call.after) call.tool_ok false inconclusive h in
    cc
call_status-Earned root call (some r) c own h =
    let (steady, ran, placed, reached) = call_ladder _ _ _ _ h in
    record {
      receipt = r;
      parsed = refl;
      own_command = own;
      ran = ran;
      steady = unchanged→eq call.before call.after steady;
      place = is_text→eq r.cwd (expected_path root c) (and_left _ _ placed);
      report = receipt_status-Reported call.cmd r reached;
    }

is_observed-command :
    (root : Bytes) (call : Call) (args : Args) (c : Criterion)
    → is_observed root call args c ≡ true
    → c.command ≡ call.cmd
unfolding is_observed
is_observed-command root call args c h = bytes_eq→eq c.command call.cmd (and_left _ _ h)

observe_loop-Earned :
    (root : Bytes) (call : Call) (args : Args) (v : Option Receipt) (cs : List Criterion)
    (ps : List Proof) (n : ℕ) {c : Criterion} {p : Proof}
    → get_elem? cs n ≡ some c
    → get_elem? (observe_loop root call args v cs ps) n ≡ some p
    → p.status ≡ passed
    → (get_elem? ps n ≡ some p) ⊎ Earned root c call v
unfolding observe_loop
observe_loop-Earned root call args v [] ps n hc hp pass = cc
observe_loop-Earned root call args v (c ∷ cs) [] n hc hp pass = inl hp
observe_loop-Earned root call args v (c ∷ cs) (p ∷ ps) (suc n) hc hp pass =
    observe_loop-Earned root call args v cs ps n hc hp pass
observe_loop-Earned root call args v (c ∷ cs) (p ∷ ps) zero {p = q} hc hp pass =
    elim (Bool-cases (is_observed root call args c)) [
      | inr other ↦ inl (sym (ap some (if_false (call_proof root call v c) p other)) ∙ hp)
      | inl seen ↦
          let made : call_proof root call v c ≡ q =
            some_eq (sym (ap some (if_true (call_proof root call v c) p seen)) ∙ hp) in
          let passes : (call_proof root call v c).status ≡ passed = rw made pass in
          inr (
            subst (λ d. Earned root d call v) (some_eq hc)
              (call_status-Earned root call v c (is_observed-command root call args c seen)
                (unfold call_proof in passes)))
    ]

observe_over-Earned :
    (root : Bytes) (call : Call) (args : Option Args) (v : Option Receipt) (cs : List Criterion)
    (ps : List Proof) (n : ℕ) {c : Criterion} {p : Proof}
    → get_elem? cs n ≡ some c
    → get_elem? (observe_over root call args v cs ps) n ≡ some p
    → p.status ≡ passed
    → (get_elem? ps n ≡ some p) ⊎ Earned root c call v
unfolding observe_over
observe_over-Earned root call none v cs ps n hc hp pass = inl hp
observe_over-Earned root call (some args) v cs ps n hc hp pass =
    observe_loop-Earned root call args v cs ps n hc hp pass

-- After a tool call a criterion counts as passed only on a proof of the files as they are, with its
-- prerequisites passed; and that proof was there before the call, or the call earned it: it ran the
-- criterion's own command without changing the files, and its receipt, for the criterion's
-- directory, reports that command, schema 1, exit code 0 and the status "passed", and for a test
-- that some collected test was not skipped.
pub observed-Earned :
    (root : Bytes) (call : Call) (args : Option Args) (v : Option Receipt) (w : WorkState) (n : ℕ)
    {c : Criterion} {p : Proof}
    → get_elem? w.definition.criteria n ≡ some c
    → get_elem? (observed root call args v w).proofs n ≡ some p
    → p.status ≡ passed
    → Backed call.after (observed root call args v w) n c p
      × ((get_elem? w.proofs n ≡ some p) ⊎ Earned root c call v)
unfolding observed refresh
observed-Earned root call args v w n hc hp pass =
    let before = refresh w call.after in
    let made = observe_over root call args v before.definition.criteria before.proofs in
    let (kept, backed) = refresh-Backed (record before { proofs = made }) call.after n hc hp pass in
    (
      backed,
      elim (observe_over-Earned root call args v w.definition.criteria before.proofs n hc kept
          pass) [
            | inr earned ↦ inr earned
            | inl old ↦ inl (refresh-Backed w call.after n hc old pass).0
          ],
    )
