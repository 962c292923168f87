-- ===== src/Work/Receipts.antt =====
-- What a tool call proves: src/work_observe.c and the tests of src/verification.c. The xCDN parser
-- is `parse_args` and `parse_result`: the fields of a document with exactly one value, or none.
use asterism_asngn.Common.{
  ℕ, Bool, true, false, not, ◌&&◌, ◌||◌, Option, none, some, List, [], ◌∷◌, ◌++◌, ◌==◌,
  if◌then◌else◌, Bytes, bytes_eq, take,
}
use asterism_asngn.Common.Int.{ℤ, pos, ltb_ℤ, eqb_ℤ}
use asterism_asngn.Common.Writes.{Wrote}
use asterism_asngn.Common.Errors.{invalid}
use asterism_asngn.Sha256.{sha256, sha256_hex}
use asterism_asngn.Uuid.{uuid_valid}
use asterism_asngn.Work.Contract.{
  Criterion, is_empty, dot, build_command, test_command, lint_command, diagnostics_command,
  auto_adapter,
}
use asterism_asngn.Work.Evidence.{
  ProofStatus, not_run, passed, failed, inconclusive, infrastructure_error, stale, blocked, Proof,
  WorkState, refresh,
}
use asterism_asngn.Work.Store.{Session, Done, save}

-- The fields of a tool's arguments, and of its result, that the code reads.
pub record Args : Type 0 where
  pub path : Option Bytes
  pub adapter : Option Bytes

pub record Receipt : Type 0 where
  pub action : Option Bytes
  pub verification_status : Option Bytes
  pub verification_schema : Option ℤ
  pub exit_code : Option ℤ
  pub tests_collected : Option ℤ
  pub tests_skipped : Option ℤ
  pub cwd : Option Bytes
  pub adapter : Option Bytes

-- The arguments of `asngn_work_observe`, with the turn's action id.
pub record Call : Type 0 where
  pub ref : Bytes
  pub cmd : Bytes
  pub args : Option Bytes
  pub tool_ok : Bool
  pub result : Option Bytes
  pub before : Option Bytes
  pub after : Option Bytes
  pub action_id : Bytes

-- `s && !strcmp(s, t)`.
abbrev pub is_text : Option Bytes → Bytes → Bool
is_text none t = false
is_text (some s) t = bytes_eq s t

abbrev pub is_int : Option ℤ → ℤ → Bool
is_int none n = false
is_int (some m) n = eqb_ℤ m n

-- The field is there, and is not `n`.
abbrev pub other_int : Option ℤ → ℤ → Bool
other_int none n = false
other_int (some m) n = not (eqb_ℤ m n)

abbrev pub has_int : Option ℤ → Bool
has_int none = false
has_int (some m) = true

abbrev pub has_text : Option Bytes → Bool
has_text none = false
has_text (some s) = true

abbrev pub project : Bytes
project = b'p' ∷ b'r' ∷ b'o' ∷ b'j' ∷ b'e' ∷ b'c' ∷ b't' ∷ []

abbrev pub passed_text : Bytes
passed_text = b'p' ∷ b'a' ∷ b's' ∷ b's' ∷ b'e' ∷ b'd' ∷ []

abbrev pub failed_text : Bytes
failed_text = b'f' ∷ b'a' ∷ b'i' ∷ b'l' ∷ b'e' ∷ b'd' ∷ []

abbrev pub not_run_text : Bytes
not_run_text = b'n' ∷ b'o' ∷ b't' ∷ b'_' ∷ b'r' ∷ b'u' ∷ b'n' ∷ []

abbrev pub infrastructure_text : Bytes
infrastructure_text =
    b'i' ∷ b'n' ∷ b'f' ∷ b'r' ∷ b'a' ∷ b's' ∷ b't' ∷ b'r' ∷ b'u' ∷ b'c' ∷ b't' ∷ b'u' ∷ b'r' ∷ b'e'
    ∷ b'_' ∷ b'e' ∷ b'r' ∷ b'r' ∷ b'o' ∷ b'r' ∷ []

-- `asngn_verification_command`.
unfoldable pub verification_command : Bytes → Bytes → Bool
verification_command ref cmd =
    (bytes_eq ref project || bytes_eq (take 8 ref) (project ++ b'@' ∷ []))
    && (bytes_eq cmd build_command
        || bytes_eq cmd test_command
        || bytes_eq cmd lint_command
        || bytes_eq cmd diagnostics_command)

-- `asngn_verification_result_ok`, on the parsed result.
unfoldable pub result_ok : Option Receipt → Bool
result_ok none = false
result_ok (some v) =
    is_int v.verification_schema (pos 1)
    && is_text v.verification_status passed_text
    && is_int v.exit_code (pos 0)

-- `os_path_join`, on allocations that succeed.
unfoldable pub last_byte : Bytes → ℕ
last_byte [] = 0
last_byte (ch ∷ []) = ch
last_byte (ch ∷ x ∷ s) = last_byte (x ∷ s)

unfoldable pub path_join : Bytes → Bytes → Bytes
unfolding last_byte
path_join a b =
    if is_empty a
    then b
    else if is_empty b
    then a
    else if not (last_byte a == b'/') && not (last_byte a == b'\\')
    then a ++ b'/' ∷ b
    else a ++ b

unfoldable pub expected_path : Bytes → Criterion → Bytes
unfolding path_join
expected_path root c = if bytes_eq c.path dot then root else path_join root c.path

unfoldable pub wanted_path : Bytes → Option Bytes → Bytes
wanted_path root none = root
wanted_path root (some path) = if bytes_eq path dot then root else path

unfoldable pub other_adapter : Option Bytes → Criterion → Bool
other_adapter none c = false
other_adapter (some adapter) c =
    not (bytes_eq adapter auto_adapter)
    && not (bytes_eq c.adapter auto_adapter)
    && not (bytes_eq adapter c.adapter)

-- The static `target`.
unfoldable pub is_target : Bytes → Criterion → Args → Bool
unfolding expected_path wanted_path other_adapter
is_target root c args =
    let path = wanted_path root args.path in
    (bytes_eq path c.path || bytes_eq path (expected_path root c))
    && not (other_adapter args.adapter c)

-- The static `receipt_target`; `asngn_xfield` of a NULL value is NULL.
unfoldable pub receipt_target : Bytes → Criterion → Option Receipt → Bool
unfolding expected_path
receipt_target root c none = false
receipt_target root c (some v) =
    is_text v.cwd (expected_path root c)
    && (has_text v.adapter && (bytes_eq c.adapter auto_adapter || is_text v.adapter c.adapter))

-- `tests_collected` and `tests_skipped` are there, and some test was not skipped.
unfoldable pub some_test_ran : Option ℤ → Option ℤ → Bool
some_test_ran (some collected) (some skipped) =
    not (ltb_ℤ skipped (pos 0)) && ltb_ℤ skipped collected
some_test_ran _ _ = false

unfoldable pub passed_status : Bytes → Receipt → ProofStatus
unfolding some_test_ran
passed_status cmd v =
    if bytes_eq cmd test_command && not (some_test_ran v.tests_collected v.tests_skipped)
    then inconclusive
    else passed

-- The static `status`, past its test on `ok`.
unfoldable pub receipt_status : Bytes → Option Receipt → ProofStatus
unfolding passed_status result_ok
receipt_status cmd none = inconclusive
receipt_status cmd (some v) =
    if not (has_text v.verification_status)
      || not (is_text v.action cmd)
      || not (is_int v.verification_schema (pos 1))
      || not (has_int v.exit_code)
    then inconclusive
    else if other_int v.exit_code (pos 0) || is_text v.verification_status failed_text
    then failed
    else if is_text v.verification_status passed_text && result_ok (some v)
    then passed_status cmd v
    else if is_text v.verification_status not_run_text
    then not_run
    else if is_text v.verification_status infrastructure_text
    then infrastructure_error
    else inconclusive

-- `before && *before && after && !strcmp(before, after)`: the files did not change under the call.
unfoldable pub unchanged : Option Bytes → Option Bytes → Bool
unchanged (some before) (some after) = not (is_empty before) && bytes_eq before after
unchanged _ _ = false

unfoldable pub call_status : Bytes → Call → Option Receipt → Criterion → ProofStatus
unfolding receipt_target receipt_status unchanged
call_status root call v c =
    if not (unchanged call.before call.after)
    then stale
    else if not call.tool_ok
    then infrastructure_error
    else if receipt_target root c v
    then receipt_status call.cmd v
    else inconclusive

abbrev text_or_empty : Option Bytes → Bytes
text_or_empty none = []
text_or_empty (some s) = s

abbrev receipt_hash : Option Bytes → Bytes
receipt_hash none = []
receipt_hash (some result) = sha256_hex (sha256 result) 32

-- The proof that the loop of `asngn_work_observe` writes.
unfoldable pub call_proof : Bytes → Call → Option Receipt → Criterion → Proof
unfolding call_status
call_proof root call v c = record {
  status = call_status root call v c;
  action_id = call.action_id;
  snapshot = text_or_empty call.after;
  receipt_sha256 = receipt_hash call.result;
}

unfoldable pub is_observed : Bytes → Call → Args → Criterion → Bool
unfolding is_target
is_observed root call args c = bytes_eq c.command call.cmd && is_target root c args

-- The loop, where the arguments have a document.
unfoldable pub observe_loop :
    Bytes → Call → Args → Option Receipt → List Criterion → List Proof → List Proof
unfolding is_observed
observe_loop root call args v (c ∷ cs) (p ∷ ps) =
    (if is_observed root call args c then call_proof root call v c else p)
    ∷ observe_loop root call args v cs ps
observe_loop root call args v _ ps = ps

unfoldable pub observe_over :
    Bytes → Call → Option Args → Option Receipt → List Criterion → List Proof → List Proof
unfolding observe_loop
observe_over root call none v cs ps = ps
observe_over root call (some args) v cs ps = observe_loop root call args v cs ps

-- The evidence after a call: reviewed, with the proofs that the call makes, and reviewed again.
unfoldable pub observed : Bytes → Call → Option Args → Option Receipt → WorkState → WorkState
unfolding observe_over
observed root call args v w =
    let before = refresh w call.after in
    refresh
      (record before {
        proofs = observe_over root call args v before.definition.criteria before.proofs;
      })
      call.after

unfoldable pub any_observed : Bytes → Call → Option Args → List Criterion → Bool
unfolding is_observed
any_observed root call none cs = false
any_observed root call (some args) [] = false
any_observed root call (some args) (c ∷ cs) =
    is_observed root call args c || any_observed root call (some args) cs

unfoldable pub same_status : ProofStatus → ProofStatus → Bool
same_status not_run not_run = true
same_status passed passed = true
same_status failed failed = true
same_status inconclusive inconclusive = true
same_status infrastructure_error infrastructure_error = true
same_status stale stale = true
same_status blocked blocked = true
same_status _ _ = false

unfoldable pub statuses_differ : List Proof → List Proof → Bool
unfolding same_status
statuses_differ (p ∷ ps) (q ∷ qs) = not (same_status p.status q.status) || statuses_differ ps qs
statuses_differ _ _ = false

abbrev empty_object : Bytes
empty_object = b'{' ∷ b'}' ∷ []

abbrev pub args_text : Option Bytes → Bytes
args_text none = empty_object
args_text (some text) = text

module _ (render : WorkState → Option Bytes) (parse_args : Bytes → Option Args)
    (parse_result : Bytes → Option Receipt) where
  unfoldable pub parsed_result : Option Bytes → Option Receipt
  parsed_result none = none
  parsed_result (some text) = parse_result text

  unfoldable pub observe_state : Session → Option WorkState → Bytes → Call → Wrote → Done
  unfolding any_observed statuses_differ parsed_result
  observe_state s none root call wrote = (s, none)
  observe_state s (some w) root call wrote =
      let args = parse_args (args_text call.args) in
      let next = observed root call args (parsed_result call.result) w in
      if w.revision == 0
      then (s, none)
      else if not (uuid_valid call.action_id)
      then (s, some invalid)
      else if any_observed root call args w.definition.criteria
          || statuses_differ next.proofs w.proofs
      then save render s next wrote
      else (s, none)

  -- `asngn_work_observe`, in the workspace `root`.
  unfoldable pub work_observe : Session → Bytes → Call → Wrote → Done
  unfolding observe_state
  work_observe s root call wrote =
      if not (verification_command call.ref call.cmd)
      then (s, none)
      else observe_state s s.work root call wrote
