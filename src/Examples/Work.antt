-- ===== src/Examples/Work.antt =====
-- A contract of one criterion: src/work_definition.c, src/work_api.c and src/work_observe.c.
use asterism_asngn.Common.{
  ℕ, ◌≡◌, refl, ◌<◌, ◌⊎◌, true, false, Option, none, some, [], ◌∷◌, get_elem?,
}
use asterism_asngn.Common.Bits.{bit}
use asterism_asngn.Common.Int.{pos}
use asterism_asngn.Work.Contract.{Criterion, Definition, dot, build_command, auto_adapter}
use asterism_asngn.Work.Evidence.{Proof, WorkState, passed, no_proof, refresh}
use asterism_asngn.Work.Refreshed.{Backed, refresh-Backed}
use asterism_asngn.Work.Store.{redefine, work_define}
use asterism_asngn.Work.Retained.{SameAt, redefine-Kept}
use asterism_asngn.Work.Receipts.{Args, Receipt, Call, passed_text, observed}
use asterism_asngn.Work.Proven.{Earned, observed-Earned}
use asterism_asngn.Work.Journal.{IsJournaled}
use asterism_asngn.Common.Writes.{written}
use asterism_asngn.Work.Reached.{start, step, defined, opened, Reach-IsJournaled}

abbrev builds : Criterion
builds = record {
  id = b'b' ∷ [];
  requirement = b'b' ∷ [];
  command = build_command;
  path = dot;
  adapter = auto_adapter;
  depends_on = 0;
}

abbrev contract : Definition
contract = record { goal = b'g' ∷ []; constraints = []; criteria = builds ∷ [] }

abbrev built : Proof
built = record { status = passed; action_id = b'x' ∷ []; snapshot = b'f' ∷ []; receipt_sha256 = [] }

abbrev holding : Proof → WorkState
holding p = record {
  revision = 1;
  sequence = 1;
  definition = contract;
  proofs = p ∷ [];
  succeeded = false;
}

refresh-Backed_example :
    (get_elem? (holding built).proofs 0 ≡ some built)
    × Backed (some (b'f' ∷ [])) (refresh (holding built) (some (b'f' ∷ []))) 0 builds built
unfolding refresh asterism_asngn.Work.Evidence.review
refresh-Backed_example =
    refresh-Backed (holding built) (some (b'f' ∷ [])) 0 {c = builds} {p = built} refl refl refl

redefine-Kept_example :
    (built ≡ no_proof)
    ⊎ ((contract.constraints ≡ contract.constraints)
        × (get_elem? contract.criteria 0 ≡ some builds)
        × (get_elem? (holding built).proofs 0 ≡ some built)
        × ((j : ℕ)
            → bit builds.depends_on j ≡ 1
            → (j < 0)
              × SameAt contract.criteria contract.criteria
                  (holding built).proofs
                  (redefine (holding built) contract).proofs
                  j))
unfolding redefine asterism_asngn.Work.Contract.criterion_equal
redefine-Kept_example = redefine-Kept (holding built) contract 0 {c = builds} {p = built} refl refl

abbrev receipt : Receipt
receipt = record {
  action = some build_command;
  verification_status = some passed_text;
  verification_schema = some (pos 1);
  exit_code = some (pos 0);
  tests_collected = none;
  tests_skipped = none;
  cwd = some (b'/' ∷ []);
  adapter = some auto_adapter;
}

abbrev build : Call
build = record {
  ref = [];
  cmd = build_command;
  args = none;
  tool_ok = true;
  result = none;
  before = some (b'f' ∷ []);
  after = some (b'f' ∷ []);
  action_id = b'x' ∷ [];
}

abbrev no_args : Option Args
no_args = some (record { path = none; adapter = none })

observed-Earned_example :
    Backed
      (some (b'f' ∷ []))
      (observed (b'/' ∷ []) build no_args (some receipt) (holding no_proof))
      0
      builds
      built
    × ((get_elem? (no_proof ∷ []) 0 ≡ some built) ⊎ Earned (b'/' ∷ []) builds build (some receipt))
unfolding observed refresh asterism_asngn.Work.Evidence.review
    asterism_asngn.Work.Receipts.call_proof
observed-Earned_example =
    observed-Earned (b'/' ∷ []) build no_args (some receipt) (holding no_proof) 0 {c = builds}
      {p = built} refl refl refl

Reach-IsJournaled_example :
    IsJournaled (work_define (λ w. some []) (opened false) 0 contract written).0
Reach-IsJournaled_example =
    Reach-IsJournaled (λ w. some []) (λ text. none) (λ text. none)
      (step (start false) (defined (opened false) 0 contract written))
