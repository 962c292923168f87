-- ===== src/Work/Evidence.antt =====
-- The proofs of a contract's criteria, and their review against the files as they are:
-- `asngn_work_refresh` of src/work_definition.c. `proofs[0]` to `proofs[count - 1]` are one list;
-- the entries behind them stay zero. A NULL snapshot is `none`.
use Prim.Native.Nat.{bit_and, bit_or}
use asterism_asngn.Common.{
  ℕ, suc, ◌^◌, Bool, true, false, not, ◌&&◌, ◌||◌, Option, none, some, List, [], ◌∷◌, ◌==◌,
  if◌then◌else◌, Bytes, bytes_eq, length,
}
use asterism_asngn.Work.Contract.{Criterion, Definition, is_empty}

-- `asngn_proof_status`.
pub data ProofStatus : Type 0 where
  not_run passed failed inconclusive infrastructure_error stale blocked : ProofStatus

-- `asngn_work_proof`.
pub record Proof : Type 0 where
  pub status : ProofStatus
  pub action_id : Bytes
  pub snapshot : Bytes
  pub receipt_sha256 : Bytes

-- `asngn_work_state`.
pub record WorkState : Type 0 where
  pub revision : ℕ
  pub sequence : ℕ
  pub definition : Definition
  pub proofs : List Proof
  pub succeeded : Bool

-- A zeroed `asngn_work_proof`.
abbrev pub no_proof : Proof
no_proof = record { status = not_run; action_id = []; snapshot = []; receipt_sha256 = [] }

abbrev pub is_passed : ProofStatus → Bool
is_passed passed = true
is_passed _ = false

-- `status != NOT_RUN && status != STALE`.
abbrev pub is_evidence : ProofStatus → Bool
is_evidence not_run = false
is_evidence stale = false
is_evidence _ = true

-- `!snapshot || !*snapshot || strcmp(p->snapshot, snapshot)`.
unfoldable pub outdated : Option Bytes → Bytes → Bool
outdated none own = true
outdated (some now) own = is_empty now || not (bytes_eq own now)

-- The first `if` of the loop's body, and the second.
unfoldable pub expire : Option Bytes → Proof → Proof
unfolding outdated
expire snapshot p =
    if is_evidence p.status && outdated snapshot p.snapshot then record p { status = stale } else p

unfoldable pub block : ℕ → Criterion → Proof → Proof
block seen c p =
    if is_passed p.status && not (bit_and c.depends_on seen == c.depends_on)
    then record p { status = blocked }
    else p

unfoldable pub review : Option Bytes → ℕ → Criterion → Proof → Proof
unfolding expire block
review snapshot seen c p = block seen c (expire snapshot p)

-- `if (p->status == ASNGN_PROOF_PASSED) passed |= 1u << i`.
unfoldable pub note_passed : ℕ → ℕ → Proof → ℕ
note_passed i seen p = if is_passed p.status then bit_or seen (2 ^ i) else seen

unfoldable pub refresh_loop : Option Bytes → ℕ → ℕ → List Criterion → List Proof → List Proof
unfolding note_passed
refresh_loop snapshot i seen (c ∷ cs) (p ∷ ps) =
    let p' = review snapshot seen c p in
    p' ∷ refresh_loop snapshot (suc i) (note_passed i seen p') cs ps
refresh_loop snapshot i seen _ ps = ps

-- `w->succeeded`: it starts as `count != 0`, and a proof that did not pass clears it.
unfoldable pub all_passed : List Proof → Bool
all_passed [] = true
all_passed (p ∷ ps) = is_passed p.status && all_passed ps

unfoldable pub refresh : WorkState → Option Bytes → WorkState
unfolding refresh_loop all_passed
refresh w snapshot =
    let ps = refresh_loop snapshot 0 0 w.definition.criteria w.proofs in
    record w { proofs = ps; succeeded = not (length w.definition.criteria == 0) && all_passed ps }
