-- ===== src/Work/Store.antt =====
-- The contract of a session and its journal: src/work_store.c and src/work_api.c, with the check of
-- src/work_replay.c on what follows what. `render` is the xCDN writer's text of a state, `wrote` what
-- the journal append came to. `journal` lists the states whose frames are whole on disk, newest first:
-- it is what a scan of the file `work.xcdn` finds. The callers hold the session's lock.
use Prim.Native.Nat.{bit_and, bit_or}
use asterism_asngn.Common.{
  ℕ, suc, ◌+◌, ◌*◌, ◌-◌, ◌^◌, Bool, true, false, not, ◌&&◌, ◌||◌, Option, none, some, List, [], ◌∷◌,
  leb, ltb, ◌==◌, if◌then◌else◌, Bytes, bytes_eq, length, map,
}
use asterism_asngn.Common.Writes.{Wrote, written, failed, unsynced}
use asterism_asngn.Common.Errors.{AsngnErr, io, limit, nomem, invalid, busy, not_found}
use asterism_asngn.Text.Utf8.{utf8_valid}
use asterism_asngn.Work.Contract.{Criterion, Definition, criterion_equal, definition_valid}
use asterism_asngn.Work.Evidence.{stale, Proof, WorkState, no_proof, is_evidence, refresh}

-- `ASNGN_WORK_FRAME_MAX`.
abbrev pub frame_max : ℕ
frame_max = 256 * 1024

-- `INT64_MAX`.
abbrev pub int64_top : ℕ
int64_top = 2 ^ 63 - 1

-- The fields of `asngn_session` that the contract calls read; `work` is the store's state, or none
-- where the session has no store.
pub record Session : Type 0 where
  pub work : Option WorkState
  pub journal : List WorkState
  pub recovery_required : Bool
  pub busy_turn : Bool

-- A zeroed `asngn_work_state`.
abbrev pub no_work : WorkState
no_work = record {
  revision = 0;
  sequence = 0;
  definition = record { goal = []; constraints = []; criteria = [] };
  proofs = [];
  succeeded = false;
}

abbrev pub Done : Type 0
Done = Session × Option AsngnErr

-- The append: a failed one needs recovery, and after a failed fsync its frame is on disk.
unfoldable pub append_frame : Session → WorkState → Wrote → Done
append_frame s next written = (record s { work = some next; journal = next ∷ s.journal }, none)
append_frame s next (failed e) = (record s { recovery_required = true }, some e)
append_frame s next unsynced =
    (record s { recovery_required = true; journal = next ∷ s.journal }, some io)

-- The checks on the rendered frame; `none` is a failed allocation.
unfoldable pub write_frame : Session → WorkState → Option Bytes → Wrote → Done
unfolding append_frame
write_frame s next none wrote = (s, some nomem)
write_frame s next (some frame) wrote =
    if ltb frame_max (length frame)
    then (s, some limit)
    else if not (utf8_valid frame)
    then (s, some invalid)
    else append_frame s next wrote

-- The static `follows` of src/work_replay.c.
unfoldable pub criteria_equal : List Criterion → List Criterion → Bool
criteria_equal [] [] = true
criteria_equal (a ∷ as') (b ∷ bs) = criterion_equal a b && criteria_equal as' bs
criteria_equal _ _ = false

unfoldable pub definition_equal : Definition → Definition → Bool
unfolding criteria_equal
definition_equal a b =
    length a.criteria == length b.criteria
    && bytes_eq a.goal b.goal
    && bytes_eq a.constraints b.constraints
    && criteria_equal a.criteria b.criteria

unfoldable pub follows : WorkState → WorkState → Bool
unfolding definition_equal
follows before next =
    if not (next.sequence == before.sequence + 1)
      || ltb next.revision before.revision
      || ltb (before.revision + 1) next.revision
    then false
    else if not (next.revision == before.revision)
    then true
    else definition_equal next.definition before.definition

-- A proof that does not survive a revocation.
unfoldable pub revoke_proof : Proof → Proof
revoke_proof p = if is_evidence p.status then record p { status = stale } else p

unfoldable pub any_evidence : List Proof → Bool
any_evidence [] = false
any_evidence (p ∷ ps) = is_evidence p.status || any_evidence ps

-- The loop of `asngn_session_work_define`: `old` and `proofs` are the criteria and the proofs at `i`
-- and behind, `same` says that the constraints are the old ones.
unfoldable pub keeps : Bool → ℕ → Criterion → Criterion → Bool
keeps same kept c old = same && criterion_equal c old && (bit_and c.depends_on kept == c.depends_on)

unfoldable pub retain_loop :
    Bool → ℕ → ℕ → List Criterion → List Criterion → List Proof → List Proof
unfolding keeps
retain_loop same i kept [] old ps = []
retain_loop same i kept (c ∷ cs) (o ∷ old) (p ∷ ps) =
    let stays = keeps same kept c o in
    (if stays then p else no_proof)
    ∷ retain_loop same (suc i) (if stays then bit_or kept (2 ^ i) else kept) cs old ps
retain_loop same i kept (c ∷ cs) old ps = no_proof ∷ map (λ d. no_proof) cs

unfoldable pub redefine : WorkState → Definition → WorkState
unfolding retain_loop
redefine old d = record {
  revision = old.revision + 1;
  sequence = 0;
  definition = d;
  proofs =
      retain_loop (bytes_eq d.constraints old.definition.constraints) 0 0 d.criteria
        old.definition.criteria old.proofs;
  succeeded = false;
}

-- The checks that `define` and `invalidate` share; none is `ASNGN_ERR_BUSY`.
unfoldable pub current : Option WorkState → Bool → ℕ → Option WorkState
current none busy_turn revision = none
current (some old) busy_turn revision =
    if busy_turn || not (old.revision == revision) then none else some old

module _ (render : WorkState → Option Bytes) where
  -- `asngn_work_save`, past its recovery check; the second argument is the store.
  unfoldable pub save_to : Session → Option WorkState → WorkState → Wrote → Done
  unfolding write_frame
  save_to s none next wrote = (s, some limit)
  save_to s (some old) next wrote =
      let numbered = record next { sequence = old.sequence + 1 } in
      if ltb int64_top next.revision || leb int64_top old.sequence
      then (s, some limit)
      else write_frame s numbered (render numbered) wrote

  unfoldable pub save : Session → WorkState → Wrote → Done
  unfolding save_to
  save s next wrote = if s.recovery_required then (s, some io) else save_to s s.work next wrote

  -- What follows the checks on the revision.
  unfoldable pub define_over : Session → Option WorkState → Definition → Wrote → Done
  unfolding save redefine
  define_over s none d wrote = (s, some busy)
  define_over s (some old) d wrote =
      if leb int64_top old.revision then (s, some limit) else save s (redefine old d) wrote

  -- `asngn_session_work_define`.
  unfoldable pub work_define : Session → ℕ → Definition → Wrote → Done
  unfolding define_over current
  work_define s revision d wrote =
      if not (definition_valid d)
      then (s, some invalid)
      else define_over s (current s.work s.busy_turn revision) d wrote

  unfoldable pub invalidate_over : Session → Option WorkState → Wrote → Done
  unfolding save
  invalidate_over s none wrote = (s, some busy)
  invalidate_over s (some old) wrote =
      let next = record old {
        revision = old.revision + 1;
        proofs = map (λ p. no_proof) old.proofs;
        succeeded = false;
      } in
      if old.revision == 0
      then (s, some not_found)
      else if leb int64_top old.revision
      then (s, some limit)
      else save s next wrote

  -- `asngn_session_work_invalidate`.
  unfoldable pub work_invalidate : Session → ℕ → Wrote → Done
  unfolding invalidate_over current
  work_invalidate s revision wrote = invalidate_over s (current s.work s.busy_turn revision) wrote

  unfoldable pub revoke_over : Session → Option WorkState → Wrote → Done
  unfolding save any_evidence revoke_proof
  revoke_over s none wrote = (s, none)
  revoke_over s (some old) wrote =
      let next = record old { proofs = map revoke_proof old.proofs; succeeded = false } in
      if old.revision == 0
      then (s, none)
      else if any_evidence old.proofs
      then save s next wrote
      else (s, none)

  -- `asngn_work_revoke`.
  unfoldable pub work_revoke : Session → Wrote → Done
  unfolding revoke_over
  work_revoke s wrote = revoke_over s s.work wrote

-- The state reviewed against the files as they are.
unfoldable pub get_from : Option WorkState → Bytes → Option WorkState × Option AsngnErr
get_from none fingerprint = (none, some not_found)
get_from (some w) fingerprint =
    if w.revision == 0 then (none, some not_found) else (some (refresh w (some fingerprint)), none)

-- `asngn_session_work_get`; `fingerprint` is empty where no snapshot could be taken. The copy's
-- allocation succeeds.
unfoldable pub work_get : Session → Bytes → Option WorkState × Option AsngnErr
unfolding get_from
work_get s fingerprint =
    if s.recovery_required then (none, some io) else get_from s.work fingerprint
