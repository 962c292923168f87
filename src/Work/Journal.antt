-- ===== src/Work/Journal.antt =====
-- The replay of a session's journal, src/work_replay.c, and proofs on it. A frame stands for the state
-- that it decodes to.
use asterism_asngn.Common.{
  ℕ, ◌+◌, ◌≡◌, ◌⊎◌, refl, sym, ◌∙◌, subst, inl, inr, Bool, not, ◌||◌, Option, none, some, List, [],
  ◌∷◌, leb, ltb, ◌==◌, if◌then◌else◌, Bytes, bytes_eq_refl, length, arith, pick, pick_on, true,
  false,
}
use asterism_asngn.Common.Maybe.{◌>>=◌, some_eq, >>=-eq-some}
use asterism_asngn.Common.Writes.{Wrote, written, failed, unsynced}
use asterism_asngn.Common.Errors.{io, limit, invalid, not_found}
use asterism_asngn.Work.Contract.{Criterion, Definition, criterion_equal_refl, definition_valid}
use asterism_asngn.Work.Evidence.{WorkState}
use asterism_asngn.Work.Store.{
  Session, Done, no_work, append_frame, write_frame, criteria_equal, definition_equal, follows,
  redefine, save_to, save, current, define_over, invalidate_over, revoke_over, work_define,
  work_invalidate, work_revoke, frame_max, int64_top, any_evidence,
}
use asterism_asngn.Text.Utf8.{utf8_valid}

-- The static `replay` of src/work_replay.c, on the frames of the file.
unfoldable pub replay : List WorkState → Option WorkState
replay [] = some no_work
replay (frame ∷ older) =
    replay older >>= λ before. if follows before frame then some frame else none

criteria_equal_refl : (cs : List Criterion) → criteria_equal cs cs ≡ true
unfolding criteria_equal
criteria_equal_refl [] = refl
criteria_equal_refl (c ∷ cs) = ground (arith, criterion_equal_refl c, criteria_equal_refl cs)

definition_equal_refl : (d : Definition) → definition_equal d d ≡ true
unfolding definition_equal
definition_equal_refl d =
    ground
      (arith, bytes_eq_refl d.goal, bytes_eq_refl d.constraints, criteria_equal_refl d.criteria)

-- A new revision, or the old one with its definition.
abbrev pub Extends : WorkState → WorkState → Type 0
Extends old next =
    (next.revision ≡ old.revision + 1)
    ⊎ ((next.revision ≡ old.revision) × (next.definition ≡ old.definition))

follows-Extends :
    (old next : WorkState)
    → Extends old next
    → follows old (record next { sequence = old.sequence + 1 }) ≡ true
unfolding follows
follows-Extends old next (inl e) = ground arith
follows-Extends old next (inr (e, d)) = rw d (ground (arith, definition_equal_refl old.definition))

-- `asngn_work_load` on the frames of the file: the session that opens on it, or none where the file does
-- not replay. Opening the stream succeeds.
unfoldable pub load : List WorkState → Bool → Option Session
unfolding replay
load frames busy_turn = replay frames >>= λ w.
    some
      (record { work = some w; journal = frames; recovery_required = false; busy_turn = busy_turn })

-- The state in memory is what the frames on disk replay to.
abbrev pub Replays : Session → Type 0
Replays s = (w : WorkState) → s.work ≡ some w → replay s.journal ≡ some w

-- The file is one frame ahead: the save of a state that may follow the one in memory has failed, but
-- its frame is on disk, and no call saves again before the session is opened anew.
abbrev pub IsAhead : Session → Type 0
IsAhead s =
    (s.recovery_required ≡ true)
    × (next : WorkState) × (older : List WorkState) × (s.journal ≡ next ∷ older)
    × ((w : WorkState) → s.work ≡ some w → (replay older ≡ some w) × (follows w next ≡ true))

abbrev pub IsJournaled : Session → Type 0
IsJournaled s = Replays s ⊎ IsAhead s

abbrev pub Kept : Done → Type 0
Kept r = IsJournaled r.0

sane-Replays : (s : Session) → IsJournaled s → s.recovery_required ≡ false → Replays s
sane-Replays s (inl r) sane = r
sane-Replays s (inr ahead) sane = let broken = ahead.0 in cc

append_frame-IsJournaled :
    (s : Session) (old next : WorkState) (wrote : Wrote)
    → s.work ≡ some old
    → Replays s
    → follows old next ≡ true
    → IsJournaled (append_frame s next wrote).0
unfolding append_frame
append_frame-IsJournaled s old next written has r h =
    inl (λ w k. unfold replay in rw (r old has) (rw h k))
append_frame-IsJournaled s old next (failed e) has r h = inl (λ w k. r w k)
append_frame-IsJournaled s old next unsynced has r h = inr (
  refl,
  next,
  s.journal,
  refl,
  λ w k. (r w k, subst (λ v. follows v next ≡ true) (some_eq (sym has ∙ k)) h),
)

write_frame-IsJournaled :
    (s : Session) (old next : WorkState) (frame : Option Bytes) (wrote : Wrote)
    → s.work ≡ some old
    → Replays s
    → follows old next ≡ true
    → IsJournaled (write_frame s next frame wrote).0
unfolding write_frame
write_frame-IsJournaled s old next none wrote has r h = inl r
write_frame-IsJournaled s old next (some frame) wrote has r h =
    pick Kept (ltb frame_max (length frame)) (s, some limit) _ (inl r)
      (pick Kept (not (utf8_valid frame)) (s, some invalid) (append_frame s next wrote) (inl r)
        (append_frame-IsJournaled s old next wrote has r h))

pub load-IsJournaled :
    (frames : List WorkState) (busy_turn : Bool) {s : Session}
    → load frames busy_turn ≡ some s
    → IsJournaled s
unfolding load
load-IsJournaled frames busy_turn {s} h =
    let (w, found, same) = >>=-eq-some (replay frames) _ h in
    subst IsJournaled (some_eq same) (inl (λ v k. found ∙ k))

-- The store's state, once the checks have let a call through.
current-some :
    (work : Option WorkState) (busy_turn : Bool) (revision : ℕ) {old : WorkState}
    → current work busy_turn revision ≡ some old
    → work ≡ some old
unfolding current
current-some none busy_turn revision e = cc
current-some (some w) busy_turn revision e = ground arith

module _ (render : WorkState → Option Bytes) (s : Session) (j : IsJournaled s) where
  save_to-IsJournaled :
      (work : Option WorkState) (next : WorkState) (wrote : Wrote)
      → s.work ≡ work
      → Replays s
      → ((old : WorkState) → work ≡ some old → Extends old next)
      → Kept (save_to render s work next wrote)
  unfolding save_to
  save_to-IsJournaled none next wrote has r extends = j
  save_to-IsJournaled (some old) next wrote has r extends =
      let numbered = record next { sequence = old.sequence + 1 } in
      pick Kept (ltb int64_top next.revision || leb int64_top old.sequence) (s, some limit)
        (write_frame s numbered (render numbered) wrote) j
        (write_frame-IsJournaled s old numbered (render numbered) wrote has r
          (follows-Extends old next (extends old refl)))

  pub save-IsJournaled :
      (old next : WorkState) (wrote : Wrote)
      → s.work ≡ some old
      → Extends old next
      → Kept (save render s next wrote)
  unfolding save
  save-IsJournaled old next wrote has extends =
      pick_on Kept s.recovery_required (s, some io) (save_to render s s.work next wrote) (λ h. j)
        (λ sane.
          save_to-IsJournaled s.work next wrote refl (sane-Replays s j sane)
            (λ w e. subst (λ v. Extends v next) (some_eq (sym has ∙ e)) extends))

  define_over-IsJournaled :
      (work : Option WorkState) (d : Definition) (wrote : Wrote)
      → ((old : WorkState) → work ≡ some old → s.work ≡ some old)
      → Kept (define_over render s work d wrote)
  unfolding define_over
  define_over-IsJournaled none d wrote h = j
  define_over-IsJournaled (some old) d wrote h =
      pick Kept (leb int64_top old.revision) (s, some limit) (save render s (redefine old d) wrote)
        j (save-IsJournaled old (redefine old d) wrote (h old refl) (inl refl))

  pub work_define-IsJournaled :
      (revision : ℕ) (d : Definition) (wrote : Wrote) → Kept (work_define render s revision d wrote)
  unfolding work_define
  work_define-IsJournaled revision d wrote =
      let found = current s.work s.busy_turn revision in
      pick Kept (not (definition_valid d)) (s, some invalid) (define_over render s found d wrote) j
        (define_over-IsJournaled found d wrote
          (λ old e. current-some s.work s.busy_turn revision e))

  invalidate_over-IsJournaled :
      (work : Option WorkState) (wrote : Wrote)
      → ((old : WorkState) → work ≡ some old → s.work ≡ some old)
      → Kept (invalidate_over render s work wrote)
  unfolding invalidate_over
  invalidate_over-IsJournaled none wrote h = j
  invalidate_over-IsJournaled (some old) wrote h =
      pick Kept (old.revision == 0) (s, some not_found) _ j
        (pick Kept (leb int64_top old.revision) (s, some limit) _ j
          (save-IsJournaled old _ wrote (h old refl) (inl refl)))

  pub work_invalidate-IsJournaled :
      (revision : ℕ) (wrote : Wrote) → Kept (work_invalidate render s revision wrote)
  unfolding work_invalidate
  work_invalidate-IsJournaled revision wrote =
      invalidate_over-IsJournaled (current s.work s.busy_turn revision) wrote
        (λ old e. current-some s.work s.busy_turn revision e)

  revoke_over-IsJournaled :
      (work : Option WorkState) (wrote : Wrote)
      → s.work ≡ work
      → Kept (revoke_over render s work wrote)
  unfolding revoke_over
  revoke_over-IsJournaled none wrote has = j
  revoke_over-IsJournaled (some old) wrote has =
      pick Kept (old.revision == 0) (s, none) _ j
        (pick Kept (any_evidence old.proofs) _ (s, none)
          (save-IsJournaled old _ wrote has (inr (refl, refl))) j)

  pub work_revoke-IsJournaled : (wrote : Wrote) → Kept (work_revoke render s wrote)
  unfolding work_revoke
  work_revoke-IsJournaled wrote = revoke_over-IsJournaled s.work wrote refl
