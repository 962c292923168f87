-- ===== src/Work/Reached.antt =====
-- The sessions that the contract calls lead to: src/work_api.c, src/work_store.c and
-- src/work_observe.c, in any order and with any outcome of the writes, and `asngn_work_load` of
-- src/work_replay.c.
use asterism_asngn.Common.{
  ℕ, ◌≡◌, refl, ◌∙◌, inl, inr, Bool, not, ◌||◌, Option, none, some, true, List, [], ◌∷◌, ◌==◌,
  false, Bytes, pick,
}
use asterism_asngn.Common.Writes.{Wrote}
use asterism_asngn.Common.Errors.{invalid}
use asterism_asngn.Uuid.{uuid_valid}
use asterism_asngn.Work.Contract.{Definition}
use asterism_asngn.Work.Evidence.{WorkState, refresh}
use asterism_asngn.Work.Store.{Session, no_work, work_define, work_invalidate, work_revoke, save}
use asterism_asngn.Work.Journal.{
  IsJournaled, Kept, Extends, replay, load, load-IsJournaled, save-IsJournaled,
  work_define-IsJournaled, work_invalidate-IsJournaled, work_revoke-IsJournaled,
}
use asterism_asngn.Work.Receipts.{
  Args, Receipt, Call, args_text, any_observed, statuses_differ, observed, parsed_result,
  observe_state, work_observe, verification_command,
}

replay-empty : replay [] ≡ some no_work
unfolding replay
replay-empty = refl

-- A session as it is opened on an empty file.
abbrev pub opened : Bool → Session
opened busy_turn = record {
  work = some no_work;
  journal = [];
  recovery_required = false;
  busy_turn = busy_turn;
}

observed-Extends :
    (root : Bytes) (call : Call) (args : Option Args) (v : Option Receipt) (w : WorkState)
    → Extends w (observed root call args v w)
unfolding observed refresh
observed-Extends root call args v w = inr (refl, refl)

module _ (render : WorkState → Option Bytes) (parse_args : Bytes → Option Args)
    (parse_result : Bytes → Option Receipt) where
  observe_state-IsJournaled :
      (s : Session) (work : Option WorkState) (root : Bytes) (call : Call) (wrote : Wrote)
      → s.work ≡ work
      → IsJournaled s
      → IsJournaled (observe_state render parse_args parse_result s work root call wrote).0
  unfolding observe_state
  observe_state-IsJournaled s none root call wrote has j = j
  observe_state-IsJournaled s (some w) root call wrote has j =
      let args = parse_args (args_text call.args) in
      let next =
        observed root call args (parsed_result render parse_args parse_result call.result) w in
      pick Kept (w.revision == 0) (s, none) _ j
        (pick Kept (not (uuid_valid call.action_id)) (s, some invalid) _ j
          (pick Kept
            (any_observed root call args w.definition.criteria
              || statuses_differ next.proofs w.proofs)
            (save render s next wrote) (s, none)
            (save-IsJournaled render s j w next wrote has (observed-Extends root call args _ w)) j))

  work_observe-IsJournaled :
      (s : Session) (root : Bytes) (call : Call) (wrote : Wrote)
      → IsJournaled s
      → IsJournaled (work_observe render parse_args parse_result s root call wrote).0
  unfolding work_observe
  work_observe-IsJournaled s root call wrote j =
      pick Kept (not (verification_command call.ref call.cmd)) (s, none) _ j
        (observe_state-IsJournaled s s.work root call wrote refl j)

  -- One call, a turn that begins or ends, or a new process.
  pub data Step : Session → Session → Type 0 where
    defined :
        (s : Session) (revision : ℕ) (d : Definition) (wrote : Wrote)
        → Step s (work_define render s revision d wrote).0
    invalidated :
        (s : Session) (revision : ℕ) (wrote : Wrote)
        → Step s (work_invalidate render s revision wrote).0
    revoked : (s : Session) (wrote : Wrote) → Step s (work_revoke render s wrote).0
    noticed :
        (s : Session) (root : Bytes) (call : Call) (wrote : Wrote)
        → Step s (work_observe render parse_args parse_result s root call wrote).0
    turned : (s : Session) (busy_turn : Bool) → Step s (record s { busy_turn = busy_turn })
    -- A process that opens the session again.
    reopened : (s t : Session) (busy_turn : Bool) → load s.journal busy_turn ≡ some t → Step s t
    -- A frame that was not synced may be gone by then.
    lost :
        (s t : Session) (next : WorkState) (older : List WorkState) (busy_turn : Bool)
        → s.recovery_required ≡ true
        → s.journal ≡ next ∷ older
        → load older busy_turn ≡ some t
        → Step s t

  pub data Reach : Session → Type 0 where
    start : (busy_turn : Bool) → Reach (opened busy_turn)
    step : {s t : Session} → Reach s → Step s t → Reach t

  Step-IsJournaled : {s t : Session} → Step s t → IsJournaled s → IsJournaled t
  Step-IsJournaled (defined s revision d wrote) j =
      work_define-IsJournaled render s j revision d wrote
  Step-IsJournaled (invalidated s revision wrote) j =
      work_invalidate-IsJournaled render s j revision wrote
  Step-IsJournaled (revoked s wrote) j = work_revoke-IsJournaled render s j wrote
  Step-IsJournaled (noticed s root call wrote) j = work_observe-IsJournaled s root call wrote j
  Step-IsJournaled (turned s busy_turn) j = j
  Step-IsJournaled (reopened s t busy_turn h) j = load-IsJournaled s.journal busy_turn h
  Step-IsJournaled (lost s t next older busy_turn broken has h) j =
      load-IsJournaled older busy_turn h

  -- In every session that the calls lead to from an empty journal, whatever the writes came to and
  -- however the calls are interleaved with turns and with processes that open the session again,
  -- replaying the journal gives the state that the store holds in memory; or else a save has failed
  -- whose frame is on disk: then the session needs recovery, the journal in front of that frame replays to
  -- the state in memory, and the state of the frame may follow it.
  pub Reach-IsJournaled : {s : Session} → Reach s → IsJournaled s
  Reach-IsJournaled (start busy_turn) = inl (λ w e. replay-empty ∙ e)
  Reach-IsJournaled (step {t = t} before next) = Step-IsJournaled next (Reach-IsJournaled before)
