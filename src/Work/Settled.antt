-- ===== src/Work/Settled.antt =====
-- Proofs on a second review, and on when a contract is fulfilled: src/work_definition.c.
use asterism_asngn.Common.{
  ℕ, zero, suc, ◌<◌, ◌≡◌, ◌↔◌, refl, ◌∙◌, ap, true, Option, List, [], ◌∷◌, Bytes, length, arith,
}
use asterism_asngn.Common.Maybe.{some_eq}
use asterism_asngn.Work.Contract.{Criterion}
use asterism_asngn.Work.Evidence.{
  Proof, WorkState, review, note_passed, refresh_loop, all_passed, refresh,
}
use asterism_asngn.Work.Refreshed.{PassedAt, is_passed→eq}

review_twice :
    (snapshot : Option Bytes) (seen : ℕ) (c : Criterion) (p : Proof)
    → review snapshot seen c (review snapshot seen c p) ≡ review snapshot seen c p
unfolding review
review_twice snapshot seen c p = ground arith

refresh_loop_twice :
    (snapshot : Option Bytes) (i seen : ℕ) (cs : List Criterion) (ps : List Proof)
    → refresh_loop snapshot i seen cs (refresh_loop snapshot i seen cs ps)
      ≡ refresh_loop snapshot i seen cs ps
unfolding refresh_loop
refresh_loop_twice snapshot i seen [] ps = refl
refresh_loop_twice snapshot i seen (c ∷ cs) [] = refl
refresh_loop_twice snapshot i seen (c ∷ cs) (p ∷ ps) =
    let p' = review snapshot seen c p in
    rw (review_twice snapshot seen c p)
      (ap (◌∷◌ p') (refresh_loop_twice snapshot (suc i) (note_passed i seen p') cs ps))

-- A second review against the same files changes nothing.
pub refresh_twice :
    (w : WorkState) (snapshot : Option Bytes)
    → refresh (refresh w snapshot) snapshot ≡ refresh w snapshot
unfolding refresh
refresh_twice w snapshot = rw (refresh_loop_twice snapshot 0 0 w.definition.criteria w.proofs) refl

length-refresh_loop :
    (snapshot : Option Bytes) (i seen : ℕ) (cs : List Criterion) (ps : List Proof)
    → length (refresh_loop snapshot i seen cs ps) ≡ length ps
unfolding refresh_loop
length-refresh_loop snapshot i seen [] ps = refl
length-refresh_loop snapshot i seen (c ∷ cs) [] = refl
length-refresh_loop snapshot i seen (c ∷ cs) (p ∷ ps) =
    let p' = review snapshot seen c p in
    ap suc (length-refresh_loop snapshot (suc i) (note_passed i seen p') cs ps)

all_passed-each : (ps : List Proof) → all_passed ps ≡ true → (n : ℕ) → n < length ps → PassedAt ps n
unfolding all_passed
all_passed-each [] h n below = absurd (omega arith)
all_passed-each (p ∷ ps) h zero below = (p, refl, is_passed→eq p.status (ground arith))
all_passed-each (p ∷ ps) h (suc n) below = all_passed-each ps (ground arith) n (omega arith)

all_passed_of_each :
    (ps : List Proof) → ((n : ℕ) → n < length ps → PassedAt ps n) → all_passed ps ≡ true
unfolding all_passed
all_passed_of_each [] each = refl
all_passed_of_each (p ∷ ps) each =
    let (q, e, pass) = each 0 (omega arith) in
    let rest = all_passed_of_each ps (λ n below. each (suc n) (omega arith)) in
    ground (arith, some_eq e)

-- A reviewed contract is fulfilled exactly when it has a criterion and each criterion has passed.
-- The condition is that there is a proof for each criterion.
pub refresh-succeeded :
    (w : WorkState) (snapshot : Option Bytes)
    → length w.proofs ≡ length w.definition.criteria
    → ((refresh w snapshot).succeeded ≡ true) ↔ (
        (0 < length w.definition.criteria)
        × ((n : ℕ) → n < length w.definition.criteria → PassedAt (refresh w snapshot).proofs n))
unfolding refresh
refresh-succeeded w snapshot e =
    let ps = refresh_loop snapshot 0 0 w.definition.criteria w.proofs in
    let size : length ps ≡ length w.definition.criteria =
      length-refresh_loop snapshot 0 0 w.definition.criteria w.proofs ∙ e in
    rw (← size) (ground (arith, all_passed-each ps, all_passed_of_each ps))
