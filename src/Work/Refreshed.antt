-- ===== src/Work/Refreshed.antt =====
-- Proofs on what a review of the evidence leaves: `asngn_work_refresh` of src/work_definition.c.
use Prim.Native.Nat.{bit_and}
use asterism_asngn.Common.{
  ℕ, zero, suc, ◌+◌, ◌<◌, ◌≡◌, ◌⊎◌, refl, sym, ◌∙◌, subst, ap, inl, inr, true, false, Option, none,
  some, List, [], ◌∷◌, Bytes, bytes_eq→eq, get_elem?, arith,
}
use asterism_asngn.Common.Maybe.{some_eq}
use asterism_asngn.Common.Bits.{bit, bit_zero, bit-added, bit-covered}
use asterism_asngn.Work.Contract.{Criterion, is_empty}
use asterism_asngn.Work.Evidence.{
  ProofStatus, passed, Proof, WorkState, is_passed, outdated, review, note_passed, refresh_loop,
  refresh,
}

-- Proof `k` of the list has passed.
abbrev pub PassedAt : List Proof → ℕ → Type 0
PassedAt ps k = (p : Proof) × (get_elem? ps k ≡ some p) × (p.status ≡ passed)

-- `now` is a snapshot of the files, and the proof's own.
abbrev pub IsCurrent : Option Bytes → Proof → Type 0
IsCurrent snapshot p = (snapshot ≡ some p.snapshot) × (is_empty p.snapshot ≡ false)

review-passed :
    (snapshot : Option Bytes) (seen : ℕ) (c : Criterion) (p : Proof)
    → (review snapshot seen c p).status ≡ passed
    → IsCurrent snapshot p
      × (bit_and c.depends_on seen ≡ c.depends_on)
      × (review snapshot seen c p ≡ p)
unfolding review outdated
review-passed none seen c p h = ground arith
review-passed (some now) seen c p h = ground (arith, bytes_eq→eq p.snapshot now)

pub is_passed→eq : (s : ProofStatus) → is_passed s ≡ true → s ≡ passed
is_passed→eq passed h = refl
is_passed→eq s h = cc

bit-note_passed :
    (i seen : ℕ) (p : Proof) (k : ℕ)
    → bit (note_passed i seen p) k ≡ 1
    → (bit seen k ≡ 1) ⊎ ((i ≡ k) × (p.status ≡ passed))
unfolding note_passed
bit-note_passed i seen p k h = elim (bit-added (is_passed p.status) i seen k h) [
  | inl before ↦ inl before
  | inr (e, pass) ↦ inr (e, is_passed→eq p.status pass)
]

-- A prerequisite that was noted before the loop, or that the loop has seen pass.
abbrev Met : ℕ → ℕ → List Proof → ℕ → ℕ → Type 0
Met i seen out n j = (bit seen j ≡ 1) ⊎ ((m : ℕ) × (m < n) × (j ≡ i + m) × PassedAt out m)

-- The proof at `n` is the old one, current, and each of its criterion's prerequisites is met.
abbrev BackedFrom : Option Bytes → ℕ → ℕ → List Proof → List Proof → ℕ → Criterion → Proof → Type 0
BackedFrom snapshot i seen ps out n c p =
    (get_elem? ps n ≡ some p)
    × IsCurrent snapshot p
    × ((j : ℕ) → bit c.depends_on j ≡ 1 → Met i seen out n j)

Met-later :
    (i seen n : ℕ) (p : Proof) (out : List Proof) (j : ℕ)
    → Met (suc i) (note_passed i seen p) out n j
    → Met i seen (p ∷ out) (suc n) j
Met-later i seen n p out j (inr (m, below, e, q)) = inr (suc m, omega arith, omega arith, q)
Met-later i seen n p out j (inl h) = elim (bit-note_passed i seen p j h) [
  | inl before ↦ inl before
  | inr (e, pass) ↦ inr (0, omega arith, omega arith, (p, refl, pass))
]

refresh_loop-BackedFrom :
    (snapshot : Option Bytes) (i seen : ℕ) (cs : List Criterion) (ps : List Proof) (n : ℕ)
    {c : Criterion} {p : Proof}
    → get_elem? cs n ≡ some c
    → get_elem? (refresh_loop snapshot i seen cs ps) n ≡ some p
    → p.status ≡ passed
    → BackedFrom snapshot i seen ps (refresh_loop snapshot i seen cs ps) n c p
unfolding refresh_loop
refresh_loop-BackedFrom snapshot i seen [] ps n hc hp pass = cc
refresh_loop-BackedFrom snapshot i seen (c ∷ cs) [] n hc hp pass = cc
refresh_loop-BackedFrom snapshot i seen (c ∷ cs) (p ∷ ps) zero {p = q} hc hp pass =
    let reviewed : review snapshot seen c p ≡ q = some_eq hp in
    let (current, covered, same) = review-passed snapshot seen c p (rw reviewed pass) in
    let own : p ≡ q = sym same ∙ reviewed in
    (
      ap some own,
      subst (IsCurrent snapshot) own current,
      λ j need. inl (bit-covered c.depends_on seen j covered (rw (some_eq hc) need)),
    )
refresh_loop-BackedFrom snapshot i seen (c ∷ cs) (p ∷ ps) (suc n) hc hp pass =
    let p' = review snapshot seen c p in
    let out = refresh_loop snapshot (suc i) (note_passed i seen p') cs ps in
    let (old, current, met) =
      refresh_loop-BackedFrom snapshot (suc i) (note_passed i seen p') cs ps n hc hp pass in
    (old, current, λ j need. Met-later i seen n p' out j (met j need))

-- A proof that counts, for criterion `c` at position `n`.
abbrev pub Backed : Option Bytes → WorkState → ℕ → Criterion → Proof → Type 0
Backed snapshot w n c p =
    IsCurrent snapshot p × ((j : ℕ) → bit c.depends_on j ≡ 1 → (j < n) × PassedAt w.proofs j)

Met-start : (n j : ℕ) (out : List Proof) → Met 0 0 out n j → (j < n) × PassedAt out j
Met-start n j out (inl h) = absurd (omega (arith, bit_zero j))
Met-start n j out (inr (m, below, e, q)) =
    let same : m ≡ j = omega arith in (omega arith, subst (PassedAt out) same q)

-- After a review, a criterion counts as passed only on a proof that was there before, that was made
-- on the very files of the snapshot, and whose prerequisites are earlier criteria that have passed
-- in the same review.
pub refresh-Backed :
    (w : WorkState) (snapshot : Option Bytes) (n : ℕ) {c : Criterion} {p : Proof}
    → get_elem? w.definition.criteria n ≡ some c
    → get_elem? (refresh w snapshot).proofs n ≡ some p
    → p.status ≡ passed
    → (get_elem? w.proofs n ≡ some p) × Backed snapshot (refresh w snapshot) n c p
unfolding refresh
refresh-Backed w snapshot n hc hp pass =
    let (old, current, met) =
      refresh_loop-BackedFrom snapshot 0 0 w.definition.criteria w.proofs n hc hp pass in
    (old, (current, λ j need. Met-start n j _ (met j need)))
