-- ===== src/Work/Retained.antt =====
-- Proofs on the evidence behind a new definition: src/work_api.c.
use Prim.Native.Nat.{bit_and, bit_or}
use asterism_asngn.Common.{
  ℕ, zero, suc, ◌+◌, ◌^◌, ◌<◌, ◌≡◌, ◌⊎◌, refl, sym, ◌∙◌, subst, ap, inl, inr, Bool, true, some,
  List, [], ◌∷◌, if◌then◌else◌, bytes_eq, bytes_eq→eq, get_elem?, map, arith, Bool-cases,
}
use asterism_asngn.Common.Maybe.{some_eq}
use asterism_asngn.Common.Bits.{bit, bit_zero, bit-added, bit-covered}
use asterism_asngn.Work.Contract.{Criterion, Definition, criterion_equal→eq}
use asterism_asngn.Work.Evidence.{Proof, WorkState, no_proof}
use asterism_asngn.Work.Store.{keeps, retain_loop, redefine}

-- Criterion `n` is the same in both lists, and so is its proof.
abbrev pub SameAt : List Criterion → List Criterion → List Proof → List Proof → ℕ → Type 0
SameAt cs old ps out n =
    ((c : Criterion) × (get_elem? cs n ≡ some c) × (get_elem? old n ≡ some c))
    × (get_elem? out n ≡ get_elem? ps n)

abbrev Met : ℕ → ℕ → List Criterion → List Criterion → List Proof → List Proof → ℕ → ℕ → Type 0
Met i kept cs old ps out n j =
    (bit kept j ≡ 1) ⊎ ((m : ℕ) × (m < n) × (j ≡ i + m) × SameAt cs old ps out m)

keeps-parts :
    (same : Bool) (kept : ℕ) (c o : Criterion)
    → keeps same kept c o ≡ true
    → (same ≡ true) × (c ≡ o) × (bit_and c.depends_on kept ≡ c.depends_on)
unfolding keeps
keeps-parts same kept c o h = ground (arith, criterion_equal→eq c o)

-- What the loop does with the proof at position `n`: it drops it, or keeps the old one.
abbrev Kept :
    Bool
    → ℕ
    → ℕ
    → List Criterion
    → List Criterion
    → List Proof
    → List Proof
    → ℕ
    → Criterion
    → Proof
    → Type 0
Kept same i kept cs old ps out n c p =
    (p ≡ no_proof)
    ⊎ ((same ≡ true)
        × (get_elem? old n ≡ some c)
        × (get_elem? ps n ≡ some p)
        × ((j : ℕ) → bit c.depends_on j ≡ 1 → Met i kept cs old ps out n j))

get_elem?-map_none :
    (cs : List Criterion) (n : ℕ) {p : Proof}
    → get_elem? (map (λ d. no_proof) cs) n ≡ some p
    → p ≡ no_proof
get_elem?-map_none [] n h = cc
get_elem?-map_none (c ∷ cs) zero h = sym (some_eq h)
get_elem?-map_none (c ∷ cs) (suc n) h = get_elem?-map_none cs n h

none_left :
    (c : Criterion) (cs : List Criterion) (n : ℕ) {p : Proof}
    → get_elem? (no_proof ∷ map (λ d. no_proof) cs) n ≡ some p
    → p ≡ no_proof
none_left c cs zero h = sym (some_eq h)
none_left c cs (suc n) h = get_elem?-map_none cs n h

module _ (same : Bool) (i kept : ℕ) (c o : Criterion) (p : Proof) where
  abbrev stays : Bool
  stays = keeps same kept c o

  abbrev mask : ℕ
  mask = if stays then bit_or kept (2 ^ i) else kept

  Met-later :
      (cs old : List Criterion) (ps out : List Proof) (n j : ℕ)
      → Met (suc i) mask cs old ps out n j
      → Met i kept (c ∷ cs) (o ∷ old) (p ∷ ps) ((if stays then p else no_proof) ∷ out) (suc n) j
  Met-later cs old ps out n j (inr (m, below, e, q)) = inr (suc m, omega arith, omega arith, q)
  Met-later cs old ps out n j (inl h) = elim (bit-added stays i kept j h) [
    | inl before ↦ inl before
    | inr (e, stay) ↦
        let (s, own, covered) = keeps-parts same kept c o stay in
        inr (0, omega arith, omega arith, ((c, refl, ap some (sym own)), rw stay))
  ]

  Kept-here :
      (cs old : List Criterion) (ps out : List Proof) {d : Criterion} {q : Proof}
      → c ≡ d
      → (if stays then p else no_proof) ≡ q
      → Kept same i kept (c ∷ cs) (o ∷ old) (p ∷ ps) out 0 d q
  Kept-here cs old ps out e h = elim (Bool-cases stays) [
    | inr gone ↦ inl (sym h ∙ rw gone)
    | inl stay ↦
        let (s, own, covered) = keeps-parts same kept c o stay in
        inr (
          s,
          ap some (sym own ∙ e),
          ap some (sym (rw stay) ∙ h),
          λ j need. inl (bit-covered c.depends_on kept j covered (rw e need)),
        )
  ]

retain_loop-Kept :
    (same : Bool) (i kept : ℕ) (cs old : List Criterion) (ps : List Proof) (n : ℕ) {c : Criterion}
    {p : Proof}
    → get_elem? cs n ≡ some c
    → get_elem? (retain_loop same i kept cs old ps) n ≡ some p
    → Kept same i kept cs old ps (retain_loop same i kept cs old ps) n c p
unfolding retain_loop
retain_loop-Kept same i kept [] old ps n hc hp = cc
retain_loop-Kept same i kept (c ∷ cs) [] ps n hc hp = inl (none_left c cs n hp)
retain_loop-Kept same i kept (c ∷ cs) (o ∷ old) [] n hc hp = inl (none_left c cs n hp)
retain_loop-Kept same i kept (c ∷ cs) (o ∷ old) (p ∷ ps) zero hc hp =
    Kept-here same i kept c o p cs old ps (retain_loop same i kept (c ∷ cs) (o ∷ old) (p ∷ ps))
      (some_eq hc) (some_eq hp)
retain_loop-Kept same i kept (c ∷ cs) (o ∷ old) (p ∷ ps) (suc n) hc hp =
    let later = mask same i kept c o p in
    let out = retain_loop same (suc i) later cs old ps in
    elim (retain_loop-Kept same (suc i) later cs old ps n hc hp) [
      | inl gone ↦ inl gone
      | inr (s, own, old_proof, met) ↦
          inr (
            s,
            own,
            old_proof,
            λ j need. Met-later same i kept c o p cs old ps out n j (met j need),
          )
    ]

Met-start :
    (cs old : List Criterion) (ps out : List Proof) (n j : ℕ)
    → Met 0 0 cs old ps out n j
    → (j < n) × SameAt cs old ps out j
Met-start cs old ps out n j (inl h) = absurd (omega (arith, bit_zero j))
Met-start cs old ps out n j (inr (m, below, e, q)) =
    let here : m ≡ j = omega arith in (omega arith, subst (SameAt cs old ps out) here q)

-- A new definition keeps a proof only where the constraints are the old ones, the criterion at that
-- position is the old one, and each criterion that it depends on stands earlier and has been kept
-- with its proof; every other proof starts anew. So a change of the constraints drops all proofs,
-- and a change of a criterion drops its own and those of its dependants.
pub redefine-Kept :
    (old : WorkState) (d : Definition) (n : ℕ) {c : Criterion} {p : Proof}
    → get_elem? d.criteria n ≡ some c
    → get_elem? (redefine old d).proofs n ≡ some p
    → (p ≡ no_proof)
      ⊎ ((d.constraints ≡ old.definition.constraints)
          × (get_elem? old.definition.criteria n ≡ some c)
          × (get_elem? old.proofs n ≡ some p)
          × ((j : ℕ)
              → bit c.depends_on j ≡ 1
              → (j < n)
                × SameAt d.criteria old.definition.criteria old.proofs (redefine old d).proofs j))
unfolding redefine
redefine-Kept old d n {c} {p} hc hp =
    elim (retain_loop-Kept (bytes_eq d.constraints old.definition.constraints) 0 0 d.criteria
      old.definition.criteria old.proofs n hc hp) [
        | inl gone ↦ inl gone
        | inr (s, own, old_proof, met) ↦ inr (
          bytes_eq→eq d.constraints old.definition.constraints s,
          own,
          old_proof,
          λ j need.
              Met-start d.criteria old.definition.criteria old.proofs (redefine old d).proofs n j
                (met j need),
        )
      ]
