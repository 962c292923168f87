-- ===== src/Redact/Covered.antt =====
-- Proofs on the first phase of src/redact.c.
use asterism_asngn.Common.{
  ℕ, zero, suc, ◌+◌, ◌-◌, ◌≤◌, ◌<◌, ◌≡◌, refl, sym, ◌∙◌, ap, ap₂, subst, arith, Option, none, some,
  List, [], ◌∷◌, ltb, Bytes, length, length-drop, drop, get_or, get_or-drop, drop-drop,
  Option-cases, Bool-cases, inl, inr, ltb→lt,
}
use asterism_asngn.Redact.Patterns.{Match, match_structural}
use asterism_asngn.Redact.Fits.{Fits, Fits-some, match_structural-Fits}
use asterism_asngn.Redact.Scan.{Hit, last_of, structural_loop}

-- A position inside one of the consumed regions.
pub data Covered (i : ℕ) : List Hit → Type 0 where
  here : {h : Hit} {hs : List Hit} → h.consumed.start ≤ i → i < h.consumed.end → Covered i (h ∷ hs)
  later : {h : Hit} {hs : List Hit} → Covered i hs → Covered i (h ∷ hs)

-- The character in front of position `k` of a text that `before` stands in front of.
abbrev before_at : Option ℕ → ℕ → Bytes → Option ℕ
before_at before zero s = before
before_at before (suc n) s = some (get_or s n 0)

before_at-next :
    (before : Option ℕ) (ch k : ℕ) (s : Bytes)
    → before_at before (suc k) (ch ∷ s) ≡ before_at (some ch) k s
before_at-next before ch zero s = refl
before_at-next before ch (suc k) s = refl

before_at-drop :
    (before : Option ℕ) (n k : ℕ) (s : Bytes)
    → 0 < n
    → before_at before (n + k) s ≡ before_at (last_of n s) k (drop n s)
before_at-drop before zero k s pos = absurd (omega arith)
before_at-drop before (suc n) zero s pos =
    let moved : suc n + 0 ≡ suc n = omega arith in ap (λ j. before_at before j s) moved
before_at-drop before (suc n) (suc k) s pos =
    let moved : suc n + suc k ≡ suc (suc n + k) = omega arith in
    ap (λ j. before_at before j s) moved ∙ ap some (sym (get_or-drop (suc n) k s 0))

loop_covers :
    (fuel : ℕ) (before : Option ℕ) (i k : ℕ) (s : Bytes) (m : Match)
    → length s ≤ fuel
    → k < length s
    → match_structural (before_at before k s) (drop k s) ≡ some m
    → Covered (i + k) (structural_loop fuel before i s)
unfolding structural_loop
loop_covers fuel before i k [] m room inside e = absurd (omega arith)
loop_covers zero before i k (ch ∷ s) m room inside e = absurd (omega arith)
loop_covers (suc fuel) before i k (ch ∷ s) m room inside e =
    elim (Option-cases (match_structural before (ch ∷ s))) [
      | inl skip ↦
          rw (structural_loop, skip)
            (skipped k inside e skip
              (λ k'. loop_covers fuel (some ch) (suc i) k' s m (omega arith)))
      | inr (found, e') ↦
          let text = ch ∷ s in
          let t = found.total in
          let (some_byte, ends, masked) =
            Fits-some text found (subst (Fits text) e' (match_structural-Fits before text)) in
          rw (structural_loop, e')
            (elim (Bool-cases (ltb k t)) [
              | inl reached ↦ here (omega arith) (omega (arith, ltb→lt k t reached))
              | inr behind ↦
                  let split : k ≡ t + (k - t) = ground arith in
                  let moved =
                    subst (λ j. match_structural (before_at before j text) (drop j text) ≡ some m)
                      split e in
                  let same : match_structural (before_at (last_of t text) (k - t) (drop t text))
                        (drop (k - t) (drop t text))
                      ≡ some m =
                    ap₂ match_structural (sym (before_at-drop before t (k - t) text (omega arith)))
                      (drop-drop t (k - t) text)
                    ∙ moved in
                  later (
                    subst
                      (λ j. Covered j (structural_loop fuel (last_of t text) (i + t) (drop t text)))
                      (omega (arith, split))
                      (loop_covers fuel (last_of t text) (i + t) (k - t) (drop t text) m
                        (omega (arith, length-drop t text))
                        (omega (arith, length-drop t text, split)) same))
            ])
    ]
  where
    skipped :
        (k : ℕ)
        → k < suc (length s)
        → match_structural (before_at before k (ch ∷ s)) (drop k (ch ∷ s)) ≡ some m
        → match_structural before (ch ∷ s) ≡ none
        → ((k' : ℕ)
            → k' < length s
            → match_structural (before_at (some ch) k' s) (drop k' s) ≡ some m
            → Covered (suc i + k') (structural_loop fuel (some ch) (suc i) s))
        → Covered (i + k) (structural_loop fuel (some ch) (suc i) s)
    skipped zero h e skip again = cc
    skipped (suc k) h e skip again =
        subst (λ j. Covered j (structural_loop fuel (some ch) (suc i) s)) (omega arith)
          (again k (omega arith)
            (ap (λ b. match_structural b (drop k s)) (sym (before_at-next before ch k s)) ∙ e))

-- Wherever a structural pattern matches in the text, the position lies in a region that the first phase
-- consumes: no match is stepped over, whatever longer ones overlap it.
pub structural_loop-Covered :
    (text : Bytes) (i : ℕ) (m : Match)
    → i < length text
    → match_structural (last_of i text) (drop i text) ≡ some m
    → Covered i (structural_loop (length text) none 0 text)
structural_loop-Covered text i m inside e =
    subst (λ j. Covered j (structural_loop (length text) none 0 text)) (omega arith)
      (loop_covers (length text) none 0 i text m (omega arith) inside
        (ap (λ b. match_structural b (drop i text)) (first i) ∙ e))
  where
    first : (i : ℕ) → before_at none i text ≡ last_of i text
    first zero = refl
    first (suc i) = refl
