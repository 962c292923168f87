-- ===== src/ToolCache/Evicted.antt =====
-- What an eviction takes: `tc_evict_lru` of src/toolcache.c.
use asterism_asngn.Common.{
  ℕ, suc, ◌+◌, ◌<◌, ◌≡◌, ◌⊎◌, refl, sym, ◌∙◌, ap, subst, List, [], ◌∷◌, ◌++◌, arith, if◌then◌else◌,
  if_true, if_false, ap₂, length, All, Bool-cases, inl, inr,
}
use asterism_asngn.Common.Int.{ltb_ℤ, ◌≤ℤ◌, ◌<ℤ◌, ltb_ℤ→lt, ltb_ℤ-false}
use asterism_asngn.ToolCache.{Entry, tc_remove_at, victim_loop, tc_evict_lru}

-- `es` is `front`, the entry `victim` and `back`.
abbrev pub SplitAt : ℕ → Entry → List Entry → Type 0
SplitAt n victim es =
    (front back : List Entry) × (length front ≡ n)
    × (es ≡ front ++ victim ∷ back)
    × (tc_remove_at n es ≡ front ++ back)

abbrev pub NotOlder : Entry → Entry → Type 0
NotOlder victim e = victim.last_used_ms ≤ℤ e.last_used_ms

split-cons :
    (e : Entry) (n : ℕ) (victim : Entry) (es : List Entry)
    → SplitAt n victim es
    → SplitAt (suc n) victim (e ∷ es)
unfolding tc_remove_at
split-cons e n victim es (front, back, size, whole, gone) =
    (e ∷ front, back, ap suc size, ap (λ rest. e ∷ rest) whole, ap (λ rest. e ∷ rest) gone)

-- The loop's victim `r`: the one it started with, or one of the list, and older than none.
abbrev Oldest : ℕ → ℕ → Entry → List Entry → ℕ → Type 0
Oldest i victim v es r =
    ((r ≡ victim) × All (NotOlder v) es)
    ⊎ ((n : ℕ) × (w : Entry) × (r ≡ i + n)
        × SplitAt n w es
        × (w.last_used_ms <ℤ v.last_used_ms)
        × All (NotOlder w) es)

here : (e : Entry) (es : List Entry) → SplitAt 0 e (e ∷ es)
unfolding tc_remove_at
here e es = ([], es, refl, refl, refl)

removed_first : (e : Entry) (es : List Entry) → tc_remove_at 0 (e ∷ es) ≡ es
unfolding tc_remove_at
removed_first e es = refl

Oldest-newer :
    (i victim : ℕ) (v e : Entry) (es : List Entry) (r : ℕ)
    → e.last_used_ms <ℤ v.last_used_ms
    → Oldest (suc i) i e es r
    → Oldest i victim v (e ∷ es) r
Oldest-newer i victim v e es r h (inl (same, all)) =
    inr (0, e, omega arith, here e es, h, (omega arith, all))
Oldest-newer i victim v e es r h (inr (n, w, at, split, below, all)) =
    inr (suc n, w, omega arith, split-cons e n w es split, omega arith, (omega arith, all))

Oldest-older :
    (i victim : ℕ) (v e : Entry) (es : List Entry) (r : ℕ)
    → NotOlder v e
    → Oldest (suc i) victim v es r
    → Oldest i victim v (e ∷ es) r
Oldest-older i victim v e es r h (inl (same, all)) = inl (same, (h, all))
Oldest-older i victim v e es r h (inr (n, w, at, split, below, all)) =
    inr (suc n, w, omega arith, split-cons e n w es split, below, (omega arith, all))

victim_loop-Oldest :
    (i victim : ℕ) (v : Entry) (es : List Entry)
    → Oldest i victim v es (victim_loop i victim v.last_used_ms es)
unfolding victim_loop
victim_loop-Oldest i victim v [] = inl (refl, tt)
victim_loop-Oldest i victim v (e ∷ es) = elim (Bool-cases (ltb_ℤ e.last_used_ms v.last_used_ms)) [
  | inl h ↦
      let step : victim_loop (suc i) (if ltb_ℤ e.last_used_ms v.last_used_ms then i else victim)
            (if ltb_ℤ e.last_used_ms v.last_used_ms then e.last_used_ms else v.last_used_ms) es
          ≡ victim_loop (suc i) i e.last_used_ms es =
        ap₂ (λ x y. victim_loop (suc i) x y es) (if_true i victim h)
          (if_true e.last_used_ms v.last_used_ms h) in
      subst (Oldest i victim v (e ∷ es)) (sym step) (
        Oldest-newer i victim v e es _ (ltb_ℤ→lt e.last_used_ms v.last_used_ms h)
          (victim_loop-Oldest (suc i) i e es))
  | inr h ↦
      let step : victim_loop (suc i) (if ltb_ℤ e.last_used_ms v.last_used_ms then i else victim)
            (if ltb_ℤ e.last_used_ms v.last_used_ms then e.last_used_ms else v.last_used_ms) es
          ≡ victim_loop (suc i) victim v.last_used_ms es =
        ap₂ (λ x y. victim_loop (suc i) x y es) (if_false i victim h)
          (if_false e.last_used_ms v.last_used_ms h) in
      subst (Oldest i victim v (e ∷ es)) (sym step) (
        Oldest-older i victim v e es _ (ltb_ℤ-false e.last_used_ms v.last_used_ms h)
          (victim_loop-Oldest (suc i) victim v es))
]

-- What was taken: one entry of the list, which was used no later than any other; the others stay, in
-- their order.
abbrev pub TakesOldest : List Entry → List Entry → Type 0
TakesOldest es rest =
    (front back : List Entry) × (victim : Entry) × (es ≡ front ++ victim ∷ back)
    × (rest ≡ front ++ back)
    × All (NotOlder victim) es

-- An eviction from a cache that is not empty takes exactly one entry, one that was used no later than
-- any other; all the others stay, in their order.
pub tc_evict_lru-TakesOldest : (es : List Entry) → 0 < length es → TakesOldest es (tc_evict_lru es)
unfolding tc_evict_lru
tc_evict_lru-TakesOldest [] h = absurd (omega arith)
tc_evict_lru-TakesOldest (e ∷ es) h = elim (victim_loop-Oldest 1 0 e es) [
  | inl (at, all) ↦ (
    [],
    es,
    e,
    refl,
    ap (λ n. tc_remove_at n (e ∷ es)) at ∙ removed_first e es,
    (omega arith, all),
  )
  | inr (n, w, at, split, below, all) ↦
      let (front, back, size, whole, gone) = split-cons e n w es split in
      let place : victim_loop 1 0 e.last_used_ms es ≡ suc n = omega arith in
      (front, back, w, whole, ap (λ k. tc_remove_at k (e ∷ es)) place ∙ gone, (omega arith, all))
]
