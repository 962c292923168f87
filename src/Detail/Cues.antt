-- ===== src/Detail/Cues.antt =====
-- Proofs on the cues of src/detail.c.
use asterism_asngn.Common.{
  suc, ◌<◌, ◌≤◌, All, length, length-append, pick, ◌≡◌, refl, sym, ◌∙◌, ap, ap₂, Bool, true, false,
  ◌↔◌, ◌⊎◌, inl, inr, List, [], ◌∷◌, ◌++◌, ◌==◌, ==_iff, if◌then◌else◌, pick_on, Bytes, arith,
}
use asterism_asngn.Detail.{
  terse, rich, auto, At, matches, differs, ended, to_lower, compare_at, ci_strstr, terse_cues,
  rich_cues, any_cue, detail_cue,
}

absurd_bool : {A : Type 0} → false ≡ true → A
absurd_bool e = cc

-- A text in lower case.
abbrev pub lowered : Bytes → Bytes
lowered [] = []
lowered (ch ∷ s) = to_lower ch ∷ lowered s

-- A cue stands in a message, whatever the case of its letters.
abbrev pub Occurs : Bytes → Bytes → Type 0
Occurs needle hay =
    (front : Bytes) × (back : Bytes) × (lowered hay ≡ front ++ (lowered needle ++ back))

At-cases : (a : At) → (a ≡ matches) ⊎ (a ≡ differs) ⊎ (a ≡ ended)
At-cases matches = inl refl
At-cases differs = inr (inl refl)
At-cases ended = inr (inr refl)

compare_at-matches :
    (needle hay : Bytes)
    → compare_at needle hay ≡ matches
    → (back : Bytes) × (lowered hay ≡ lowered needle ++ back)
unfolding compare_at
compare_at-matches [] hay e = (lowered hay, refl)
compare_at-matches (n ∷ needle) [] e = cc
compare_at-matches (n ∷ needle) (ch ∷ hay) e =
    pick_on
      (λ a.
        a ≡ matches
        → (back : Bytes) × (to_lower ch ∷ lowered hay ≡ to_lower n ∷ (lowered needle ++ back)))
      (to_lower ch == to_lower n) (compare_at needle hay) differs
      (λ same e.
        let (back, rest) = compare_at-matches needle hay e in
        (back, ap₂ ◌∷◌ ((==_iff _ _).0 same) rest))
      (λ other e. cc) e

-- Where the needle stands, the loop runs through it.
compare_at-here :
    (needle hay back : Bytes)
    → lowered hay ≡ lowered needle ++ back
    → compare_at needle hay ≡ matches
unfolding compare_at
compare_at-here [] hay back e = refl
compare_at-here (n ∷ needle) [] back e = cc
compare_at-here (n ∷ needle) (ch ∷ hay) back e =
    let first : to_lower ch ≡ to_lower n = cc in
    let rest : lowered hay ≡ lowered needle ++ back = cc in
    rw ((==_iff (to_lower ch) (to_lower n)).1 first) (compare_at-here needle hay back rest)

length-lowered : (s : Bytes) → length (lowered s) ≡ length s
length-lowered [] = refl
length-lowered (ch ∷ s) = ap suc (length-lowered s)

compare_at-ended : (needle hay : Bytes) → compare_at needle hay ≡ ended → length hay < length needle
unfolding compare_at
compare_at-ended [] hay e = cc
compare_at-ended (n ∷ needle) [] e = omega arith
compare_at-ended (n ∷ needle) (ch ∷ hay) e =
    pick_on (λ a. a ≡ ended → suc (length hay) < suc (length needle)) (to_lower ch == to_lower n)
      (compare_at needle hay) differs (λ same e. omega (arith, compare_at-ended needle hay e))
      (λ other e. cc) e

Occurs-length : (needle hay : Bytes) → Occurs needle hay → length needle ≤ length hay
Occurs-length needle hay (front, back, e) = omega (
  arith,
  length-lowered hay,
  length-lowered needle,
  ap length e,
  length-append front (lowered needle ++ back),
  length-append (lowered needle) back,
)

finds : (needle hay : Bytes) → ci_strstr hay needle ≡ true → Occurs needle hay
unfolding ci_strstr
finds needle [] e = cc
finds needle (ch ∷ hay) e = elim (At-cases (compare_at needle (ch ∷ hay))) [
  | inl here ↦ let (back, same) = compare_at-matches needle (ch ∷ hay) here in ([], back, same)
  | inr (inl skip) ↦
      let found : ci_strstr (ch ∷ hay) needle ≡ ci_strstr hay needle = rw (ci_strstr, skip) refl in
      let (front, back, same) = finds needle hay (sym found ∙ e) in
      (to_lower ch ∷ front, back, ap (◌∷◌ (to_lower ch)) same)
  | inr (inr stop) ↦
      let lost : ci_strstr (ch ∷ hay) needle ≡ false = rw (ci_strstr, stop) refl in
      absurd_bool (sym lost ∙ e)
]

found : (needle hay : Bytes) → 0 < length needle → Occurs needle hay → ci_strstr hay needle ≡ true
unfolding ci_strstr
found needle [] pos o = absurd (omega (arith, Occurs-length needle [] o))
found needle (ch ∷ hay) pos ([], back, e) =
    rw (ci_strstr, compare_at-here needle (ch ∷ hay) back e) refl
found needle (ch ∷ hay) pos (c ∷ front, back, e) =
    let rest : lowered hay ≡ front ++ (lowered needle ++ back) = cc in
    let later = found needle hay pos (front, back, rest) in
    elim (At-cases (compare_at needle (ch ∷ hay))) [
      | inl here ↦ rw (ci_strstr, here) refl
      | inr (inl skip) ↦
          let on : ci_strstr (ch ∷ hay) needle ≡ ci_strstr hay needle = rw (ci_strstr, skip) refl in
          on ∙ later
      | inr (inr stop) ↦ absurd (
          omega (
            arith,
            compare_at-ended needle (ch ∷ hay) stop,
            Occurs-length needle hay (front, back, rest),
          ))
    ]

-- One of the cues stands in a message.
pub data Cued (message : Bytes) : List Bytes → Type 0 where
  first : {cue : Bytes} {cues : List Bytes} → Occurs cue message → Cued message (cue ∷ cues)
  other : {cue : Bytes} {cues : List Bytes} → Cued message cues → Cued message (cue ∷ cues)

any_cue-Cued :
    (cues : List Bytes) (message : Bytes) → any_cue cues message ≡ true → Cued message cues
unfolding any_cue
any_cue-Cued [] message e = cc
any_cue-Cued (cue ∷ cues) message e =
    pick_on (λ b. b ≡ true → Cued message (cue ∷ cues)) (ci_strstr message cue) true
      (any_cue cues message) (λ here k. first (finds cue message here))
      (λ not_here k. other (any_cue-Cued cues message k)) e

Cued-any_cue :
    (cues : List Bytes) (message : Bytes)
    → All (λ cue. 0 < length cue) cues
    → Cued message cues
    → any_cue cues message ≡ true
unfolding any_cue
Cued-any_cue [] message h c = elim c [ ]
Cued-any_cue (cue ∷ cues) message (pos, h) (first o) = rw (found cue message pos o) refl
Cued-any_cue (cue ∷ cues) message (pos, h) (other c) =
    pick (λ b. b ≡ true) (ci_strstr message cue) true (any_cue cues message) refl
      (Cued-any_cue cues message h c)

-- A message asks for a terse answer just where one of the terse cues stands in it, in letters of any case,
-- and for a rich one just where none of these stands in it but one of the rich cues.
pub detail_cue_iff :
    (message : Bytes)
    → ((detail_cue message ≡ terse) ↔ Cued message terse_cues)
      × ((detail_cue message ≡ rich) ↔ (¬ (Cued message terse_cues) × Cued message rich_cues))
unfolding detail_cue
detail_cue_iff message =
    let from_terse = any_cue-Cued terse_cues message in
    let to_terse = Cued-any_cue terse_cues message (omega arith) in
    let from_rich = any_cue-Cued rich_cues message in
    let to_rich = Cued-any_cue rich_cues message (omega arith) in
    decided (any_cue terse_cues message) (any_cue rich_cues message) from_terse to_terse from_rich
      to_rich
  where
    decided :
        {T R : Type 0} (p q : Bool)
        → (p ≡ true → T)
        → (T → p ≡ true)
        → (q ≡ true → R)
        → (R → q ≡ true)
        → (((if p then terse else if q then rich else auto) ≡ terse) ↔ T)
          × (((if p then terse else if q then rich else auto) ≡ rich) ↔ (¬ T × R))
    decided true q a b c d =
        ((λ e. a refl, λ t. refl), (λ e. cc, λ (no_t, r). absurd (no_t (a refl))))
    decided false true a b c d =
        ((λ e. cc, λ t. absurd_bool (b t)), (λ e. (λ t. absurd_bool (b t), c refl), λ k. refl))
    decided false false a b c d =
        ((λ e. cc, λ t. absurd_bool (b t)), (λ e. cc, λ (no_t, r). absurd_bool (d r)))
