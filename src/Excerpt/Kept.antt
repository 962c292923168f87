-- ===== src/Excerpt/Kept.antt =====
-- Proofs on the selection of spans of src/excerpt.c.
use asterism_asngn.Common.{
  ℕ, suc, ◌+◌, ◌-◌, ◌/◌, ◌≤◌, ◌≡◌, arith, Option-cases, inl, inr, List, [], ◌∷◌, ◌++◌, ltb, ◌==◌,
  if◌then◌else◌, pick, pick_on, ==-false, ==_iff, Bytes, length, All, All-append,
}
use asterism_asngn.Excerpt.{
  Span, markers, marker_at, window, excerpt_spans, slots_of, width_of, count, is_covered,
  drop_second, keep_span, select_loop, or_ends,
}
use asterism_asngn.Excerpt.Windows.{IsWindow, window-IsWindow}

count-append : (xs ys : List Span) → count (xs ++ ys) ≡ count xs + count ys
count-append [] ys = omega arith
count-append (x ∷ xs) ys = omega (arith, count-append xs ys)

count-drop_second : (ms : List Span) → 2 ≤ count ms → count (drop_second ms) + 1 ≡ count ms
unfolding drop_second
count-drop_second [] h = absurd (omega arith)
count-drop_second (m ∷ []) h = absurd (omega arith)
count-drop_second (m ∷ n ∷ ms) h = omega arith

drop_second-All : (P : Span → Type 0) (ms : List Span) → All P ms → All P (drop_second ms)
unfolding drop_second
drop_second-All P [] h = h
drop_second-All P (m ∷ []) h = h
drop_second-All P (m ∷ n ∷ ms) h = (h.0, h.1.1)

-- What the loop keeps.
abbrev pub Keeps : Bytes → ℕ → List Span → Type 0
Keeps text slots spans = (count spans ≤ slots) × All (IsWindow text) spans

keep_span-Keeps :
    (text : Bytes) (slots : ℕ) (s : Span) (spans : List Span)
    → 2 ≤ slots
    → IsWindow text s
    → Keeps text slots spans
    → Keeps text slots (keep_span slots s spans)
unfolding keep_span
keep_span-Keeps text slots s spans two w (few, all_windows) =
    pick (Keeps text slots) (is_covered s spans) spans _ (few, all_windows)
      (pick_on (λ (ms : List Span). Keeps text slots (ms ++ s ∷ [])) (count spans == slots)
        (drop_second spans) spans
        (λ full. (
          omega (
            arith,
            count-append (drop_second spans) (s ∷ []),
            (==_iff _ _).0 full,
            count-drop_second spans (omega (arith, (==_iff (count spans) slots).0 full)),
          ),
          All-append _ (drop_second spans) (s ∷ [])
              (drop_second-All (IsWindow text) spans all_windows) (w, tt),
        ))
        (λ room. (
          omega (arith, count-append spans (s ∷ []), ==-false (count spans) slots room),
          All-append _ spans (s ∷ []) all_windows (w, tt),
        )))

pub select_loop-Keeps :
    (text : Bytes) (slots width at : ℕ) (s : Bytes) (kept : List Span × ℕ)
    → 2 ≤ slots
    → at + length s ≤ length text
    → Keeps text slots kept.0
    → Keeps text slots (select_loop text slots width at s kept).0
unfolding select_loop
select_loop-Keeps text slots width at [] kept two h k = k
select_loop-Keeps text slots width at (ch ∷ s) (spans, matches) two h k =
    elim (Option-cases (marker_at markers (ch ∷ s))) [
      | inl plain ↦
          rw (select_loop, plain)
            (select_loop-Keeps text slots width (suc at) s (spans, matches) two (omega arith) k)
      | inr (reason, marked) ↦
          let from = if ltb (width / 4) at then at - width / 4 else 0 in
          let inside : from ≤ length text = ground arith in
          let next =
            keep_span-Keeps text slots (window text from width reason) spans two
              (window-IsWindow text from width reason inside) k in
          rw (select_loop, marked)
            (select_loop-Keeps text slots width (suc at) s (_, suc matches) two (omega arith) next)
    ]

pub slots_of-le : (budget : ℕ) → (2 ≤ slots_of budget) × (slots_of budget ≤ excerpt_spans)
unfolding slots_of
slots_of-le budget = ground arith

-- The selection never writes past the array of eight spans, whatever the text: it keeps at most as many
-- as the budget has room for, all of them parts of the text that cut no character.
pub select_loop-Bounded :
    (text : Bytes) (budget : ℕ)
    → (let spans = (select_loop text (slots_of budget) (width_of budget) 0 text ([], 0)).0 in
        (count spans ≤ slots_of budget)
        × (slots_of budget ≤ excerpt_spans)
        × All (IsWindow text) spans)
select_loop-Bounded text budget =
    let (two, eight) = slots_of-le budget in
    let (few, windows) =
      select_loop-Keeps text (slots_of budget) (width_of budget) 0 text ([], 0) two (omega arith)
        (omega arith, tt) in
    (few, eight, windows)

-- The spans that the view starts from.
pub or_ends-IsWindow :
    (text : Bytes) (budget : ℕ) (spans : List Span)
    → All (IsWindow text) spans
    → All (IsWindow text) (or_ends text budget spans)
unfolding or_ends
or_ends-IsWindow text budget [] h =
    (window-IsWindow text 0 _ _ (omega arith), (window-IsWindow text _ _ _ (omega arith), tt))
or_ends-IsWindow text budget (m ∷ ms) h = h
