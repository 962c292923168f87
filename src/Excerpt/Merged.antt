-- ===== src/Excerpt/Merged.antt =====
-- Proofs on the merged spans of src/excerpt.c.
use asterism_asngn.Common.{
  ℕ, suc, ◌≤◌, arith, List, [], ◌∷◌, leb, leb→le, leb-false, ltb, if◌then◌else◌, pick, pick_on,
  Bytes, length, All,
}
use asterism_asngn.Excerpt.{
  diagnostics, Span, span, slots_of, width_of, select_loop, or_ends, insert_span, sort_spans,
  merge_loop, merge, shown,
}
use asterism_asngn.Excerpt.Windows.{Boundary, IsWindow}
use asterism_asngn.Excerpt.Kept.{select_loop-Bounded, or_ends-IsWindow}

-- Windows that follow one another from `low` on, with a byte between two of them at least.
abbrev pub Apart : Bytes → ℕ → List Span → Type 0
Apart text low [] = Unit
Apart text low (m ∷ ms) = (low ≤ m.start) × IsWindow text m × Apart text (suc m.end) ms

-- One of the spans holds all of `s`.
pub data Inside (s : Span) : List Span → Type 0 where
  held : {m : Span} {ms : List Span} → m.start ≤ s.start → s.end ≤ m.end → Inside s (m ∷ ms)
  further : {m : Span} {ms : List Span} → Inside s ms → Inside s (m ∷ ms)

abbrev StartsFrom : ℕ → List Span → Type 0
StartsFrom low [] = Unit
StartsFrom low (m ∷ ms) = (low ≤ m.start) × StartsFrom m.start ms

StartsFrom-lower :
    (low low' : ℕ) (ms : List Span) → low' ≤ low → StartsFrom low ms → StartsFrom low' ms
StartsFrom-lower low low' [] h k = tt
StartsFrom-lower low low' (m ∷ ms) h k = (omega (arith, k.0), k.1)

Apart-lower :
    (text : Bytes) (low low' : ℕ) (ms : List Span)
    → low' ≤ low
    → Apart text low ms
    → Apart text low' ms
Apart-lower text low low' [] h k = tt
Apart-lower text low low' (m ∷ ms) h k = (omega (arith, k.0), k.1, k.2)

insert_span-StartsFrom :
    (x : Span) (low : ℕ) (ys : List Span)
    → low ≤ x.start
    → StartsFrom low ys
    → StartsFrom low (insert_span x ys)
unfolding insert_span
insert_span-StartsFrom x low [] h k = (h, tt)
insert_span-StartsFrom x low (y ∷ ys) h k =
    pick_on (StartsFrom low) (leb x.start y.start) (x ∷ y ∷ ys) (y ∷ insert_span x ys)
      (λ first. (h, (leb→le x.start y.start first, k.1)))
      (λ behind.
        let order = leb-false x.start y.start behind in
        (k.0, insert_span-StartsFrom x y.start ys (omega (arith, order)) k.1))

sort_spans-StartsFrom : (ms : List Span) → StartsFrom 0 (sort_spans ms)
unfolding sort_spans
sort_spans-StartsFrom [] = tt
sort_spans-StartsFrom (m ∷ ms) =
    insert_span-StartsFrom m 0 (sort_spans ms) (omega arith) (sort_spans-StartsFrom ms)

insert_span-All :
    (P : Span → Type 0) (x : Span) (ys : List Span) → P x → All P ys → All P (insert_span x ys)
unfolding insert_span
insert_span-All P x [] hx h = (hx, tt)
insert_span-All P x (y ∷ ys) hx h =
    pick (All P) (leb x.start y.start) (x ∷ y ∷ ys) (y ∷ insert_span x ys) (hx, h)
      (h.0, insert_span-All P x ys hx h.1)

sort_spans-All : (P : Span → Type 0) (ms : List Span) → All P ms → All P (sort_spans ms)
unfolding sort_spans
sort_spans-All P [] h = tt
sort_spans-All P (m ∷ ms) h = insert_span-All P m (sort_spans ms) h.0 (sort_spans-All P ms h.1)

-- What holds of all spans behind the sort holds of all in front of it.
All-insert_span :
    (P : Span → Type 0) (x : Span) (ys : List Span) → All P (insert_span x ys) → P x × All P ys
unfolding insert_span
All-insert_span P x [] h = h
All-insert_span P x (y ∷ ys) h =
    pick_on (λ ms. All P ms → P x × (P y × All P ys)) (leb x.start y.start) (x ∷ y ∷ ys)
      (y ∷ insert_span x ys) (λ first k. k)
      (λ behind k. let (hx, rest) = All-insert_span P x ys k.1 in (hx, (k.0, rest))) h

All-sort_spans : (P : Span → Type 0) (ms : List Span) → All P (sort_spans ms) → All P ms
unfolding sort_spans
All-sort_spans P [] h = tt
All-sort_spans P (m ∷ ms) h =
    let (hm, rest) = All-insert_span P m (sort_spans ms) h in (hm, All-sort_spans P ms rest)

merge_loop-Apart :
    (text : Bytes) (last : Span) (ss : List Span)
    → IsWindow text last
    → All (IsWindow text) ss
    → Apart text last.start (merge_loop last ss)
unfolding merge_loop
merge_loop-Apart text last [] w h = (omega arith, w, tt)
merge_loop-Apart text last (s ∷ ss) w h =
    let end = if ltb last.end s.end then s.end else last.end in
    pick_on (Apart text last.start) (leb s.start last.end) _ (last ∷ merge_loop s ss)
      (λ near. merge_loop-Apart text (span last.start end diagnostics) ss (joined w h.0) h.1)
      (λ far. (
        omega arith,
        w,
        Apart-lower text s.start (suc last.end) (merge_loop s ss)
            (omega (arith, leb-false s.start last.end far)) (merge_loop-Apart text s ss h.0 h.1),
      ))
  where
    joined :
        IsWindow text last
        → IsWindow text s
        → IsWindow text
            (span last.start (if ltb last.end s.end then s.end else last.end) diagnostics)
    joined (a, b, c, d) (a', b', c', d') =
        pick_on
          (λ e. (last.start ≤ e) × (e ≤ length text) × Boundary text last.start × Boundary text e)
          (ltb last.end s.end) s.end last.end (λ more. (ground (arith, a), b', c, d'))
          (λ less. (a, b, c, d))

Inside-wider :
    (s t : Span) {ms : List Span} → t.start ≤ s.start → s.end ≤ t.end → Inside t ms → Inside s ms
Inside-wider s t h k (held a b) = held (omega arith) (omega arith)
Inside-wider s t h k (further i) = further (Inside-wider s t h k i)

All-map : {P Q : Span → Type 0} → ((x : Span) → P x → Q x) → (xs : List Span) → All P xs → All Q xs
All-map f [] h = tt
All-map f (x ∷ xs) h = (f x h.0, All-map f xs h.1)

-- The merge loses no part: the last merged span and all that follow it are held.
merge_loop-Inside :
    (last : Span) (ss : List Span)
    → StartsFrom last.start ss
    → Inside last (merge_loop last ss) × All (λ s. Inside s (merge_loop last ss)) ss
unfolding merge_loop
merge_loop-Inside last [] h = (held (omega arith) (omega arith), tt)
merge_loop-Inside last (s ∷ ss) h =
    let end = if ltb last.end s.end then s.end else last.end in
    let joined = span last.start end diagnostics in
    pick_on (λ ms. Inside last ms × (Inside s ms × All (λ x. Inside x ms) ss))
      (leb s.start last.end) _ (last ∷ merge_loop s ss)
      (λ near.
        let (whole, rest) =
          merge_loop-Inside joined ss (StartsFrom-lower s.start last.start ss h.0 h.1) in
        (
          Inside-wider last joined (omega arith) (ground arith) whole,
          (Inside-wider s joined h.0 (ground arith) whole, rest),
        ))
      (λ far.
        let (whole, rest) = merge_loop-Inside s ss h.1 in
        (held (omega arith) (omega arith), (further whole, All-map (λ x i. further i) ss rest)))

merge-Apart :
    (text : Bytes) (ms : List Span)
    → All (IsWindow text) ms
    → StartsFrom 0 ms
    → Apart text 0 (merge ms) × All (λ s. Inside s (merge ms)) ms
unfolding merge
merge-Apart text [] h k = (tt, tt)
merge-Apart text (m ∷ ms) h k = (
  Apart-lower text m.start 0 (merge_loop m ms) (omega arith) (merge_loop-Apart text m ms h.0 h.1),
  merge_loop-Inside m ms k.1,
)

-- The spans that are shown of an output lie in it, cut no character and are apart, and each window that
-- was selected lies inside one of them.
pub shown-Apart :
    (text : Bytes) (budget : ℕ)
    → Apart text 0 (shown text budget)
      × All
          (λ s. Inside s (shown text budget))
          (or_ends text budget
            (select_loop text (slots_of budget) (width_of budget) 0 text ([], 0)).0)
unfolding shown
shown-Apart text budget =
    let spans =
      or_ends text budget (select_loop text (slots_of budget) (width_of budget) 0 text ([], 0)).0 in
    let windows = or_ends-IsWindow text budget _ (select_loop-Bounded text budget).2 in
    let (apart, held_all) =
      merge-Apart text (sort_spans spans) (sort_spans-All (IsWindow text) spans windows)
        (sort_spans-StartsFrom spans) in
    (apart, All-sort_spans (λ s. Inside s (merge (sort_spans spans))) spans held_all)
