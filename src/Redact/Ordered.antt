-- ===== src/Redact/Ordered.antt =====
-- Proofs on the masks of src/redact.c: the two phases and the sort.
use asterism_asngn.Common.{
  ℕ, zero, suc, ◌+◌, ◌-◌, ◌≤◌, ◌<◌, ◌≡◌, refl, sym, ◌∙◌, ap, subst, arith, Bool, false, not, ◌&&◌,
  Option, none, some, List, [], ◌∷◌, ◌++◌, append-nil, leb, if_true, if_false, pick, pick_on, Bytes,
  length, length-drop, length-take, take, drop, Option-cases, inl, inr, le→leb,
}
use asterism_asngn.Redact.Patterns.{cls_entropy, run_length, match_structural}
use asterism_asngn.Redact.Fits.{
  Fits, Fits-some, run_length-first, match_structural-Fits, run_length-le,
}
use asterism_asngn.Redact.Scan.{
  Span, Hit, last_of, structural_loop, run_is_secret, entropy_mask, entropy_loop, scan_entropy,
  scan_gaps, masks_of, find_masks, insert_span, sort_spans,
}

-- The spans follow one another from `at` on, none beyond `stop`.
abbrev pub Ordered : ℕ → ℕ → List Span → Type 0
Ordered at stop [] = at ≤ stop
Ordered at stop (m ∷ ms) = (at ≤ m.start) × (m.start < m.end) × Ordered m.end stop ms

-- The same of consumed regions, each with its mask inside.
abbrev OrderedHits : ℕ → ℕ → List Hit → Type 0
OrderedHits at stop [] = at ≤ stop
OrderedHits at stop (h ∷ hs) =
    (at ≤ h.consumed.start)
    × (h.consumed.start ≤ h.mask.start)
    × (h.mask.start < h.mask.end)
    × (h.mask.end ≤ h.consumed.end)
    × OrderedHits h.consumed.end stop hs

OrderedHits-lower :
    (low at stop : ℕ) (hs : List Hit) → low ≤ at → OrderedHits at stop hs → OrderedHits low stop hs
OrderedHits-lower low at stop [] h o = omega arith
OrderedHits-lower low at stop (x ∷ hs) h o = (omega arith, o.1, o.2, o.3, o.4)

Ordered-lower :
    (low at stop : ℕ) (ms : List Span) → low ≤ at → Ordered at stop ms → Ordered low stop ms
Ordered-lower low at stop [] h o = omega arith
Ordered-lower low at stop (x ∷ ms) h o = (omega arith, o.1, o.2)

structural_loop-Ordered :
    (fuel : ℕ) (before : Option ℕ) (i stop : ℕ) (s : Bytes)
    → i + length s ≡ stop
    → OrderedHits i stop (structural_loop fuel before i s)
unfolding structural_loop
structural_loop-Ordered zero before i stop s e = omega arith
structural_loop-Ordered (suc fuel) before i stop [] e = omega arith
structural_loop-Ordered (suc fuel) before i stop (ch ∷ s) e =
    elim (Option-cases (match_structural before (ch ∷ s))) [
      | inl skip ↦
          rw (structural_loop, skip)
            (OrderedHits-lower i (suc i) stop _ (omega arith)
              (structural_loop-Ordered fuel (some ch) (suc i) stop s (omega arith)))
      | inr (m, found) ↦
          let (some_byte, inside, masked) =
            Fits-some (ch ∷ s) m
              (subst (Fits (ch ∷ s)) found (match_structural-Fits before (ch ∷ s))) in
          rw (structural_loop, found)
            (
              omega arith,
              omega arith,
              omega arith,
              omega arith,
              structural_loop-Ordered fuel (last_of m.total (ch ∷ s)) (i + m.total) stop
                  (drop m.total (ch ∷ s)) (omega (arith, length-drop m.total (ch ∷ s))),
            )
    ]

entropy_mask-Ordered :
    (is_random : Bool → Bytes → Bool) (i run stop : ℕ) (s : Bytes) (later : List Span)
    → 0 < run
    → Ordered (i + run) stop later
    → Ordered i stop (entropy_mask is_random i run s ++ later)
entropy_mask-Ordered is_random i run stop s later pos o =
    pick (λ (ms : List Span). Ordered i stop (ms ++ later))
      (leb 32 run && run_is_secret is_random (take run s)) _ [] (omega arith, omega arith, o)
      (Ordered-lower i (i + run) stop later (omega arith) o)

entropy_loop-Ordered :
    (is_random : Bool → Bytes → Bool) (fuel i stop : ℕ) (s : Bytes)
    → i + length s ≡ stop
    → Ordered i stop (entropy_loop is_random fuel i s)
unfolding entropy_loop
entropy_loop-Ordered is_random zero i stop s e = omega arith
entropy_loop-Ordered is_random (suc fuel) i stop [] e = omega arith
entropy_loop-Ordered is_random (suc fuel) i stop (ch ∷ s) e =
    let run = run_length cls_entropy (ch ∷ s) in
    pick_on (Ordered i stop) (not (cls_entropy ch)) _ _
      (λ other.
        Ordered-lower i (suc i) stop _ (omega arith)
          (entropy_loop-Ordered is_random fuel (suc i) stop s (omega arith)))
      (λ inside.
        entropy_mask-Ordered is_random i run stop (ch ∷ s) _
          (run_length-first cls_entropy ch s inside)
          (entropy_loop-Ordered is_random fuel (i + run) stop (drop run (ch ∷ s))
            (omega (arith, length-drop run (ch ∷ s), run_length-le cls_entropy (ch ∷ s)))))

scan_entropy-Ordered :
    (is_random : Bool → Bytes → Bool) (text : Bytes) (a b : ℕ)
    → a ≤ b
    → b ≤ length text
    → Ordered a b (scan_entropy is_random text a b)
unfolding scan_entropy
scan_entropy-Ordered is_random text a b h k =
    entropy_loop-Ordered is_random (b - a) a b (take (b - a) (drop a text))
      (omega (arith, length-take (b - a) (drop a text), length-drop a text))

pub Ordered-le : (at stop : ℕ) (ms : List Span) → Ordered at stop ms → at ≤ stop
Ordered-le at stop [] o = o
Ordered-le at stop (m ∷ ms) o = omega (arith, o.0, o.1, Ordered-le m.end stop ms o.2)

Ordered-append :
    (at mid stop : ℕ) (front back : List Span)
    → Ordered at mid front
    → Ordered mid stop back
    → Ordered at stop (front ++ back)
Ordered-append at mid stop [] back o k = Ordered-lower at mid stop back o k
Ordered-append at mid stop (m ∷ front) back o k =
    (o.0, o.1, Ordered-append m.end mid stop front back o.2 k)

insert_span-first :
    (x : Span) (at stop : ℕ) (ys : List Span)
    → x.start ≤ at
    → Ordered at stop ys
    → insert_span x ys ≡ x ∷ ys
unfolding insert_span
insert_span-first x at stop [] h o = refl
insert_span-first x at stop (y ∷ ys) h o = if_true _ _ (le→leb x.start y.start (omega (arith, o.0)))

insert_span-behind :
    (x : Span) (at stop : ℕ) (front ys : List Span)
    → stop ≤ x.start
    → Ordered at stop front
    → insert_span x (front ++ ys) ≡ front ++ insert_span x ys
unfolding insert_span
insert_span-behind x at stop [] ys h o = refl
insert_span-behind x at stop (y ∷ front) ys h o =
    let behind : leb x.start y.start ≡ false =
      ground (arith, o.1, Ordered-le y.end stop front o.2) in
    if_false _ _ behind ∙ ap (◌∷◌ y) (insert_span-behind x y.end stop front ys h o.2)

-- Spans that follow one another come out of the sort as they are, in front of what is above them.
sort_spans-append :
    (at mid stop : ℕ) (front ys : List Span)
    → Ordered at mid front
    → Ordered mid stop (sort_spans ys)
    → sort_spans (front ++ ys) ≡ front ++ sort_spans ys
unfolding sort_spans
sort_spans-append at mid stop [] ys o k = refl
sort_spans-append at mid stop (x ∷ front) ys o k =
    ap (insert_span x) (sort_spans-append x.end mid stop front ys o.2 k)
    ∙ insert_span-first x x.end stop (front ++ sort_spans ys) (omega (arith, o.1))
        (Ordered-append x.end mid stop front (sort_spans ys) o.2 k)

sort_spans-same : (at stop : ℕ) (ms : List Span) → Ordered at stop ms → sort_spans ms ≡ ms
unfolding sort_spans
sort_spans-same at stop ms o =
    ap sort_spans (sym (append-nil ms))
    ∙ sort_spans-append at stop stop ms [] o (omega arith)
    ∙ append-nil ms

-- Masks that lie above some spans are sorted in behind them.
sort_spans-masks :
    (at mid stop : ℕ) (hs : List Hit) (front ys : List Span)
    → OrderedHits mid stop hs
    → Ordered at mid front
    → Ordered mid stop (sort_spans ys)
    → sort_spans (masks_of hs ++ (front ++ ys)) ≡ front ++ sort_spans (masks_of hs ++ ys)
unfolding sort_spans
sort_spans-masks at mid stop [] front ys h o k = sort_spans-append at mid stop front ys o k
sort_spans-masks at mid stop (x ∷ hs) front ys h o k =
    let above = OrderedHits-lower mid x.consumed.end stop hs (omega (arith, h)) h.4 in
    ap (insert_span x.mask) (sort_spans-masks at mid stop hs front ys above o k)
    ∙ insert_span-behind x.mask at mid front (sort_spans (masks_of hs ++ ys))
        (omega (arith, h.0, h.1)) o

module _ (is_random : Bool → Bytes → Bool) (text : Bytes) where
  -- One pass from left to right: the masks of a gap, then that of the region behind it.
  unfoldable pub single_pass : ℕ → List Hit → List Span
  single_pass at [] = scan_entropy is_random text at (length text)
  single_pass at (h ∷ hs) =
      scan_entropy is_random text at h.consumed.start ++ h.mask ∷ single_pass h.consumed.end hs

  OrderedHits-le : (at : ℕ) (hs : List Hit) → OrderedHits at (length text) hs → at ≤ length text
  OrderedHits-le at [] o = o
  OrderedHits-le at (h ∷ hs) o =
      omega (arith, o.0, o.1, o.2, o.3, OrderedHits-le h.consumed.end hs o.4)

  gap-Ordered :
      (at : ℕ) (h : Hit) (hs : List Hit)
      → OrderedHits at (length text) (h ∷ hs)
      → Ordered at h.consumed.start (scan_entropy is_random text at h.consumed.start)
  gap-Ordered at h hs o =
      scan_entropy-Ordered is_random text at h.consumed.start o.0
        (omega (arith, o.1, o.2, o.3, OrderedHits-le h.consumed.end hs o.4))

  single_pass-Ordered :
      (at : ℕ) (hs : List Hit)
      → OrderedHits at (length text) hs
      → Ordered at (length text) (single_pass at hs)
  unfolding single_pass
  single_pass-Ordered at [] o = scan_entropy-Ordered is_random text at (length text) o (omega arith)
  single_pass-Ordered at (h ∷ hs) o =
      let later = single_pass-Ordered h.consumed.end hs o.4 in
      Ordered-append at h.consumed.start (length text) _ _ (gap-Ordered at h hs o)
        (o.1, o.2, Ordered-lower h.mask.end h.consumed.end (length text) _ o.3 later)

  scan_gaps-Ordered :
      (at : ℕ) (hs : List Hit)
      → OrderedHits at (length text) hs
      → Ordered at (length text) (scan_gaps is_random text at hs)
  unfolding scan_gaps
  scan_gaps-Ordered at [] o = scan_entropy-Ordered is_random text at (length text) o (omega arith)
  scan_gaps-Ordered at (h ∷ hs) o =
      Ordered-append at h.consumed.start (length text) _ _ (gap-Ordered at h hs o) (
        Ordered-lower h.consumed.start h.consumed.end (length text) _ (omega (arith, o.1, o.2, o.3))
          (scan_gaps-Ordered h.consumed.end hs o.4))

  -- The masks of both phases, sorted, are those of one pass.
  sort_spans-single_pass :
      (at : ℕ) (hs : List Hit)
      → OrderedHits at (length text) hs
      → sort_spans (masks_of hs ++ scan_gaps is_random text at hs) ≡ single_pass at hs
  unfolding scan_gaps sort_spans single_pass
  sort_spans-single_pass at [] o =
      sort_spans-same at (length text) _
        (scan_entropy-Ordered is_random text at (length text) o (omega arith))
  sort_spans-single_pass at (h ∷ hs) o =
      let front = scan_entropy is_random text at h.consumed.start in
      let back = scan_gaps is_random text h.consumed.end hs in
      let here = gap-Ordered at h hs o in
      let inside : h.consumed.start ≤ h.consumed.end = omega (arith, o.1, o.2, o.3) in
      let above = OrderedHits-lower h.consumed.start h.consumed.end (length text) hs inside o.4 in
      let behind = scan_gaps-Ordered h.consumed.end hs o.4 in
      let sorted : Ordered h.consumed.start (length text) (sort_spans back) =
        subst (Ordered h.consumed.start (length text))
          (sym (sort_spans-same h.consumed.end (length text) back behind))
          (Ordered-lower h.consumed.start h.consumed.end (length text) back inside behind) in
      let later = single_pass-Ordered h.consumed.end hs o.4 in
      ap (insert_span h.mask)
        (sort_spans-masks at h.consumed.start (length text) hs front back above here sorted)
      ∙ ap (λ ms. insert_span h.mask (front ++ ms)) (sort_spans-single_pass h.consumed.end hs o.4)
      ∙ insert_span-behind h.mask at h.consumed.start front (single_pass h.consumed.end hs) o.1 here
      ∙ ap (◌++◌ front) (
          insert_span-first h.mask h.consumed.end (length text) (single_pass h.consumed.end hs)
            (omega (arith, o.2, o.3)) later)

  -- The masks that the two phases find, put in order, are those of a single pass over the text, which
  -- masks each region that a pattern consumed and the random runs of the gaps in between: no two of them
  -- overlap, and all lie in the text.
  pub find_masks-Ordered :
      (sort_spans (find_masks is_random text)
        ≡ single_pass 0 (structural_loop (length text) none 0 text))
      × Ordered 0 (length text) (sort_spans (find_masks is_random text))
  unfolding find_masks
  find_masks-Ordered =
      let hits = structural_loop-Ordered (length text) none 0 (length text) text (omega arith) in
      let same = sort_spans-single_pass 0 (structural_loop (length text) none 0 text) hits in
      (same, subst (Ordered 0 (length text)) (sym same) (single_pass-Ordered 0 _ hits))
