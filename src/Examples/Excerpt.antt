-- ===== src/Examples/Excerpt.antt =====
-- Examples on the excerpts of src/excerpt.c.
use asterism_asngn.Common.{◌≤◌, ◌≡◌, refl, [], ◌∷◌, Bytes, All, some}
use asterism_asngn.Excerpt.{
  Span, span, build, diagnostics, markers, marker_at, count, slots_of, width_of, excerpt_spans,
  select_loop, or_ends, merge, shown,
}
use asterism_asngn.Excerpt.Windows.{IsWindow}
use asterism_asngn.Excerpt.Kept.{select_loop-Bounded}
use asterism_asngn.Excerpt.Merged.{Apart, Inside, shown-Apart}

-- "x\nFAILED: y"
abbrev output : Bytes
output = b'x' ∷ b'\n' ∷ b'F' ∷ b'A' ∷ b'I' ∷ b'L' ∷ b'E' ∷ b'D' ∷ b':' ∷ b' ' ∷ b'y' ∷ []

finds_failed : marker_at markers (b'F' ∷ b'A' ∷ b'I' ∷ b'L' ∷ b'E' ∷ b'D' ∷ b':' ∷ []) ≡ some build
unfolding marker_at
finds_failed = refl

merges :
    merge (span 0 5 build ∷ span 4 9 build ∷ span 11 12 build ∷ [])
    ≡ span 0 9 diagnostics ∷ span 11 12 build ∷ []
unfolding merge asterism_asngn.Excerpt.merge_loop
merges = refl

select_loop-Bounded_example :
    (count (select_loop output (slots_of 512) (width_of 512) 0 output ([], 0)).0 ≤ slots_of 512)
    × (slots_of 512 ≤ excerpt_spans)
    × All (IsWindow output) (select_loop output (slots_of 512) (width_of 512) 0 output ([], 0)).0
select_loop-Bounded_example = select_loop-Bounded output 512

shown-Apart_example :
    Apart output 0 (shown output 512)
    × All
        (λ s. Inside s (shown output 512))
        (or_ends output 512 (select_loop output (slots_of 512) (width_of 512) 0 output ([], 0)).0)
shown-Apart_example = shown-Apart output 512
