-- ===== src/Examples/Detail.antt =====
-- Examples on the detail of an answer: src/detail.c.
use asterism_asngn.Common.{◌≡◌, ◌↔◌, refl, [], ◌∷◌, Bytes}
use asterism_asngn.Detail.{terse, rich, terse_cues, rich_cues, detail_cue}
use asterism_asngn.Detail.Cues.{Cued, detail_cue_iff}

-- "Say it BRIEFLY"
abbrev request : Bytes
request =
    b'S' ∷ b'a' ∷ b'y' ∷ b' ' ∷ b'i' ∷ b't' ∷ b' ' ∷ b'B' ∷ b'R' ∷ b'I' ∷ b'E' ∷ b'F' ∷ b'L' ∷ b'Y'
    ∷ []

is_terse : detail_cue request ≡ terse
unfolding detail_cue asterism_asngn.Detail.any_cue asterism_asngn.Detail.ci_strstr
    asterism_asngn.Detail.compare_at
is_terse = refl

detail_cue_iff_example :
    ((detail_cue request ≡ terse) ↔ Cued request terse_cues)
    × ((detail_cue request ≡ rich) ↔ (¬ (Cued request terse_cues) × Cued request rich_cues))
detail_cue_iff_example = detail_cue_iff request
