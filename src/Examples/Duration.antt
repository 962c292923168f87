-- ===== src/Examples/Duration.antt =====
-- Durations: src/time.c.
use asterism_asngn.Common.{◌<◌, ◌^◌, refl, [], ◌∷◌}
use asterism_asngn.Duration.{duration_parse}
use asterism_asngn.Duration.Bounded.{duration_parse-lt}

-- "P1DT2H", 93600 seconds.
duration_parse-lt_example : 93600 < 2 ^ 63
unfolding duration_parse
duration_parse-lt_example =
    duration_parse-lt (b'P' ∷ b'1' ∷ b'D' ∷ b'T' ∷ b'2' ∷ b'H' ∷ []) {v = 93600} refl
