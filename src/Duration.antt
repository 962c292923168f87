-- ===== src/Duration.antt =====
-- ISO 8601 durations: `asngn_duration_parse` of src/time.c. Every number that it reads is natural, and
-- a failed parse is none.
use asterism_asngn.Common.{
  ℕ, zero, suc, ◌+◌, ◌-◌, ◌*◌, Bool, true, false, not, ◌&&◌, ◌||◌, Option, none, some, List, [],
  ◌∷◌, leb, ltb, within, ◌==◌, if◌then◌else◌, Bytes, length,
}
use asterism_asngn.Common.Maybe.{◌>>=◌}
pub mod Bounded

-- A number and the text behind it.
abbrev pub Scanned : Type 0
Scanned = Option (ℕ × Bytes)

-- What `dur_number` says where the digits end, behind `nd` of them.
unfoldable pub number_end : ℕ → ℕ → Bytes → Scanned
number_end nd v [] = if nd == 0 then none else some (v, [])
number_end nd v (ch ∷ s) =
    if nd == 0 then none else if ch == b'.' || ch == b',' then none else some (v, ch ∷ s)

unfoldable pub number_loop : ℕ → ℕ → Bytes → Scanned
unfolding number_end
number_loop nd v [] = number_end nd v []
number_loop nd v (ch ∷ s) =
    let later = number_loop (suc nd) (v * 10 + (ch - b'0')) s in
    if not (within b'0' b'9' ch)
    then number_end nd v (ch ∷ s)
    else if leb 12 nd
    then none
    else later

-- `dur_number`.
unfoldable pub dur_number : Bytes → Scanned
unfolding number_loop
dur_number s = number_loop 0 0 s

-- The unit behind a number: its seconds and the stage after it, from a stage before.
unfoldable pub time_unit : ℕ → ℕ → Option (ℕ × ℕ)
time_unit stage u =
    if u == b'H' && ltb stage 1
    then some (3600, 1)
    else if u == b'M' && ltb stage 2
    then some (60, 2)
    else if u == b'S' && ltb stage 3
    then some (1, 3)
    else none

-- The text behind the number `v`, with the stage and the sum that the next round starts with.
unfoldable pub time_round : ℕ → ℕ → ℕ × Bytes → Option (ℕ × ℕ × Bytes)
unfolding time_unit
time_round stage acc (v, []) = none
time_round stage acc (v, u ∷ s) =
    time_unit stage u >>= λ (seconds, next). some (next, acc + v * seconds, s)

-- The loop over the time part, on fuel: a round reads a digit and a unit.
unfoldable pub time_loop : ℕ → ℕ → ℕ → Bytes → Option ℕ
unfolding dur_number time_round
time_loop fuel stage acc [] = some acc
time_loop zero stage acc (ch ∷ s) = none
time_loop (suc fuel) stage acc (ch ∷ s) = dur_number (ch ∷ s) >>= λ read.
    time_round stage acc read >>= λ (next, sum, rest). time_loop fuel next sum rest

-- From the `T` on, which wants a part behind it.
unfoldable pub time_part : ℕ → Bytes → Option ℕ
unfolding time_loop
time_part acc [] = none
time_part acc (t ∷ []) = none
time_part acc (t ∷ ch ∷ s) = if t == b'T' then time_loop (length (ch ∷ s)) 0 acc (ch ∷ s) else none

-- Behind the first number: weeks stand alone, and days may have a time part behind them.
unfoldable pub week_part : ℕ → Bytes → Option ℕ
week_part v [] = some (v * 604800)
week_part v (ch ∷ s) = none

unfoldable pub day_part : ℕ → Bytes → Option ℕ
unfolding time_part
day_part acc [] = some acc
day_part acc (ch ∷ s) = time_part acc (ch ∷ s)

unfoldable pub date_part : ℕ × Bytes → Option ℕ
unfolding week_part day_part
date_part (v, []) = none
date_part (v, u ∷ s) =
    if u == b'W' then week_part v s else if u == b'D' then day_part (v * 86400) s else none

unfoldable pub after_p : Bytes → Option ℕ
unfolding date_part dur_number
after_p [] = none
after_p (ch ∷ s) =
    if ch == b'T' then time_part 0 (ch ∷ s) else (dur_number (ch ∷ s) >>= λ read. date_part read)

-- `asngn_duration_parse`.
unfoldable pub duration_parse : Bytes → Option ℕ
unfolding after_p
duration_parse [] = none
duration_parse (ch ∷ s) = if ch == b'P' then after_p s else none
