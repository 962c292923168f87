-- ===== src/Duration/Bounded.antt =====
-- Proofs on `asngn_duration_parse` of src/time.c: the size of its numbers, and its fuel.
use asterism_asngn.Common.{
  ℕ, zero, suc, ◌+◌, ◌-◌, ◌*◌, ◌^◌, ◌≤◌, ◌<◌, ◌≡◌, refl, ap, subst, Bool, true, not, ◌||◌, Option,
  none, some, [], ◌∷◌, arith, leb, within, ◌==◌, Bytes, length, pick, pick_on, leb→le,
}
use asterism_asngn.Common.Words.{all_below, all_below_sound}
use asterism_asngn.Common.Maybe.{some_eq, >>=-eq-some, >>=-eq->>=}
use asterism_asngn.Duration.{
  Scanned, number_end, number_loop, dur_number, time_unit, time_round, time_loop, time_part,
  week_part, day_part, date_part, after_p, duration_parse,
}

-- A number of at most twelve digits, and a shorter text.
abbrev Small : ℕ → Bytes → Scanned → Type 0
Small n s found =
    (v : ℕ) (rest : Bytes) → found ≡ some (v, rest) → (v < 10 ^ 12) × (length rest + n ≤ length s)

number_end-Small : (nd v : ℕ) (s : Bytes) → v < 10 ^ 12 → Small 0 s (number_end nd v s)
unfolding number_end
number_end-Small nd v [] h =
    pick (Small 0 []) (nd == 0) none (some (v, [])) (λ w rest e. cc)
      (λ w rest e. ground (arith, some_eq e))
number_end-Small nd v (ch ∷ s) h =
    pick (Small 0 (ch ∷ s)) (nd == 0) none _ (λ w rest e. cc)
      (pick (Small 0 (ch ∷ s)) (ch == b'.' || ch == b',') none (some (v, ch ∷ s)) (λ w rest e. cc)
        (λ w rest e. ground (arith, some_eq e)))

abbrev cap : ℕ → ℕ
cap zero = 1
cap (suc n) = cap n * 10

abbrev cap_fits : ℕ → Bool
cap_fits n = leb (cap n) (10 ^ 12)

cap_table : all_below 13 cap_fits ≡ true
unfolding all_below
cap_table = refl

cap-le : (nd : ℕ) → nd ≤ 12 → cap nd ≤ 10 ^ 12
cap-le nd h = leb→le (cap nd) (10 ^ 12) (all_below_sound 13 cap_fits nd (omega arith) cap_table)

number_loop-Small : (nd v : ℕ) (s : Bytes) → nd ≤ 12 → v < cap nd → Small 0 s (number_loop nd v s)
unfolding number_loop
number_loop-Small nd v [] h below = number_end-Small nd v [] (omega (arith, cap-le nd h))
number_loop-Small nd v (ch ∷ s) h below =
    let later = number_loop (suc nd) (v * 10 + (ch - b'0')) s in
    pick_on (Small 0 (ch ∷ s)) (not (within b'0' b'9' ch)) (number_end nd v (ch ∷ s)) _
      (λ no_digit. number_end-Small nd v (ch ∷ s) (omega (arith, cap-le nd h)))
      (λ digit.
        pick_on (Small 0 (ch ∷ s)) (leb 12 nd) none later (λ full w rest e. cc)
          (λ room w rest e.
            let place : nd < 12 = ground arith in
            let small : v * 10 + (ch - b'0') < cap nd * 10 = ground arith in
            let (bound, shorter) =
              number_loop-Small (suc nd) (v * 10 + (ch - b'0')) s (omega arith) small w rest e in
            (bound, omega arith)))

dur_number-Small : (s : Bytes) → Small 0 s (dur_number s)
unfolding dur_number
dur_number-Small s = number_loop-Small 0 0 s (omega arith) (omega arith)

-- What the parts still to come can add.
abbrev allowed : ℕ → ℕ
allowed zero = 3661 * 10 ^ 12
allowed (suc zero) = 61 * 10 ^ 12
allowed (suc (suc zero)) = 10 ^ 12
allowed (suc (suc (suc n))) = 0

time_unit-allowed :
    (stage u seconds next : ℕ)
    → time_unit stage u ≡ some (seconds, next)
    → seconds * 10 ^ 12 + allowed next ≤ allowed stage
unfolding time_unit
time_unit-allowed zero u seconds next h = ground arith
time_unit-allowed (suc zero) u seconds next h = ground arith
time_unit-allowed (suc (suc zero)) u seconds next h = ground arith
time_unit-allowed (suc (suc (suc n))) u seconds next h = ground arith

mul-le : (a b c : ℕ) → a ≤ b → a * c ≤ b * c
mul-le a b zero h = omega arith
mul-le a b (suc c) h = omega (arith, mul-le a b c h)

time_round-allowed :
    (stage acc : ℕ) (v : ℕ) (s : Bytes) {next sum : ℕ} {rest : Bytes}
    → v < 10 ^ 12
    → time_round stage acc (v, s) ≡ some (next, sum, rest)
    → (sum + allowed next ≤ acc + allowed stage) × (length rest < length s)
unfolding time_round
time_round-allowed stage acc v [] small h = cc
time_round-allowed stage acc v (u ∷ s) {next} {sum} {rest} small h =
    let ((seconds, after), e, k) = >>=-eq-some (time_unit stage u) _ h in
    let room = time_unit-allowed stage u seconds after e in
    let more : v * seconds ≤ 10 ^ 12 * seconds = mul-le v (10 ^ 12) seconds (omega arith) in
    let same_next : after ≡ next = ap (λ (r : ℕ × ℕ × Bytes). r.0) (some_eq k) in
    let same_sum : acc + v * seconds ≡ sum = ap (λ (r : ℕ × ℕ × Bytes). r.1) (some_eq k) in
    let same_rest : s ≡ rest = ap (λ (r : ℕ × ℕ × Bytes). r.2) (some_eq k) in
    let kept : sum + allowed after ≤ acc + allowed stage = omega arith in
    (
      subst (λ n. sum + allowed n ≤ acc + allowed stage) same_next kept,
      subst (λ r. length r < suc (length s)) same_rest (omega arith),
    )

time_loop-allowed :
    (fuel stage acc : ℕ) (s : Bytes) {v : ℕ}
    → time_loop fuel stage acc s ≡ some v
    → v ≤ acc + allowed stage
unfolding time_loop
time_loop-allowed fuel stage acc [] h = omega (arith, some_eq h)
time_loop-allowed zero stage acc (ch ∷ s) h = cc
time_loop-allowed (suc fuel) stage acc (ch ∷ s) h =
    let ((n, behind), e, k) = >>=-eq-some (dur_number (ch ∷ s)) _ h in
    let (small, shorter) = dur_number-Small (ch ∷ s) n behind e in
    let ((next, sum, rest), e', k') = >>=-eq-some (time_round stage acc (n, behind)) _ k in
    let (room, less) = time_round-allowed stage acc n behind small e' in
    omega (arith, time_loop-allowed fuel next sum rest k')

time_part-allowed :
    (acc : ℕ) (s : Bytes) {v : ℕ} → time_part acc s ≡ some v → v ≤ acc + 3661 * 10 ^ 12
unfolding time_part
time_part-allowed acc [] h = cc
time_part-allowed acc (t ∷ []) h = cc
time_part-allowed acc (t ∷ ch ∷ s) {v} h =
    pick_on (λ (r : Option ℕ). r ≡ some v → v ≤ acc + 3661 * 10 ^ 12) (t == b'T')
      (time_loop (length (ch ∷ s)) 0 acc (ch ∷ s)) none
      (λ here k. time_loop-allowed (length (ch ∷ s)) 0 acc (ch ∷ s) k) (λ other k. cc) h

date_part-lt : (n : ℕ) (s : Bytes) {v : ℕ} → n < 10 ^ 12 → date_part (n, s) ≡ some v → v < 2 ^ 63
unfolding date_part week_part day_part
date_part-lt n [] small h = cc
date_part-lt n (u ∷ []) {v} small h =
    pick_on (λ (r : Option ℕ). r ≡ some v → v < 2 ^ 63) (u == b'W') (some (n * 604800)) _
      (λ w k. omega (arith, some_eq k))
      (λ w.
        pick_on (λ (r : Option ℕ). r ≡ some v → v < 2 ^ 63) (u == b'D') (some (n * 86400)) none
          (λ d k. omega (arith, some_eq k)) (λ d k. cc))
      h
date_part-lt n (u ∷ ch ∷ s) {v} small h =
    pick_on (λ (r : Option ℕ). r ≡ some v → v < 2 ^ 63) (u == b'W') none _ (λ w k. cc)
      (λ w.
        pick_on (λ (r : Option ℕ). r ≡ some v → v < 2 ^ 63) (u == b'D')
          (time_part (n * 86400) (ch ∷ s)) none
          (λ d k. omega (arith, time_part-allowed (n * 86400) (ch ∷ s) k)) (λ d k. cc))
      h

after_p-lt : (s : Bytes) {v : ℕ} → after_p s ≡ some v → v < 2 ^ 63
unfolding after_p
after_p-lt [] h = cc
after_p-lt (ch ∷ s) {v} h =
    pick_on (λ (r : Option ℕ). r ≡ some v → v < 2 ^ 63) (ch == b'T') (time_part 0 (ch ∷ s)) _
      (λ here k. omega (arith, time_part-allowed 0 (ch ∷ s) k))
      (λ other k.
        let ((n, behind), e, found) = >>=-eq-some (dur_number (ch ∷ s)) _ k in
        date_part-lt n behind (dur_number-Small (ch ∷ s) n behind e).0 found)
      h

-- Every duration that is accepted is less than 2 ^ 63 seconds, so it fits an `int64_t`.
pub duration_parse-lt : (s : Bytes) {v : ℕ} → duration_parse s ≡ some v → v < 2 ^ 63
unfolding duration_parse
duration_parse-lt [] h = cc
duration_parse-lt (ch ∷ s) {v} h =
    pick_on (λ (r : Option ℕ). r ≡ some v → v < 2 ^ 63) (ch == b'P') (after_p s) none
      (λ here k. after_p-lt s k) (λ other k. cc) h

-- The sums that the parser forms, in a text that it may accept or refuse, with the stage that they are
-- at: of weeks alone, of days or nothing in front of the time part, and behind each round of its loop.
pub data Partial : ℕ → ℕ → Type 0 where
  weeks :
      (s : Bytes) (n : ℕ) (rest : Bytes) → dur_number s ≡ some (n, rest) → Partial 3 (n * 604800)
  days : (s : Bytes) (n : ℕ) (rest : Bytes) → dur_number s ≡ some (n, rest) → Partial 0 (n * 86400)
  nothing : Partial 0 0
  rounded :
      (stage sum : ℕ) (s : Bytes) (n : ℕ) (rest : Bytes) (next sum' : ℕ) (rest' : Bytes)
      → Partial stage sum
      → dur_number s ≡ some (n, rest)
      → time_round stage sum (n, rest) ≡ some (next, sum', rest')
      → Partial next sum'

-- With any two amounts of fuel from the length of the text on, the loop gives the same result.
time_loop-enough :
    (fuel fuel' stage acc : ℕ) (s : Bytes)
    → length s ≤ fuel
    → length s ≤ fuel'
    → time_loop fuel stage acc s ≡ time_loop fuel' stage acc s
unfolding time_loop
time_loop-enough fuel fuel' stage acc [] h k = refl
time_loop-enough zero fuel' stage acc (ch ∷ s) h k = absurd (omega arith)
time_loop-enough (suc fuel) zero stage acc (ch ∷ s) h k = absurd (omega arith)
time_loop-enough (suc fuel) (suc fuel') stage acc (ch ∷ s) h k =
    >>=-eq->>= (dur_number (ch ∷ s)) _ _ (λ (n, behind) e.
      >>=-eq->>= (time_round stage acc (n, behind)) _ _ (λ (next, sum, rest) e'.
        let (small, shorter) = dur_number-Small (ch ∷ s) n behind e in
        let (room, less) = time_round-allowed stage acc n behind small e' in
        time_loop-enough fuel fuel' next sum rest (omega arith) (omega arith)))
