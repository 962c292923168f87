-- ===== src/History/Fitted.antt =====
-- Proofs on the two passes of src/context_history.c against the token budget.
use asterism_asngn.Common.{
  ℕ, zero, suc, ◌+◌, ◌≤◌, ◌<◌, ◌≡◌, ◌⊎◌, inl, inr, refl, sym, ◌∙◌, ap, Bool, true, false, not, ◌&&◌,
  ◌||◌, some, List, [], ◌∷◌, arith, leb, ltb, if◌then◌else◌, Bytes, get_elem?, Bool-cases, length,
}
use asterism_asngn.Common.Int.{ℤ}
use asterism_asngn.Common.Maybe.{some_eq}
use asterism_asngn.History.{Turn, either, marked, cost, pinned_pass, recent_pass, choose}

or_true : (x y : Bool) → y ≡ true → (x || y) ≡ true
or_true x y h = ground arith

module _ (count_tokens : Bytes → ℤ) (budget : ℕ) where
  abbrev pub price : Turn → ℕ
  price t = cost count_tokens t

  abbrev pub prices : List Turn → ℕ
  prices [] = 0
  prices (t ∷ ts) = price t + prices ts

  pinned_pass-le :
      (used : ℕ) (ts : List Turn)
      → used ≤ budget
      → (used ≤ (pinned_pass count_tokens budget used ts).1)
        × ((pinned_pass count_tokens budget used ts).1 ≤ budget)
  unfolding pinned_pass
  pinned_pass-le used [] h = (omega arith, h)
  pinned_pass-le used (t ∷ ts) h = elim (Bool-cases (t.pinned && leb (used + price t) budget)) [
    | inl fits ↦ rw fits (
        let rest = pinned_pass-le (used + price t) ts (ground arith) in
        (omega (arith, rest.0), rest.1))
    | inr not_fits ↦ rw not_fits (pinned_pass-le used ts h)
  ]

  recent_pass-le :
      (used : ℕ) (ts : List Turn)
      → used ≤ budget
      → (used ≤ (recent_pass count_tokens budget used ts).1)
        × ((recent_pass count_tokens budget used ts).1 ≤ budget)
  unfolding recent_pass
  recent_pass-le used [] h = (omega arith, h)
  recent_pass-le used (t ∷ ts) h =
      let rest = recent_pass-le used ts h in
      let newer = (recent_pass count_tokens budget used ts).1 in
      let p = price t in ground (arith, rest.0, rest.1)

  pin_step :
      (pinned fits full : Bool) (t : Turn) (rest : List Turn) (used : ℕ) {total : ℕ}
      → prices rest + (if pinned && fits then used + price t else used) ≡ total
      → prices (if ((pinned && fits) || (not pinned && not full)) && pinned then t ∷ rest else rest)
          + used
        ≡ total
  pin_step true true full t rest used h = omega arith
  pin_step true false full t rest used h = h
  pin_step false fits true t rest used h = h
  pin_step false fits false t rest used h = h

  recent_step :
      (pinned fits full : Bool) (t : Turn) (rest : List Turn) (other newer : ℕ)
      → prices rest + other ≡ newer
      → prices (
            if ((pinned && fits) || (not pinned && not full)) && not pinned then t ∷ rest else rest)
          + other
        ≡ (if not pinned && not full then newer + price t else newer)
  recent_step true true full t rest other newer h = h
  recent_step true false full t rest other newer h = h
  recent_step false fits true t rest other newer h = h
  recent_step false fits false t rest other newer h = omega arith

  pinned_pass-prices :
      (used other : ℕ) (ts : List Turn)
      → prices (
            marked true ts (
              either
                (pinned_pass count_tokens budget used ts).0
                (recent_pass count_tokens budget other ts).0))
          + used
        ≡ (pinned_pass count_tokens budget used ts).1
  unfolding pinned_pass recent_pass either marked
  pinned_pass-prices used other [] = omega arith
  pinned_pass-prices used other (t ∷ ts) =
      let fits = leb (used + price t) budget in
      let newer = (recent_pass count_tokens budget other ts).1 in
      pin_step t.pinned fits (ltb budget (newer + price t)) t _ used
        (pinned_pass-prices (if t.pinned && fits then used + price t else used) other ts)

  recent_pass-prices :
      (used other : ℕ) (ts : List Turn)
      → prices (
            marked false ts (
              either
                (pinned_pass count_tokens budget used ts).0
                (recent_pass count_tokens budget other ts).0))
          + other
        ≡ (recent_pass count_tokens budget other ts).1
  unfolding pinned_pass recent_pass either marked
  recent_pass-prices used other [] = omega arith
  recent_pass-prices used other (t ∷ ts) =
      let fits = leb (used + price t) budget in
      let newer = (recent_pass count_tokens budget other ts).1 in
      recent_step t.pinned fits (ltb budget (newer + price t)) t _ other newer
        (recent_pass-prices (if t.pinned && fits then used + price t else used) other ts)

  next-le :
      (used : ℕ) (t : Turn)
      → used ≤ budget
      → (if t.pinned && leb (used + price t) budget then used + price t else used) ≤ budget
  next-le used t h = let p = price t in ground arith

  full_by :
      (used : ℕ) (t : Turn) (next total : ℕ)
      → leb (used + price t) budget ≡ false
      → next ≡ (if t.pinned && leb (used + price t) budget then used + price t else used)
      → next ≤ total
      → budget < total + price t
  full_by used t next total h is more = let p = price t in ground arith

  recent_by :
      (t : Turn) (newer : ℕ)
      → ltb budget (newer + price t) ≡ true
      → budget
        < (if not t.pinned && not (ltb budget (newer + price t)) then newer + price t else newer)
          + price t
  recent_by t newer h = let p = price t in ground arith

  full_here :
      (used : ℕ) (t : Turn) {u : Turn} (next total : ℕ)
      → used ≤ budget
      → t ≡ u
      → u.pinned ≡ true
      → next ≡ (if t.pinned && leb (used + price t) budget then used + price t else used)
      → next ≤ total
      → (some (t.pinned && leb (used + price t) budget) ≡ some true) ⊎ (budget < total + price u)
  full_here used t next total h e pin is more = elim (Bool-cases (leb (used + price t) budget)) [
    | inl fits ↦ inl (rw (fits, e, pin) refl)
    | inr not_fits ↦ inr (rw (← e) (full_by used t next total not_fits is more))
  ]

  recent_here :
      (t : Turn) {u : Turn} (newer : ℕ)
      → t ≡ u
      → u.pinned ≡ false
      → (some (not t.pinned && not (ltb budget (newer + price t))) ≡ some true)
        ⊎ (budget
            < (if not t.pinned && not (ltb budget (newer + price t))
                then newer + price t
                else newer)
              + price u)
  recent_here t newer e pin = elim (Bool-cases (ltb budget (newer + price t))) [
    | inl full ↦ inr (rw (← e) (recent_by t newer full))
    | inr fits ↦ inl (rw (fits, e, pin) refl)
  ]

  recent_later :
      (t : Turn) (newer n : ℕ) {A : Type 0}
      → A ⊎ (budget < newer + n)
      → A
        ⊎ (budget
            < (if not t.pinned && not (ltb budget (newer + price t))
                then newer + price t
                else newer)
              + n)
  recent_later t newer n (inl a) = inl a
  recent_later t newer n (inr h) = let p = price t in inr (ground arith)

  pinned_pass-full :
      (used : ℕ) (ts : List Turn) (i : ℕ) {t : Turn}
      → used ≤ budget
      → get_elem? ts i ≡ some t
      → t.pinned ≡ true
      → (get_elem? (pinned_pass count_tokens budget used ts).0 i ≡ some true)
        ⊎ (budget < (pinned_pass count_tokens budget used ts).1 + price t)
  unfolding pinned_pass
  pinned_pass-full used [] i h e pin = cc
  pinned_pass-full used (t ∷ ts) zero h e pin =
      let next = if t.pinned && leb (used + price t) budget then used + price t else used in
      full_here used t next _ h (some_eq e) pin refl (pinned_pass-le next ts (next-le used t h)).0
  pinned_pass-full used (t ∷ ts) (suc i) h e pin =
      pinned_pass-full (if t.pinned && leb (used + price t) budget then used + price t else used) ts
        i (next-le used t h) e pin

  recent_pass-full :
      (used : ℕ) (ts : List Turn) (i : ℕ) {t : Turn}
      → used ≤ budget
      → get_elem? ts i ≡ some t
      → t.pinned ≡ false
      → (get_elem? (recent_pass count_tokens budget used ts).0 i ≡ some true)
        ⊎ (budget < (recent_pass count_tokens budget used ts).1 + price t)
  unfolding recent_pass
  recent_pass-full used [] i h e pin = cc
  recent_pass-full used (t ∷ ts) zero h e pin =
      let newer = (recent_pass count_tokens budget used ts).1 in recent_here t newer (some_eq e) pin
  recent_pass-full used (t ∷ ts) (suc i) h e pin =
      recent_later t (recent_pass count_tokens budget used ts).1 _
        (recent_pass-full used ts i h e pin)

  length-pinned_pass :
      (used : ℕ) (ts : List Turn) → length (pinned_pass count_tokens budget used ts).0 ≡ length ts
  unfolding pinned_pass
  length-pinned_pass used [] = refl
  length-pinned_pass used (t ∷ ts) = ap suc (
      length-pinned_pass (if t.pinned && leb (used + price t) budget then used + price t else used)
        ts)

  length-recent_pass :
      (used : ℕ) (ts : List Turn) → length (recent_pass count_tokens budget used ts).0 ≡ length ts
  unfolding recent_pass
  length-recent_pass used [] = refl
  length-recent_pass used (t ∷ ts) = ap suc (length-recent_pass used ts)

  either-left :
      (xs ys : List Bool) (i : ℕ)
      → length xs ≡ length ys
      → get_elem? xs i ≡ some true
      → get_elem? (either xs ys) i ≡ some true
  unfolding either
  either-left [] ys i e h = cc
  either-left (x ∷ xs) [] i e h = absurd (omega arith)
  either-left (x ∷ xs) (y ∷ ys) zero e h = rw (some_eq h) refl
  either-left (x ∷ xs) (y ∷ ys) (suc i) e h = either-left xs ys i (omega arith) h

  either-right :
      (xs ys : List Bool) (i : ℕ)
      → length xs ≡ length ys
      → get_elem? ys i ≡ some true
      → get_elem? (either xs ys) i ≡ some true
  unfolding either
  either-right xs [] i e h = cc
  either-right [] (y ∷ ys) i e h = absurd (omega arith)
  either-right (x ∷ xs) (y ∷ ys) zero e h = ap some (or_true x y (some_eq h))
  either-right (x ∷ xs) (y ∷ ys) (suc i) e h = either-right xs ys i (omega arith) h

  -- The tokens counted are those of the turns that are quoted, pinned or recent, each once, and they
  -- are within the budget.
  pub choose-prices :
      (ts : List Turn)
      → ((choose count_tokens budget ts).1 ≤ budget)
        × (prices (marked true ts (choose count_tokens budget ts).0)
              + prices (marked false ts (choose count_tokens budget ts).0)
            ≡ (choose count_tokens budget ts).1)
  unfolding choose
  choose-prices ts =
      let used = (pinned_pass count_tokens budget 0 ts).1 in
      let pinned = pinned_pass-le 0 ts (omega arith) in
      let recent = recent_pass-le used ts pinned.1 in
      (recent.1, omega (arith, pinned_pass-prices 0 used ts, recent_pass-prices 0 used ts))

  -- No turn is left out that would still fit: a turn is quoted, or its tokens on top of those used
  -- exceed the budget.
  pub choose-IsMaximal :
      (ts : List Turn) (i : ℕ) {t : Turn}
      → get_elem? ts i ≡ some t
      → (get_elem? (choose count_tokens budget ts).0 i ≡ some true)
        ⊎ (budget < (choose count_tokens budget ts).1 + price t)
  unfolding choose
  choose-IsMaximal ts i {t} e =
      let pins = pinned_pass count_tokens budget 0 ts in
      let recent = recent_pass count_tokens budget pins.1 ts in
      let within = pinned_pass-le 0 ts (omega arith) in
      let more = recent_pass-le pins.1 ts within.1 in
      let same : length pins.0 ≡ length recent.0 =
        length-pinned_pass 0 ts ∙ sym (length-recent_pass pins.1 ts) in
      elim (Bool-cases t.pinned) [
        | inl pin ↦ elim (pinned_pass-full 0 ts i (omega arith) e pin) [
          | inl kept ↦ inl (either-left pins.0 recent.0 i same kept)
          | inr full ↦ inr (omega (arith, more.0))
        ]
        | inr free ↦ elim (recent_pass-full pins.1 ts i within.1 e free) [
          | inl kept ↦ inl (either-right pins.0 recent.0 i same kept)
          | inr full ↦ inr full
        ]
      ]
