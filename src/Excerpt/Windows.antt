-- ===== src/Excerpt/Windows.antt =====
-- Proofs on `window` of src/excerpt.c.
use asterism_asngn.Common.{
  ℕ, zero, suc, ◌+◌, ◌-◌, ◌≤◌, ◌≡◌, refl, sym, ◌∙◌, ap, subst, arith, Bool, true, false, ◌&&◌, ◌⊎◌,
  inl, inr, [], ◌∷◌, ltb, if◌then◌else◌, pick_on, Bytes, length, length-drop, drop, get_or,
  get_or-drop, drop-drop, and_left, ltb→lt,
}
use asterism_asngn.Text.Utf8.{is_cont}
use asterism_asngn.Excerpt.{Reason, Span, skip_cont, back_off, window}

-- No character goes across a position: it is the end of the text, or no continuation byte stands there.
abbrev pub Boundary : Bytes → ℕ → Type 0
Boundary text i = (length text ≤ i) ⊎ (is_cont (get_or text i 0) ≡ false)

abbrev pub IsWindow : Bytes → Span → Type 0
IsWindow text m =
    (m.start ≤ m.end) × (m.end ≤ length text) × Boundary text m.start × Boundary text m.end

skip_cont-Boundary :
    (text : Bytes) (i : ℕ) (s : Bytes)
    → drop i text ≡ s
    → i + length s ≡ length text
    → (skip_cont i s ≤ length text) × Boundary text (skip_cont i s)
unfolding skip_cont
skip_cont-Boundary text i [] e size = (omega arith, inl (omega arith))
skip_cont-Boundary text i (ch ∷ s) e size =
    let here_on : i ≡ i + 0 = omega arith in
    let here : get_or text i 0 ≡ ch =
      ap (λ j. get_or text j 0) here_on ∙ sym (get_or-drop i 0 text 0) ∙ ap (λ s. get_or s 0 0) e in
    let one_on : suc i ≡ i + 1 = omega arith in
    let rest : drop (suc i) text ≡ s =
      ap (λ j. drop j text) one_on ∙ sym (drop-drop i 1 text) ∙ ap (drop 1) e in
    pick_on (λ r. (r ≤ length text) × Boundary text r) (is_cont ch) (skip_cont (suc i) s) i
      (λ inside. skip_cont-Boundary text (suc i) s rest (omega arith))
      (λ first. (omega arith, inr (ap is_cont here ∙ first)))

back_off-Boundary :
    (text : Bytes) (start e : ℕ)
    → Boundary text start
    → start ≤ e
    → e ≤ length text
    → (start ≤ back_off text start e)
      × (back_off text start e ≤ length text)
      × Boundary text (back_off text start e)
unfolding back_off
back_off-Boundary text start zero b h k =
    (omega arith, omega arith, subst (Boundary text) (omega arith) b)
back_off-Boundary text start (suc e) b h k =
    let more = ltb start (suc e) && ltb (suc e) (length text) in
    pick_on (λ r. (start ≤ r) × (r ≤ length text) × Boundary text r)
      (more && is_cont (get_or text (suc e) 0)) _ (suc e)
      (λ go. back_off-Boundary text start e b (start_first go) (omega arith))
      (λ stop. (
        h,
        k,
        ends (ltb start (suc e)) (ltb (suc e) (length text)) (is_cont (get_or text (suc e) 0)) refl
            refl refl stop,
      ))
  where
    start_first :
        ((ltb start (suc e) && ltb (suc e) (length text)) && is_cont (get_or text (suc e) 0)) ≡ true
        → start ≤ e
    start_first go =
        let first = and_left (ltb start (suc e)) (ltb (suc e) (length text)) (and_left _ _ go) in
        omega (arith, ltb→lt start (suc e) first)

    ends :
        (p q r : Bool)
        → ltb start (suc e) ≡ p
        → ltb (suc e) (length text) ≡ q
        → is_cont (get_or text (suc e) 0) ≡ r
        → ((p && q) && r) ≡ false
        → Boundary text (suc e)
    ends false q r ep eq er stop = subst (Boundary text) (ground arith) b
    ends true false r ep eq er stop = inl (ground arith)
    ends true true false ep eq er stop = inr er
    ends true true true ep eq er stop = cc

-- A window from a position of the text is a part of it that cuts no character.
pub window-IsWindow :
    (text : Bytes) (at width : ℕ) (reason : Reason)
    → at ≤ length text
    → IsWindow text (window text at width reason)
unfolding window
window-IsWindow text at width reason h =
    let start = skip_cont at (drop at text) in
    let (inside, first) =
      skip_cont-Boundary text at (drop at text) refl (omega (arith, length-drop at text)) in
    let end = if ltb width (length text - start) then start + width else length text in
    let (low, high) : (start ≤ end) × (end ≤ length text) = ground arith in
    let (after, ends, last) = back_off-Boundary text start end first low high in
    (after, ends, first, last)
