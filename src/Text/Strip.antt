-- ===== src/Text/Strip.antt =====
-- src/util.c, `asngn_strip_controls`: the loop that compacts a buffer in place.
use asterism_asngn.Common.{
  ℕ, zero, suc, ◌+◌, ◌≤◌, ◌<◌, ◌≡◌, refl, ◌∙◌, ap, Bool, true, false, not, ◌&&◌, ◌||◌, [], ◌∷◌,
  ◌++◌, arith, ltb, ◌==◌, if◌then◌else◌, Bytes, length, get_or, set, take, drop, keep, length-set,
  keep-append, Bool-cases, inl, inr, append-nil, sym, subst,
}

-- `(ch < 0x20 && ch != '\n' && ch != '\t') || ch == 0x7F`.
unfoldable pub is_control : ℕ → Bool
is_control ch = (ltb ch 0x20 && not (ch == b'\n') && not (ch == b'\t')) || ch == 0x7F

-- One round at read index `r`, write index `w`: `if (w != r) s[w] = s[r]; w++`.
unfoldable pub strip_step : ℕ → Bytes × ℕ → Bytes × ℕ
strip_step r (s, w) =
    if is_control (get_or s r 0)
    then (s, w)
    else if not (w == r)
    then (set s w (get_or s r 0), suc w)
    else (s, suc w)

-- The loop, with `n` rounds left and `r` the read index.
unfoldable pub strip_loop : ℕ → ℕ → Bytes × ℕ → Bytes × ℕ
unfolding strip_step
strip_loop zero r state = state
strip_loop (suc n) r state = strip_loop n (suc r) (strip_step r state)

-- `if (w < len) s[w] = '\0'`.
unfoldable pub terminate : ℕ → Bytes × ℕ → Bytes × ℕ
terminate len (s, w) = (if ltb w len then set s w 0 else s, w)

-- The buffer and the new length.
unfoldable pub strip_controls : Bytes → ℕ → Bytes × ℕ
unfolding strip_loop terminate
strip_controls s len = terminate len (strip_loop len 0 (s, 0))

abbrev pub clean : Bytes → Bytes
clean = keep (λ ch. not (is_control ch))

take-set_end : (s : Bytes) (w v : ℕ) → w < length s → take (suc w) (set s w v) ≡ take w s ++ v ∷ []
take-set_end [] w v h = absurd (omega arith)
take-set_end (x ∷ s) zero v h = refl
take-set_end (x ∷ s) (suc w) v h = ap (◌∷◌ x) (take-set_end s w v (omega arith))

take-set_same : (s : Bytes) (w v : ℕ) → take w (set s w v) ≡ take w s
take-set_same [] w v = refl
take-set_same (x ∷ s) zero v = refl
take-set_same (x ∷ s) (suc w) v = ap (◌∷◌ x) (take-set_same s w v)

drop-set_above : (s : Bytes) (w v r : ℕ) → w < r → drop r (set s w v) ≡ drop r s
drop-set_above s w v zero h = absurd (omega arith)
drop-set_above [] w v (suc r) h = refl
drop-set_above (x ∷ s) zero v (suc r) h = refl
drop-set_above (x ∷ s) (suc w) v (suc r) h = drop-set_above s w v r (omega arith)

drop-get_or : (s : Bytes) (r : ℕ) → r < length s → drop r s ≡ get_or s r 0 ∷ drop (suc r) s
drop-get_or [] r h = absurd (omega arith)
drop-get_or (x ∷ s) zero h = refl
drop-get_or (x ∷ s) (suc r) h = drop-get_or s r (omega arith)

take-suc : (s : Bytes) (r : ℕ) → r < length s → take (suc r) s ≡ take r s ++ get_or s r 0 ∷ []
take-suc [] r h = absurd (omega arith)
take-suc (x ∷ s) zero h = refl
take-suc (x ∷ s) (suc r) h = ap (◌∷◌ x) (take-suc s r (omega arith))

drop_head :
    (s t : Bytes) (r : ℕ)
    → length s ≡ length t
    → r < length t
    → drop r s ≡ drop r t
    → (get_or s r 0 ≡ get_or t r 0) × (drop (suc r) s ≡ drop (suc r) t)
drop_head s t r n h e =
    let heads : get_or s r 0 ∷ drop (suc r) s ≡ get_or t r 0 ∷ drop (suc r) t =
      sym (drop-get_or s r (omega arith)) ∙ e ∙ drop-get_or t r h in
    (cc, cc)

clean-suc :
    (t : Bytes) (r : ℕ)
    → r < length t
    → clean (take (suc r) t)
      ≡ clean (take r t) ++ (if is_control (get_or t r 0) then [] else get_or t r 0 ∷ [])
clean-suc t r h =
    ap clean (take-suc t r h)
    ∙ keep-append (λ ch. not (is_control ch)) (take r t) (get_or t r 0 ∷ [])
    ∙ ap (◌++◌ (clean (take r t))) (ground arith)

-- After `r` bytes of the text `t` have been read.
record Compacted (t : Bytes) (r : ℕ) (state : Bytes × ℕ) : Type 0 where
  size : length state.0 ≡ length t
  behind : state.1 ≤ r
  written : take state.1 state.0 ≡ clean (take r t)
  unread : drop r state.0 ≡ drop r t

module _ (t : Bytes) (r : ℕ) (s : Bytes) (w : ℕ) (h : r < length t) (c : Compacted t r (s, w)) where
  same_byte : get_or s r 0 ≡ get_or t r 0
  same_byte = (drop_head s t r c.size h c.unread).0

  rest_unread : drop (suc r) s ≡ drop (suc r) t
  rest_unread = (drop_head s t r c.size h c.unread).1

  skip_control : is_control (get_or s r 0) ≡ true → Compacted t (suc r) (s, w)
  skip_control k = record {
    size = c.size;
    behind = omega (arith, c.behind);
    written =
        c.written ∙ sym (clean-suc t r h ∙ rw (← same_byte, k) (append-nil (clean (take r t))));
    unread = rest_unread;
  }

  clean_next :
      is_control (get_or s r 0) ≡ false → take w s ++ get_or s r 0 ∷ [] ≡ clean (take (suc r) t)
  clean_next k =
      ap (λ x. x ++ get_or s r 0 ∷ []) c.written ∙ sym (clean-suc t r h ∙ rw (← same_byte, k))

  move_byte :
      is_control (get_or s r 0) ≡ false → Compacted t (suc r) (set s w (get_or s r 0), suc w)
  move_byte k = record {
    size = length-set s w (get_or s r 0) ∙ c.size;
    behind = omega (arith, c.behind);
    written = take-set_end s w (get_or s r 0) (omega (arith, c.size, c.behind)) ∙ clean_next k;
    unread = drop-set_above s w (get_or s r 0) (suc r) (omega (arith, c.behind)) ∙ rest_unread;
  }

  keep_byte : is_control (get_or s r 0) ≡ false → w ≡ r → Compacted t (suc r) (s, suc w)
  keep_byte k e = record {
    size = c.size;
    behind = omega (arith, c.behind);
    written =
        take-suc s w (omega (arith, c.size))
        ∙ subst (λ i. take w s ++ get_or s i 0 ∷ [] ≡ clean (take (suc r) t)) (sym e)
            (clean_next k);
    unread = rest_unread;
  }

  strip_step-Compacted : Compacted t (suc r) (strip_step r (s, w))
  unfolding strip_step
  strip_step-Compacted = elim (Bool-cases (is_control (get_or s r 0))) [
    | inl control ↦ rw control (skip_control control)
    | inr other ↦ elim (Bool-cases (w == r)) [
      | inl e ↦ rw (other, e) (keep_byte other (ground arith))
      | inr e ↦ rw (other, e) (move_byte other)
    ]
  ]

strip_loop-Compacted :
    (t : Bytes) (n r : ℕ) (state : Bytes × ℕ)
    → r + n ≤ length t
    → Compacted t r state
    → Compacted t (r + n) (strip_loop n r state)
unfolding strip_loop
strip_loop-Compacted t zero r state h c = subst (λ k. Compacted t k state) (omega arith) c
strip_loop-Compacted t (suc n) r (s, w) h c =
    subst (λ k. Compacted t k (strip_loop n (suc r) (strip_step r (s, w)))) (omega arith)
      (strip_loop-Compacted t n (suc r) _ (omega arith)
        (strip_step-Compacted t r s w (omega arith) c))

terminate-Compacted :
    (t : Bytes) (len : ℕ) (state : Bytes × ℕ)
    → Compacted t len state
    → let (s', w) = terminate len state in
      (take w s' ≡ clean (take len t)) × (w ≤ len) × (length s' ≡ length t)
unfolding terminate
terminate-Compacted t len (s, w) c = elim (Bool-cases (ltb w len)) [
  | inl short ↦ rw short (take-set_same s w 0 ∙ c.written, c.behind, length-set s w 0 ∙ c.size)
  | inr full ↦ rw full (c.written, c.behind, c.size)
]

-- The in-place loop leaves, in front of the new length, exactly the bytes of the first `len` that
-- are no controls, in order; the new length is at most `len`, and the buffer keeps its size. The
-- condition is that the buffer holds `len` bytes.
pub strip_controls-clean :
    (s : Bytes) (len : ℕ)
    → len ≤ length s
    → let (s', w) = strip_controls s len in
      (take w s' ≡ clean (take len s)) × (w ≤ len) × (length s' ≡ length s)
unfolding strip_controls
strip_controls-clean s len h =
    let start : Compacted s 0 (s, 0) = record {
      size = refl;
      behind = omega arith;
      written = refl;
      unread = refl;
    } in
    terminate-Compacted s len _ (
      subst (λ k. Compacted s k (strip_loop len 0 (s, 0))) (omega arith)
        (strip_loop-Compacted s len 0 (s, 0) (omega arith) start))
