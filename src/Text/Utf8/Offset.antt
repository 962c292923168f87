-- ===== src/Text/Utf8/Offset.antt =====
-- Proofs on `utf8_invalid_offset` of src/safety.c, against the validator of src/util.c.
use asterism_asngn.Common.{
  ℕ, zero, suc, ◌+◌, ◌≤◌, ◌≡◌, ◌↔◌, ◌⊎◌, refl, ◌∙◌, sym, subst, ap, inl, inr, true, false, Option,
  none, some, List, [], ◌∷◌, ◌++◌, append-nil, append_assoc, arith, Bytes, length, length-append,
  take, drop, take-append, drop-append, take-append-drop, take-append_add, drop-append_add, drop-ge,
  take-length, length-drop, All, IsBytes, IsBytes-take, IsBytes-drop, Bool-cases, Option-cases,
}
use asterism_asngn.Text.Utf8.{
  utf8_sequence, utf8_valid, lead_length, bad_sequence, invalid_offset_loop, utf8_invalid_offset,
}
use asterism_asngn.Text.Utf8.Scalars.{IsScalar, encode, encode_all}
use asterism_asngn.Text.Utf8.Sequences.{read_sequence, read_sequence-encode, utf8_sequence_sound}
use asterism_asngn.Text.Utf8.Validity.{IsUtf8, IsUtf8-suffix, utf8_valid_iff, utf8_valid-encode_all}

abbrev lead : Bytes → Option ℕ
lead [] = none
lead (b ∷ s) = lead_length b

lead-encode : (c : ℕ) (t : Bytes) → IsScalar c → lead (encode c ++ t) ≡ some (length (encode c))
unfolding encode lead_length
lead-encode c t h = ground arith

-- A round that the validator takes is no bad sequence.
good_of_sequence :
    (c : ℕ) (rest : Bytes)
    → IsScalar c
    → bad_sequence (length (encode c)) (encode c ++ rest) ≡ false
unfolding bad_sequence encode_all
good_of_sequence c rest h =
    let one = utf8_valid-encode_all (c ∷ []) (h, tt) in
    let valid : utf8_valid (take (length (encode c)) (encode c ++ rest)) ≡ true =
      rw take-append (subst (λ s. utf8_valid s ≡ true) (append-nil (encode c)) one) in
    rw valid (ground (arith, length-append (encode c) rest))

lead_length-pos : (b : ℕ) {l : ℕ} → lead_length b ≡ some l → 1 ≤ l
unfolding lead_length
lead_length-pos b e = ground arith

-- The first sequence of a nonempty text that begins with a valid run of `l` bytes.
abbrev Starts : ℕ → Bytes → Type 0
Starts l s =
    (c : ℕ) × (rest : Bytes) × IsScalar c × (s ≡ encode c ++ rest) × (l ≡ length (encode c))

Starts-of_scalars :
    (b l : ℕ) (s : Bytes) (cs : List ℕ)
    → lead_length b ≡ some l
    → All IsScalar cs
    → take l (b ∷ s) ≡ encode_all cs
    → Starts l (b ∷ s)
unfolding encode_all
Starts-of_scalars b zero s cs n h e = absurd (omega (arith, lead_length-pos b n))
Starts-of_scalars b (suc l) s [] n h e = cc
Starts-of_scalars b (suc l) s (c ∷ cs) n h e =
    let rest = encode_all cs ++ drop l s in
    let split : b ∷ s ≡ encode c ++ rest =
      sym (take-append-drop (suc l) (b ∷ s))
      ∙ ap (λ x. x ++ drop l s) e
      ∙ append_assoc (encode c) (encode_all cs) (drop l s) in
    let named : lead (b ∷ s) ≡ some (length (encode c)) = ap lead split ∙ lead-encode c rest h.0 in
    (c, rest, h.0, split, cc)

Starts-of_good :
    (b l : ℕ) (s : Bytes)
    → IsBytes (b ∷ s)
    → lead_length b ≡ some l
    → bad_sequence l (b ∷ s) ≡ false
    → Starts l (b ∷ s)
unfolding bad_sequence
Starts-of_good b l s h n e =
    let valid : utf8_valid (take l (b ∷ s)) ≡ true = ground arith in
    let (cs, scalars, t) = (utf8_valid_iff (take l (b ∷ s)) (IsBytes-take l (b ∷ s) h)).0 valid in
    Starts-of_scalars b l s cs n scalars t

refused_of_bad :
    (b : ℕ) (s : Bytes)
    → IsBytes (b ∷ s)
    → ((c : ℕ) (rest : Bytes) → IsScalar c → b ∷ s ≡ encode c ++ rest → ⊥)
    → utf8_sequence b s ≡ none
refused_of_bad b s h no_scalar = elim (Option-cases (utf8_sequence b s)) [
  | inl refused ↦ refused
  | inr (rest, good) ↦
      let (c, scalar, split) = utf8_sequence_sound b s h good in
      absurd (no_scalar c rest scalar split)
]

-- The bytes before the offset are valid, and no sequence of the validator starts behind them.
abbrev pub Splits : ℕ → Bytes → Type 0
Splits k s = (k ≤ length s) × IsUtf8 (take k s) × (read_sequence (drop k s) ≡ none)

Splits-encode :
    (c k : ℕ) (rest : Bytes)
    → IsScalar c
    → Splits k rest
    → Splits (length (encode c) + k) (encode c ++ rest)
unfolding encode_all
Splits-encode c k rest h (within_rest, (cs, scalars, e), refused) = (
  omega (arith, length-append (encode c) rest),
  (c ∷ cs, (h, scalars), take-append_add (encode c) rest k ∙ ap (◌++◌ (encode c)) e),
  rw drop-append_add refused,
)

Splits-zero : (s : Bytes) → read_sequence s ≡ none → Splits 0 s
unfolding encode_all
Splits-zero s h = (omega arith, ([], tt, refl), h)

abbrev Ends : ℕ → ℕ → Bytes → Type 0
Ends i r s = (k : ℕ) × (r ≡ i + k) × Splits k s

Starts-clash :
    (b : ℕ) (s : Bytes)
    → (lead_length b ≡ none)
      ⊎ ((l : ℕ) × (lead_length b ≡ some l) × (bad_sequence l (b ∷ s) ≡ true))
    → (c : ℕ) (rest : Bytes) → IsScalar c
    → b ∷ s ≡ encode c ++ rest
    → ⊥
Starts-clash b s (inl refused) c rest h split =
    let named : lead (b ∷ s) ≡ some (length (encode c)) = ap lead split ∙ lead-encode c rest h in cc
Starts-clash b s (inr (l, announced, bad)) c rest h split =
    let named : lead (b ∷ s) ≡ some (length (encode c)) = ap lead split ∙ lead-encode c rest h in
    let good : bad_sequence (length (encode c)) (b ∷ s) ≡ false =
      rw split (good_of_sequence c rest h) in
    let same : length (encode c) ≡ l = ground arith in
    cc (subst (λ n. bad_sequence n (b ∷ s) ≡ false) same good)

-- A round that goes on, for whatever the rest of the loop returns.
Ends-later : (i l r : ℕ) (s : Bytes) → Starts l s → Ends (i + l) r (drop l s) → Ends i r s
Ends-later i l r s (c, rest, h, split, size) (k, e, later) =
    let behind : drop l s ≡ rest = rw (split, size) (drop-append (encode c) rest) in
    let all : Splits (length (encode c) + k) (encode c ++ rest) =
      Splits-encode c k rest h (subst (Splits k) behind later) in
    (length (encode c) + k, omega arith, subst (Splits (length (encode c) + k)) (sym split) all)

invalid_offset_loop-Ends :
    (fuel i : ℕ) (s : Bytes) → IsBytes s → length s ≤ fuel → Ends i (invalid_offset_loop fuel i s) s
unfolding invalid_offset_loop
invalid_offset_loop-Ends fuel i [] h k = (0, omega arith, Splits-zero [] refl)
invalid_offset_loop-Ends zero i (b ∷ s) h k = absurd (omega arith)
invalid_offset_loop-Ends (suc fuel) i (b ∷ s) h k = elim (Option-cases (lead_length b)) [
  | inl refused ↦
      (0, ground arith, Splits-zero (b ∷ s) (refused_of_bad b s h (Starts-clash b s (inl refused))))
  | inr (l, announced) ↦ elim (Bool-cases (bad_sequence l (b ∷ s))) [
    | inl bad ↦ (
      0,
      ground arith,
      Splits-zero (b ∷ s) (refused_of_bad b s h (Starts-clash b s (inr (l, announced, bad)))),
    )
    | inr good ↦
        let starts = Starts-of_good b l s h announced good in
        let left : length (drop l (b ∷ s)) ≤ fuel =
          omega (arith, length-drop l (b ∷ s), lead_length-pos b announced) in
        let later =
          invalid_offset_loop-Ends fuel (i + l) (drop l (b ∷ s)) (IsBytes-drop l (b ∷ s) h) left in
        let step : invalid_offset_loop fuel (i + l) (drop l (b ∷ s))
            ≡ invalid_offset_loop (suc fuel) i (b ∷ s) =
          ground arith in
        subst (λ r. Ends i r (b ∷ s)) step (Ends-later i l _ (b ∷ s) starts later)
  ]
]

-- On bytes, the reported offset splits the text: what stands before it is valid UTF-8, and the
-- validator refuses the sequence that starts there (at the end of a valid text there is none).
pub utf8_invalid_offset-Splits : (s : Bytes) → IsBytes s → Splits (utf8_invalid_offset s) s
unfolding utf8_invalid_offset
utf8_invalid_offset-Splits s h =
    let (k, e, splits) = invalid_offset_loop-Ends (length s) 0 s h (omega arith) in
    subst (λ n. Splits n s) (omega arith) splits

-- A text where no sequence starts, and that is valid, is empty.
none_left : (s : Bytes) → IsUtf8 s → read_sequence s ≡ none → s ≡ []
unfolding encode_all
none_left s ([], h, e) r = e
none_left s (c ∷ cs, h, e) r = cc (read_sequence-encode c (encode_all cs) h.0, ap read_sequence e)

-- On bytes, the gate accepts exactly the texts whose reported offset is their length, so the offset
-- never disagrees with the gate's decision.
pub utf8_invalid_offset-utf8_valid :
    (s : Bytes) → IsBytes s → (utf8_valid s ≡ true) ↔ (utf8_invalid_offset s ≡ length s)
utf8_invalid_offset-utf8_valid s h =
    let r = utf8_invalid_offset s in
    let (within_s, before, refused) = utf8_invalid_offset-Splits s h in
    let joined = take-append-drop r s in
    (
      λ valid.
          let whole = (utf8_valid_iff s h).0 valid in
          let rest =
            IsUtf8-suffix (take r s) (drop r s) (subst IsBytes (sym joined) h) before
              (subst IsUtf8 (sym joined) whole) in
          omega (arith, drop-ge r s (none_left (drop r s) rest refused)),
      λ e. (utf8_valid_iff s h).1 (subst IsUtf8 (ap (λ n. take n s) e ∙ take-length s) before),
    )
