-- ===== src/Text/Sentence/Whole.antt =====
-- Proofs on the cut of `asngn_sentence_trim` of src/util.c and UTF-8 sequences.
use asterism_asngn.Common.{
  ℕ, zero, suc, ◌+◌, ◌-◌, ◌≤◌, ◌<◌, ◌≡◌, sym, subst, ap, append-nil, inl, inr, true, List, [], ◌∷◌,
  ◌++◌, arith, Bytes, length, length-append, get_or, get_or-append_add, take, take-append_add,
  take-length, All, IsBytes, IsBytes-take,
}
use native.Mathlib.Decide.{dec_lt}
use asterism_asngn.Text.Utf8.{utf8_valid}
use asterism_asngn.Text.Utf8.Scalars.{IsScalar, encode, encode_all}
use asterism_asngn.Text.Utf8.Validity.{IsUtf8, utf8_valid_iff, IsUtf8-append}
use asterism_asngn.Text.Sentence.{is_boundary, sentence_trim, sentence_trim-CutAt}

is_boundary-ascii : (s : Bytes) (len i : ℕ) → is_boundary s len i ≡ true → get_or s i 0 < 0x80
unfolding is_boundary
is_boundary-ascii s len i h = ground arith

-- A byte of a longer encoding is no ASCII byte.
inner-byte :
    (c i : ℕ) (t : Bytes) → 0x80 ≤ c → i < length (encode c) → 0x80 ≤ get_or (encode c ++ t) i 0
unfolding encode
inner-byte c zero t h k = ground arith
inner-byte c (suc zero) t h k = ground arith
inner-byte c (suc (suc zero)) t h k = ground arith
inner-byte c (suc (suc (suc zero))) t h k = ground arith
inner-byte c (suc (suc (suc (suc i)))) t h k = ground arith

ascii-encode : (c : ℕ) → c < 0x80 → encode c ≡ c ∷ []
unfolding encode
ascii-encode c h = ground arith

one : (c : ℕ) → IsScalar c → IsUtf8 (encode c)
unfolding encode_all
one c h = (c ∷ [], (h, tt), sym (append-nil (encode c)))

inside_cut :
    (c i : ℕ) (t : Bytes)
    → IsScalar c
    → i < length (encode c)
    → get_or (encode c ++ t) i 0 < 0x80
    → IsUtf8 (take (suc i) (encode c ++ t))
inside_cut c i t h k a = elim (dec_lt c 0x80) [
  | yes ascii ↦
      let e = ascii-encode c ascii in
      let first : i ≡ 0 = ground (arith, ap (length {0}) e) in
      subst (λ n. IsUtf8 (take (suc n) (encode c ++ t))) (sym first)
        (subst (λ x. IsUtf8 (take 1 (x ++ t))) (sym e) (subst IsUtf8 e (one c h)))
  | no wide ↦ absurd (omega (arith, inner-byte c i t (omega arith) k))
]

-- The text up to an ASCII byte of a valid text is valid.
ascii_cut :
    (cs : List ℕ) (i : ℕ)
    → All IsScalar cs
    → i < length (encode_all cs)
    → get_or (encode_all cs) i 0 < 0x80
    → IsUtf8 (take (suc i) (encode_all cs))
unfolding encode_all
ascii_cut [] i h k a = absurd (omega arith)
ascii_cut (c ∷ cs) i h k a = elim (dec_lt i (length (encode c))) [
  | yes inside ↦ inside_cut c i (encode_all cs) h.0 inside a
  | no beyond ↦
      let j = i - length (encode c) in
      let e : i ≡ length (encode c) + j = omega arith in
      let byte : get_or (encode_all cs) j 0 < 0x80 =
        subst (λ b. b < 0x80) (get_or-append_add (encode c) (encode_all cs) j 0)
          (subst (λ n. get_or (encode c ++ encode_all cs) n 0 < 0x80) e a) in
      let rest =
        ascii_cut cs j h.1 (omega (arith, length-append (encode c) (encode_all cs))) byte in
      let e' : suc i ≡ length (encode c) + suc j = omega arith in
      subst (λ n. IsUtf8 (take n (encode c ++ encode_all cs))) (sym e')
        (subst IsUtf8 (sym (take-append_add (encode c) (encode_all cs) (suc j)))
          (IsUtf8-append (encode c) (take (suc j) (encode_all cs)) (one c h.0) rest))
]

-- The cut of a valid text behind its last sentence boundary is valid: it never splits a sequence.
pub sentence_trim-utf8_valid :
    (s : Bytes)
    → IsBytes s
    → utf8_valid s ≡ true
    → utf8_valid (take (sentence_trim s (length s)) s) ≡ true
sentence_trim-utf8_valid s h valid =
    let r = sentence_trim s (length s) in
    let (cs, scalars, e) = (utf8_valid_iff s h).0 valid in
    let (below, later, cut) = sentence_trim-CutAt s (length s) in
    elim cut [
      | inl (whole, unbroken) ↦
          subst (λ n. utf8_valid (take n s) ≡ true) (sym whole)
            (subst (λ x. utf8_valid x ≡ true) (sym (take-length s)) valid)
      | inr (i, at, boundary) ↦
          let byte = is_boundary-ascii s (length s) i boundary in
          let kept =
            ascii_cut cs i scalars (subst (λ x. i < length x) e (omega arith))
              (subst (λ x. get_or x i 0 < 0x80) e byte) in
          (utf8_valid_iff (take r s) (IsBytes-take r s h)).1 (
            subst (λ n. IsUtf8 (take n s)) (sym at)
              (subst (λ x. IsUtf8 (take (suc i) x)) (sym e) kept))
    ]
