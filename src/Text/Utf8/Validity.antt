-- ===== src/Text/Utf8/Validity.antt =====
-- Proofs on `asngn_utf8_valid` of src/util.c, against the encodings of sequences of scalar values.
use asterism_asngn.Common.{
  ℕ, zero, suc, ◌≤◌, ◌≡◌, ◌↔◌, refl, ◌∙◌, sym, subst, ap, true, some, List, [], ◌∷◌, ◌++◌,
  append_assoc, arith, Bytes, length, length-append, All, All-append, IsBytes, Option-cases, inl,
  inr,
}
use asterism_asngn.Text.Utf8.{utf8_sequence, utf8_loop, utf8_valid}
use asterism_asngn.Text.Utf8.Scalars.{IsScalar, encode, encode_all}
use asterism_asngn.Text.Utf8.Sequences.{read_sequence, read_sequence-encode, utf8_sequence_sound}

-- The bytes are the encoding of some sequence of scalar values.
abbrev pub IsUtf8 : Bytes → Type 0
IsUtf8 s = (cs : List ℕ) × All IsScalar cs × (s ≡ encode_all cs)

pub length-encode : (c : ℕ) → 1 ≤ length (encode c)
unfolding encode
length-encode c = ground arith

pub encode_all-append : (cs ds : List ℕ) → encode_all (cs ++ ds) ≡ encode_all cs ++ encode_all ds
unfolding encode_all
encode_all-append [] ds = refl
encode_all-append (c ∷ cs) ds =
    rw (encode_all-append cs ds) (sym (append_assoc (encode c) (encode_all cs) (encode_all ds)))

utf8_loop-read_sequence :
    (fuel : ℕ) (s : Bytes) {rest : Bytes}
    → read_sequence s ≡ some rest
    → utf8_loop (suc fuel) s ≡ utf8_loop fuel rest
unfolding utf8_loop
utf8_loop-read_sequence fuel [] e = cc
utf8_loop-read_sequence fuel (b ∷ s) e = rw (e, utf8_loop)

utf8_loop-encode_all :
    (fuel : ℕ) (cs : List ℕ)
    → All IsScalar cs
    → length (encode_all cs) ≤ fuel
    → utf8_loop fuel (encode_all cs) ≡ true
unfolding encode_all
utf8_loop-encode_all fuel [] h k = unfold utf8_loop in refl
utf8_loop-encode_all zero (c ∷ cs) h k =
    absurd (omega (arith, length-append (encode c) (encode_all cs), length-encode c))
utf8_loop-encode_all (suc fuel) (c ∷ cs) h k =
    utf8_loop-read_sequence fuel _ (read_sequence-encode c (encode_all cs) h.0)
    ∙ utf8_loop-encode_all fuel cs h.1
        (omega (arith, length-append (encode c) (encode_all cs), length-encode c))

-- All bytes of a tail are bytes.
pub IsBytes-tail : (xs ys : Bytes) → IsBytes (xs ++ ys) → IsBytes ys
IsBytes-tail [] ys h = h
IsBytes-tail (x ∷ xs) ys h = IsBytes-tail xs ys h.1

utf8_loop_sound : (fuel : ℕ) (s : Bytes) → IsBytes s → utf8_loop fuel s ≡ true → IsUtf8 s
unfolding utf8_loop encode_all
utf8_loop_sound fuel [] h e = ([], tt, refl)
utf8_loop_sound zero (b ∷ s) h e = cc
utf8_loop_sound (suc fuel) (b ∷ s) h e = elim (Option-cases (utf8_sequence b s)) [
  | inl bad ↦ cc (rw (bad, utf8_loop) at e)
  | inr (rest, good) ↦
      let (c, scalar, split) = utf8_sequence_sound b s h good in
      let bytes = IsBytes-tail (encode c) rest (subst IsBytes split h) in
      let (cs, scalars, rests) = utf8_loop_sound fuel rest bytes (rw (good, utf8_loop) at e) in
      (c ∷ cs, (scalar, scalars), split ∙ ap (◌++◌ (encode c)) rests)
]

pub utf8_valid-encode_all : (cs : List ℕ) → All IsScalar cs → utf8_valid (encode_all cs) ≡ true
unfolding utf8_valid
utf8_valid-encode_all cs h = utf8_loop-encode_all _ cs h (omega arith)

-- On bytes, the validator accepts exactly the encodings of sequences of Unicode scalar values: no
-- overlong form, no surrogate, nothing above U+10FFFF and no truncated sequence.
pub utf8_valid_iff : (s : Bytes) → IsBytes s → (utf8_valid s ≡ true) ↔ IsUtf8 s
utf8_valid_iff s h = (
  unfold utf8_valid in utf8_loop_sound (length s) s h,
  λ (cs, scalars, e). rw e (utf8_valid-encode_all cs scalars),
)

utf8_loop-append :
    (cs : List ℕ) (t : Bytes) (fuel : ℕ)
    → All IsScalar cs
    → length (encode_all cs ++ t) ≤ fuel
    → utf8_loop fuel (encode_all cs ++ t) ≡ true
    → (k : ℕ) × (utf8_loop k t ≡ true)
unfolding encode_all
utf8_loop-append [] t fuel h k e = (fuel, e)
utf8_loop-append (c ∷ cs) t zero h k e = absurd (
    omega (
      arith,
      length-append (encode c ++ encode_all cs) t,
      length-append (encode c) (encode_all cs),
      length-encode c,
    ))
utf8_loop-append (c ∷ cs) t (suc fuel) h k e =
    let split = append_assoc (encode c) (encode_all cs) t in
    let bound = subst (λ s. length s ≤ suc fuel) split k in
    let step = utf8_loop-read_sequence fuel _ (read_sequence-encode c (encode_all cs ++ t) h.0) in
    utf8_loop-append cs t fuel h.1
      (omega (arith, bound, length-append (encode c) (encode_all cs ++ t), length-encode c))
      (sym step ∙ subst (λ s. utf8_loop (suc fuel) s ≡ true) split e)

-- What follows a valid prefix of a valid text is valid.
pub IsUtf8-suffix : (s t : Bytes) → IsBytes (s ++ t) → IsUtf8 s → IsUtf8 (s ++ t) → IsUtf8 t
IsUtf8-suffix s t h (cs, scalars, e) whole =
    let accepted = (utf8_valid_iff (s ++ t) h).1 whole in
    let (k, loop) = utf8_loop-append cs t (length (encode_all cs ++ t)) scalars (omega arith) (
      subst (λ x. utf8_loop (length (x ++ t)) (x ++ t) ≡ true) e (unfold utf8_valid in accepted)) in
    utf8_loop_sound k t (IsBytes-tail s t h) loop

pub IsUtf8-append : (s t : Bytes) → IsUtf8 s → IsUtf8 t → IsUtf8 (s ++ t)
IsUtf8-append s t (cs, hc, ec) (ds, hd, ed) =
    (cs ++ ds, All-append IsScalar cs ds hc hd, rw (ec, ed) (sym (encode_all-append cs ds)))
