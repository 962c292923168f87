-- ===== src/Text/Gate/Sanitized.antt =====
-- What an accepted message is, and why it was accepted.
use asterism_asngn.Common.{
  ℕ, ◌≤◌, ◌<◌, ◌≡◌, ◌↔◌, refl, ◌∙◌, sym, subst, ap, inl, inr, Bool, true, false, not, List, [], ◌∷◌,
  ◌++◌, arith, if◌then◌else◌, Bytes, length, take, all, keep, keep-append, All, IsBytes,
  IsBytes-take, Bool-cases,
}
use asterism_asngn.Text.Utf8.{utf8_valid}
use asterism_asngn.Text.Utf8.Scalars.{IsScalar, encode, encode_all}
use asterism_asngn.Text.Utf8.Validity.{IsUtf8, utf8_valid_iff}
use asterism_asngn.Text.Strip.{is_control, strip_controls, clean, strip_controls-clean}
use asterism_asngn.Text.Gate.{
  Gated, accepted, rejected, is_blank, gate_stripped, gate_input, input_max,
}

-- The encoding of a scalar value is dropped whole, if it is a control, or kept whole.
clean-encode : (c : ℕ) → IsScalar c → clean (encode c) ≡ (if is_control c then [] else encode c)
unfolding encode is_control
clean-encode c h = ground arith

clean-encode_all :
    (cs : List ℕ)
    → All IsScalar cs
    → clean (encode_all cs) ≡ encode_all (keep (λ c. not (is_control c)) cs)
unfolding encode_all
clean-encode_all [] h = refl
clean-encode_all (c ∷ cs) h =
    keep-append (λ ch. not (is_control ch)) (encode c) (encode_all cs)
    ∙ elim (Bool-cases (is_control c)) [
      | inl control ↦ rw (clean-encode c h.0, control) (clean-encode_all cs h.1)
      | inr other ↦ rw (clean-encode c h.0, other) (ap (◌++◌ (encode c)) (clean-encode_all cs h.1))
    ]

All-keep : (p : ℕ → Bool) (cs : List ℕ) → All IsScalar cs → All IsScalar (keep p cs)
All-keep p [] h = tt
All-keep p (c ∷ cs) h = ground (arith, All-keep p cs)

-- Stripping the controls of a valid text leaves a valid text.
pub IsUtf8-clean : (s : Bytes) → IsUtf8 s → IsUtf8 (clean s)
IsUtf8-clean s (cs, h, e) =
    (keep (λ c. not (is_control c)) cs, All-keep _ cs h, ap clean e ∙ clean-encode_all cs h)

clean-all : (s : Bytes) → all (λ ch. not (is_control ch)) (clean s) ≡ true
clean-all [] = refl
clean-all (b ∷ s) = ground (arith, clean-all s)

IsBytes-clean : (s : Bytes) → IsBytes s → IsBytes (clean s)
IsBytes-clean [] h = tt
IsBytes-clean (b ∷ s) h = ground (arith, IsBytes-clean s)

-- What the gate demands of the first `len` bytes.
abbrev pub Acceptable : Bytes → ℕ → Type 0
Acceptable text len =
    (0 < len)
    × (len ≤ input_max)
    × (utf8_valid (take len text) ≡ true)
    × (all is_blank (clean (take len text)) ≡ false)

abbrev pub Accepted : Gated → Type 0
Accepted (accepted s w) = Unit
Accepted (rejected e s w) = ⊥

module _ (text : Bytes) (len : ℕ) (room : len ≤ length text) where
  gate_stripped_iff :
      Accepted (gate_stripped (strip_controls text len))
      ↔ (all is_blank (clean (take len text)) ≡ false)
  unfolding gate_stripped
  gate_stripped_iff = rw (← (strip_controls-clean text len room).0) (ground arith)

  -- A message passes the gate exactly when it is not empty, has at most 64 KiB, is valid UTF-8 and
  -- holds something other than blanks once its controls are stripped. The condition is that the
  -- buffer holds `len` bytes.
  pub gate_input_iff : Accepted (gate_input text len) ↔ Acceptable text len
  unfolding gate_input
  gate_input_iff = ground (arith, gate_stripped_iff)

-- What a turn may rely on: an accepted message is the given one with its controls dropped and
-- nothing else changed, is valid UTF-8, has no control but newline and tab, is not blank, and is no
-- longer than the given one.
abbrev pub Sanitized : Bytes → ℕ → Gated → Type 0
Sanitized text len (rejected e s w) = Unit
Sanitized text len (accepted s w) =
    (take w s ≡ clean (take len text))
    × (utf8_valid (take w s) ≡ true)
    × (all (λ ch. not (is_control ch)) (take w s) ≡ true)
    × (all is_blank (take w s) ≡ false)
    × (w ≤ len)

Sanitized-of :
    (text : Bytes) (len : ℕ) (s : Bytes) (w : ℕ)
    → take w s ≡ clean (take len text)
    → w ≤ len
    → utf8_valid (clean (take len text)) ≡ true
    → Sanitized text len (gate_stripped (s, w))
unfolding gate_stripped
Sanitized-of text len s w e short valid = elim (Bool-cases (all is_blank (take w s))) [
  | inl blank ↦ rw blank tt
  | inr other ↦ rw other (
    e,
    subst (λ x. utf8_valid x ≡ true) (sym e) valid,
    subst (λ x. all (λ ch. not (is_control ch)) x ≡ true) (sym e) (clean-all (take len text)),
    other,
    short,
  )
]

module _ (text : Bytes) (len : ℕ) (room : len ≤ length text) (bytes : IsBytes text) where
  Sanitized-gate_stripped :
      utf8_valid (take len text) ≡ true
      → Sanitized text len (gate_stripped (strip_controls text len))
  Sanitized-gate_stripped valid =
      let (e, short, size) = strip_controls-clean text len room in
      let given = IsBytes-take len text bytes in
      let utf8 = IsUtf8-clean (take len text) ((utf8_valid_iff (take len text) given).0 valid) in
      let clean_valid = (utf8_valid_iff (clean (take len text)) (IsBytes-clean _ given)).1 utf8 in
      Sanitized-of text len (strip_controls text len).0 (strip_controls text len).1 e short
        clean_valid

  -- An accepted message is the given one with its controls dropped and nothing else changed; it is
  -- valid UTF-8, has no control but newline and tab, is not blank, and is no longer than the given
  -- one. The conditions are that the buffer holds `len` bytes, each below 256.
  pub gate_input-Sanitized : Sanitized text len (gate_input text len)
  unfolding gate_input
  gate_input-Sanitized = elim (Bool-cases (utf8_valid (take len text))) [
    | inl valid ↦ ground (arith, Sanitized-gate_stripped valid)
    | inr refused ↦ ground arith
  ]
