-- ===== src/Text/Sentence.antt =====
-- src/util.c, `asngn_sentence_trim`.
pub mod Whole
use asterism_asngn.Common.{
  ℕ, zero, suc, ◌+◌, ◌-◌, ◌≤◌, ◌<◌, ◌≡◌, refl, Bool, true, false, not, ◌&&◌, ◌||◌, List, [], ◌∷◌,
  ◌++◌, arith, ltb, ◌==◌, if◌then◌else◌, Bytes, length, get_or, ◌⊎◌, inl, inr, ==_iff, subst,
  Bool-cases,
}

unfoldable pub is_ascii_space : ℕ → Bool
is_ascii_space ch =
    ch == b' ' || ch == b'\t' || ch == b'\n' || ch == b'\r' || ch == 0x0B || ch == 0x0C

unfoldable pub is_stop : ℕ → Bool
is_stop ch = ch == b'.' || ch == b'!' || ch == b'?'

-- The tests of the loop's body at index `i` of the first `len` bytes.
unfoldable pub is_boundary : Bytes → ℕ → ℕ → Bool
unfolding is_ascii_space is_stop
is_boundary s len i =
    let ch = get_or s i 0 in
    ch == b'\n' || (is_stop ch && (suc i == len || is_ascii_space (get_or s (suc i) 0)))

-- The backward scan with the indices below `n` to go.
unfoldable pub trim_loop : Bytes → ℕ → ℕ → ℕ
trim_loop s len zero = len
trim_loop s len (suc i) =
    let rest = trim_loop s len i in if is_boundary s len i then suc i else rest

unfoldable pub sentence_trim : Bytes → ℕ → ℕ
unfolding trim_loop
sentence_trim s len = if len == 0 then len else trim_loop s len len

-- `r` lies behind a boundary, or is the whole length where there is none, and no boundary lies at or
-- behind `r`.
abbrev pub CutAt : Bytes → ℕ → ℕ → Type 0
CutAt s len r =
    (r ≤ len)
    × ((j : ℕ) → r ≤ j → j < len → is_boundary s len j ≡ false)
    × (((r ≡ len) × ((j : ℕ) → j < len → is_boundary s len j ≡ false))
        ⊎ ((i : ℕ) × (r ≡ suc i) × (is_boundary s len i ≡ true)))

module _ (s : Bytes) (len : ℕ) where
  trim_loop-CutAt :
      (n : ℕ)
      → n ≤ len
      → ((j : ℕ) → n ≤ j → j < len → is_boundary s len j ≡ false)
      → CutAt s len (trim_loop s len n)
  unfolding trim_loop
  trim_loop-CutAt zero h later = (
    omega arith,
    λ j above below. absurd (omega arith),
    inl (refl, λ j below. later j (omega arith) below),
  )
  trim_loop-CutAt (suc i) h later = elim (Bool-cases (is_boundary s len i)) [
    | inl cut ↦ rw cut (h, later, inr (i, refl, cut))
    | inr none_here ↦ rw none_here (
        trim_loop-CutAt i (omega arith) (λ j above below. elim (Bool-cases (i == j)) [
          | inl e ↦ subst (λ k. is_boundary s len k ≡ false) ((==_iff i j).0 e) none_here
          | inr e ↦ later j (ground arith) below
        ]))
  ]

  -- The text is cut behind its last sentence boundary, and not at all where it has none.
  pub sentence_trim-CutAt : CutAt s len (sentence_trim s len)
  unfolding sentence_trim
  sentence_trim-CutAt = elim (Bool-cases (len == 0)) [
    | inl e ↦ rw e (
      omega arith,
      λ j above below. absurd (omega arith),
      inl (refl, λ j below. absurd (ground arith)),
    )
    | inr e ↦ rw e (trim_loop-CutAt len (omega arith) (λ j above below. absurd (omega arith)))
  ]
