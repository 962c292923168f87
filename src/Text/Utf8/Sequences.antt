-- ===== src/Text/Utf8/Sequences.antt =====
-- Proofs on one round of the validator of src/util.c, against the encoding of a scalar value.
use asterism_asngn.Common.{
  ℕ, ◌+◌, ◌-◌, ◌*◌, ◌/◌, ◌%◌, ◌≤◌, ◌<◌, ◌≡◌, refl, ◌∙◌, subst, ◌⊎◌, inl, inr, not, Bool, true,
  false, Option, none, some, [], ◌∷◌, ◌++◌, arith, ◌==◌, within, if◌then◌else◌, Bytes, IsBytes,
}
use asterism_asngn.Common.Words.{all_below, all_below_sound}
use asterism_asngn.Text.Utf8.{is_cont, tail_two, tail_three, tail_four, utf8_sequence}
use asterism_asngn.Text.Utf8.Scalars.{IsScalar, encode}

abbrev same : Bool → Bool → Bool
same true b = b
same false b = not b

same→eq : (a b : Bool) → same a b ≡ true → a ≡ b
same→eq a b h = ground arith

is_cont_table : all_below 256 (λ b. same (is_cont b) (within 0x80 0xBF b)) ≡ true
unfolding all_below is_cont
is_cont_table = refl

-- The mask test is a range test on bytes.
pub is_cont-within : (b : ℕ) → b < 256 → is_cont b ≡ within 0x80 0xBF b
is_cont-within b h = same→eq _ _ (all_below_sound 256 _ b h is_cont_table)

pub is_cont-low : (x : ℕ) → is_cont (0x80 + x % 0x40) ≡ true
is_cont-low x = is_cont-within (0x80 + x % 0x40) (omega arith) ∙ ground arith

abbrev pub read_sequence : Bytes → Option Bytes
read_sequence [] = none
read_sequence (b ∷ s) = utf8_sequence b s

-- The encoding of a scalar value is read in one round.
pub read_sequence-encode :
    (c : ℕ) (rest : Bytes) → IsScalar c → read_sequence (encode c ++ rest) ≡ some rest
unfolding utf8_sequence encode
read_sequence-encode c rest h =
    ground (arith, is_cont-low c, is_cont-low (c / 0x40), is_cont-low (c / 0x1000))

-- The scalar value of a sequence with two, three and four bytes.
abbrev join_two : ℕ → ℕ → ℕ
join_two b x = (b - 0xC0) * 0x40 + (x - 0x80)

abbrev join_three : ℕ → ℕ → ℕ → ℕ
join_three b x y = (b - 0xE0) * 0x1000 + (x - 0x80) * 0x40 + (y - 0x80)

abbrev join_four : ℕ → ℕ → ℕ → ℕ → ℕ
join_four b x y z = (b - 0xF0) * 0x40000 + (x - 0x80) * 0x1000 + (y - 0x80) * 0x40 + (z - 0x80)

abbrev Decodes : ℕ → Bytes → Bytes → Type 0
Decodes b s rest = (c : ℕ) × IsScalar c × (b ∷ s ≡ encode c ++ rest)

two_sound :
    (b x : ℕ)
    → within 0xC2 0xDF b ≡ true
    → within 0x80 0xBF x ≡ true
    → IsScalar (join_two b x) × (encode (join_two b x) ≡ b ∷ x ∷ [])
unfolding encode
two_sound b x hb hx = ground arith

three_sound :
    (b x y : ℕ)
    → within 0xE0 0xEF b ≡ true
    → within 0x80 0xBF x ≡ true
    → within 0x80 0xBF y ≡ true
    → (b ≡ 0xE0 → 0xA0 ≤ x)
    → (b ≡ 0xED → x ≤ 0x9F)
    → IsScalar (join_three b x y) × (encode (join_three b x y) ≡ b ∷ x ∷ y ∷ [])
unfolding encode
three_sound b x y hb hx hy low high = ground arith

four_sound :
    (b x y z : ℕ)
    → within 0xF0 0xF4 b ≡ true
    → within 0x80 0xBF x ≡ true
    → within 0x80 0xBF y ≡ true
    → within 0x80 0xBF z ≡ true
    → (b ≡ 0xF0 → 0x90 ≤ x)
    → (b ≡ 0xF4 → x ≤ 0x8F)
    → IsScalar (join_four b x y z) × (encode (join_four b x y z) ≡ b ∷ x ∷ y ∷ z ∷ [])
unfolding encode
four_sound b x y z hb hx hy hz low high = ground arith

-- The test that the code makes on the second byte, by the lead byte.
abbrev second_three : ℕ → ℕ → Bool
second_three b x =
    if b == 0xE0 then within 0xA0 0xBF x else if b == 0xED then within 0x80 0x9F x else is_cont x

abbrev second_four : ℕ → ℕ → Bool
second_four b x =
    if b == 0xF0 then within 0x90 0xBF x else if b == 0xF4 then within 0x80 0x8F x else is_cont x

module _ (p : ℕ → Bool) {rest : Bytes} where
  tail_two_inv : (s : Bytes) → tail_two p s ≡ some rest → (x : ℕ) × (s ≡ x ∷ rest) × (p x ≡ true)
  unfolding tail_two
  tail_two_inv (x ∷ s) e = (x, ground arith, ground arith)
  tail_two_inv [] e = cc

  tail_three_inv :
      (s : Bytes)
      → tail_three p s ≡ some rest
      → (x y : ℕ) × (s ≡ x ∷ y ∷ rest) × (p x ≡ true) × (is_cont y ≡ true)
  unfolding tail_three
  tail_three_inv (x ∷ y ∷ s) e = (x, y, ground arith, ground arith, ground arith)
  tail_three_inv (x ∷ []) e = cc
  tail_three_inv [] e = cc

  tail_four_inv :
      (s : Bytes)
      → tail_four p s ≡ some rest
      → (x y z : ℕ) × (s ≡ x ∷ y ∷ z ∷ rest)
        × (p x ≡ true)
        × (is_cont y ≡ true)
        × (is_cont z ≡ true)
  unfolding tail_four
  tail_four_inv (x ∷ y ∷ z ∷ s) e =
      (x, y, z, ground arith, ground arith, ground arith, ground arith)
  tail_four_inv (x ∷ y ∷ []) e = cc
  tail_four_inv (x ∷ []) e = cc
  tail_four_inv [] e = cc

-- Which form the accepted sequence has.
abbrev Form : ℕ → Bytes → Bytes → Type 0
Form b s rest =
    ((b < 0x80) × (s ≡ rest))
    ⊎ ((within 0xC2 0xDF b ≡ true) × (tail_two is_cont s ≡ some rest))
    ⊎ ((within 0xE0 0xEF b ≡ true) × (tail_three (second_three b) s ≡ some rest))
    ⊎ ((within 0xF0 0xF4 b ≡ true) × (tail_four (second_four b) s ≡ some rest))

utf8_sequence-Form :
    (b : ℕ) (s : Bytes) {rest : Bytes} → utf8_sequence b s ≡ some rest → Form b s rest
unfolding utf8_sequence
utf8_sequence-Form b [] e = ground arith
utf8_sequence-Form b (x ∷ []) e = ground arith
utf8_sequence-Form b (x ∷ y ∷ []) e = ground arith
utf8_sequence-Form b (x ∷ y ∷ z ∷ s) e = ground arith

module _ (b : ℕ) {s rest : Bytes} (h : IsBytes (b ∷ s)) where
  sound_two : within 0xC2 0xDF b ≡ true → tail_two is_cont s ≡ some rest → Decodes b s rest
  sound_two k e =
      let (x, t, p) = tail_two_inv is_cont s e in
      let low : x < 256 = (subst IsBytes t h.1).0 in
      let facts = two_sound b x k (ground (arith, is_cont-within x low)) in
      (join_two b x, facts.0, ground (arith, facts.1))

  sound_three :
      within 0xE0 0xEF b ≡ true → tail_three (second_three b) s ≡ some rest → Decodes b s rest
  sound_three k e =
      let (x, y, t, p, q) = tail_three_inv (second_three b) s e in
      let bytes : IsBytes (x ∷ y ∷ rest) = subst IsBytes t h.1 in
      let cx = is_cont-within x bytes.0 in
      let cy = is_cont-within y bytes.1.0 in
      let facts = three_sound b x y k (ground arith) (ground arith) (ground arith) (ground arith) in
      (join_three b x y, facts.0, ground (arith, facts.1))

  sound_four :
      within 0xF0 0xF4 b ≡ true → tail_four (second_four b) s ≡ some rest → Decodes b s rest
  sound_four k e =
      let (x, y, z, t, p, q, r) = tail_four_inv (second_four b) s e in
      let bytes : IsBytes (x ∷ y ∷ z ∷ rest) = subst IsBytes t h.1 in
      let cx = is_cont-within x bytes.0 in
      let cy = is_cont-within y bytes.1.0 in
      let cz = is_cont-within z bytes.1.1.0 in
      let facts =
        four_sound b x y z k (ground arith) (ground arith) (ground arith) (ground arith)
          (ground arith) in
      (join_four b x y z, facts.0, ground (arith, facts.1))

-- What one round accepts is the encoding of a scalar value.
pub utf8_sequence_sound :
    (b : ℕ) (s : Bytes) {rest : Bytes}
    → IsBytes (b ∷ s)
    → utf8_sequence b s ≡ some rest
    → Decodes b s rest
unfolding encode
utf8_sequence_sound b s h e = elim (utf8_sequence-Form b s e) [
  | inl (low, t) ↦ (b, inl (omega arith), ground arith)
  | inr (inl (k, t)) ↦ sound_two b h k t
  | inr (inr (inl (k, t))) ↦ sound_three b h k t
  | inr (inr (inr (k, t))) ↦ sound_four b h k t
]
