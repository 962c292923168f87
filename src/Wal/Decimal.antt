-- ===== src/Wal/Decimal.antt =====
-- Proofs on decimal numbers in the headers of src/wal.c.
use asterism_asngn.Common.{
  ℕ, zero, suc, ◌+◌, ◌*◌, ◌/◌, ◌%◌, ◌^◌, ◌≤◌, ◌<◌, ◌≡◌, ◌∙◌, ap, subst, true, false, [], ◌∷◌, ◌++◌,
  append_assoc, ltb, within, Bytes, length, length-append, get_or, All, All-append, arith, pick,
  pick_on, ltb→lt,
}
use native.Mathlib.Nat.{pow-suc}
use asterism_asngn.Common.Decimal.{digits}
use asterism_asngn.Wal.{read_digits}

-- Neither a NUL nor a line feed.
abbrev pub IsPlain : Bytes → Type 0
IsPlain = All (λ ch. 10 < ch)

read_digits-here :
    (v d : ℕ) (t : Bytes) → d < 10 → read_digits v ((b'0' + d) ∷ t) ≡ read_digits (v * 10 + d) t
unfolding read_digits
read_digits-here v d t h = ground arith

pub ltb-ge : (a b : ℕ) → ltb a b ≡ false → b ≤ a
ltb-ge a b h = ground arith

positive : (more n : ℕ) → n < 10 ^ suc more → 10 ≤ n → 0 < more
positive zero n h k = absurd (omega arith)
positive (suc more) n h k = omega arith

smaller : (more n : ℕ) → n < 10 ^ suc more → n / 10 < 10 ^ more
smaller more n h =
    let size : n < 10 ^ more * 10 = subst (λ x. n < x) (pow-suc 10 more) h in omega arith

-- Printed digits are read back, in front of any text.
pub read_digits-digits :
    (more n : ℕ) (t : Bytes)
    → n < 10 ^ more
    → 0 < more
    → read_digits 0 (digits more n ++ t) ≡ read_digits n t
unfolding digits
read_digits-digits zero n t h pos = absurd (omega arith)
read_digits-digits (suc more) n t h pos =
    pick_on (λ (s : Bytes). read_digits 0 (s ++ t) ≡ read_digits n t) (ltb n 10) ((b'0' + n) ∷ []) _
      (λ small.
        read_digits-here 0 n t (ltb→lt n 10 small) ∙ ap (λ v. read_digits v t) (omega arith))
      (λ big.
        let long = positive more n h (ltb-ge n 10 big) in
        ap (read_digits 0) (append_assoc (digits more (n / 10)) _ t)
        ∙ read_digits-digits more (n / 10) ((b'0' + n % 10) ∷ t) (smaller more n h) long
        ∙ read_digits-here (n / 10) (n % 10) t (omega arith)
        ∙ ap (λ v. read_digits v t) (omega arith))

pub length-digits : (more n : ℕ) → length (digits more n) ≤ more
unfolding digits
length-digits zero n = omega arith
length-digits (suc more) n = ground (
  arith,
  length-digits more (n / 10),
  length-append (digits more (n / 10)) ((b'0' + n % 10) ∷ []),
)

pub digits-IsPlain : (more n : ℕ) → IsPlain (digits more n)
unfolding digits
digits-IsPlain zero n = tt
digits-IsPlain (suc more) n =
    pick IsPlain (ltb n 10) _ _ (omega arith, tt)
      (All-append _ (digits more (n / 10)) _ (digits-IsPlain more (n / 10)) (omega arith, tt))

-- The first character of a printed number, whatever is behind it, is a digit.
pub digits-first :
    (more n : ℕ) (t : Bytes) (d : ℕ)
    → n < 10 ^ more
    → 0 < more
    → within b'0' b'9' (get_or (digits more n ++ t) 0 d) ≡ true
unfolding digits
digits-first zero n t d h pos = absurd (omega arith)
digits-first (suc more) n t d h pos =
    pick_on (λ (s : Bytes). within b'0' b'9' (get_or (s ++ t) 0 d) ≡ true) (ltb n 10)
      ((b'0' + n) ∷ []) _ (λ small. ground (arith, ltb→lt n 10 small))
      (λ big.
        ap (λ (s : Bytes). within b'0' b'9' (get_or s 0 d))
          (append_assoc (digits more (n / 10)) _ t)
        ∙ digits-first more (n / 10) _ d (smaller more n h) (positive more n h (ltb-ge n 10 big)))
