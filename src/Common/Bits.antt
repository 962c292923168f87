-- ===== src/Common/Bits.antt =====
-- The binary digits of a word, and what `&` and `|` do to each of them.
use Prim.Native.Nat.{
  ℕ, zero, suc, ◌/◌, ◌%◌, ◌^◌, ◌≤◌, ◌<◌, min, max, bit_and, bit_or, digits, bit_and-bitwise,
  bit_or-bitwise,
}
use mathlib.Core.Path.{◌≡◌, refl, sym, ◌∙◌, ap}
use native.Mathlib.Omega.{arith}
use native.Mathlib.Nat.{pow-suc}
use mathlib.Core.Logic.{◌⊎◌, inl, inr}
use mathlib.Core.Bool.{Bool, true, false}
use asterism_asngn.Common.Tests.{◌==◌, ==_iff, if◌then◌else◌, Bool-cases}

-- Digit `k` of a word, 0 or 1.
unfoldable pub bit : ℕ → ℕ → ℕ
bit w zero = w % 2
bit w (suc k) = bit (w / 2) k

pub bit_zero : (k : ℕ) → bit 0 k ≡ 0
unfolding bit
bit_zero zero = refl
bit_zero (suc k) = bit_zero k

pub bit-lt : (w k : ℕ) → bit w k < 2
unfolding bit
bit-lt w zero = omega arith
bit-lt w (suc k) = bit-lt (w / 2) k

-- `rest` is the result where the first word has run out, `digit` the operation on two digits.
module _ (rest : ℕ → ℕ) (digit : ℕ → ℕ → ℕ) (rest_low : (w : ℕ) → rest w % 2 ≡ digit 0 (w % 2))
    (rest_high : (w : ℕ) → rest w / 2 ≡ rest (w / 2))
    (small : (v w : ℕ) → digit (v % 2) (w % 2) < 2) where
  bit-rest : (w k : ℕ) → bit (rest w) k ≡ digit 0 (bit w k)
  unfolding bit
  bit-rest w zero = rest_low w
  bit-rest w (suc k) = ap (λ x. bit x k) (rest_high w) ∙ bit-rest (w / 2) k

  bit-digits : (n v w k : ℕ) → v ≤ n → bit (digits rest digit n v w) k ≡ digit (bit v k) (bit w k)
  unfolding bit
  bit-digits zero zero w k h = bit-rest w k ∙ ap (λ d. digit d (bit w k)) (sym (bit_zero k))
  bit-digits zero (suc v) w k h = absurd (omega arith)
  bit-digits (suc n) zero w k h = bit-rest w k ∙ ap (λ d. digit d (bit w k)) (sym (bit_zero k))
  bit-digits (suc n) (suc v) w zero h = omega (arith, small (suc v) w)
  bit-digits (suc n) (suc v) w (suc k) h =
      ap (λ x. bit x k) (omega (arith, small (suc v) w))
      ∙ bit-digits n (suc v / 2) (w / 2) k (omega arith)

-- A digit of `v & w` and of `v | w`.
pub bit-bit_and : (v w k : ℕ) → bit (bit_and v w) k ≡ min (bit v k) (bit w k)
bit-bit_and v w k =
    ap (λ x. bit x k) (λ i. bit_and-bitwise v w i)
    ∙ bit-digits (λ b. zero) min (λ x. omega arith) (λ x. omega arith) (λ x y. omega arith) v v w k
        (omega arith)

pub bit-bit_or : (v w k : ℕ) → bit (bit_or v w) k ≡ max (bit v k) (bit w k)
bit-bit_or v w k =
    ap (λ x. bit x k) (λ i. bit_or-bitwise v w i)
    ∙ bit-digits (λ b. b) max (λ x. omega arith) (λ x. refl) (λ x y. omega arith) v v w k
        (omega arith)

-- `1u << i` has the one digit `i`.
pub bit-pow : (i k : ℕ) → bit (2 ^ i) k ≡ (if i == k then 1 else 0)
unfolding bit
bit-pow zero zero = refl
bit-pow zero (suc k) = bit_zero k ∙ ground arith
bit-pow (suc i) zero = rw (pow-suc 2 i) (ground arith)
bit-pow (suc i) (suc k) =
    ap (λ x. bit x k) (rw (pow-suc 2 i) (omega arith)) ∙ bit-pow i k ∙ ground arith

-- `(need & have) == need`: each digit of the one is a digit of the other.
pub bit-covered : (need have k : ℕ) → bit_and need have ≡ need → bit need k ≡ 1 → bit have k ≡ 1
bit-covered need have k covered set =
    let e = sym (bit-bit_and need have k) ∙ ap (λ w. bit w k) covered in
    omega (arith, e, set, bit-lt have k)

-- `if (b) w |= 1u << i`: a digit of the result was there before, or is the one that was added.
pub bit-added :
    (b : Bool) (i w k : ℕ)
    → bit (if b then bit_or w (2 ^ i) else w) k ≡ 1
    → (bit w k ≡ 1) ⊎ ((i ≡ k) × (b ≡ true))
bit-added false i w k h = inl h
bit-added true i w k h = elim (Bool-cases (i == k)) [
  | inl e ↦ inr ((==_iff i k).0 e, refl)
  | inr other ↦
      let clear : bit (2 ^ i) k ≡ 0 = bit-pow i k ∙ rw other in
      inl (omega (arith, bit-bit_or w (2 ^ i) k, bit-lt w k))
]
