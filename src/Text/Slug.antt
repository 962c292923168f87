-- ===== src/Text/Slug.antt =====
-- src/util.c, `asngn_slug_valid`: session and project names.
use asterism_asngn.Common.{
  ℕ, suc, ◌+◌, ◌≤◌, ◌≡◌, ◌↔◌, Bool, true, false, not, ◌||◌, [], ◌∷◌, arith, ltb, within, ◌==◌,
  if◌then◌else◌, Bytes, length, All,
}

unfoldable pub is_slug_start : ℕ → Bool
is_slug_start ch = within b'a' b'z' ch || within b'0' b'9' ch

unfoldable pub is_slug_char : ℕ → Bool
is_slug_char ch = within b'a' b'z' ch || within b'0' b'9' ch || ch == b'-'

-- The loop from index `i`; the string ends where the list does.
unfoldable pub slug_loop : ℕ → Bytes → Bool
slug_loop i [] = true
slug_loop i (ch ∷ s) =
    if ltb 63 i then false else if not (is_slug_char ch) then false else slug_loop (suc i) s

-- A NUL-terminated string is the list of its bytes: `s[0]` of the empty one is NUL.
unfoldable pub slug_valid : Bytes → Bool
unfolding slug_loop is_slug_start is_slug_char
slug_valid [] = false
slug_valid (ch ∷ s) = if not (is_slug_start ch) then false else slug_loop 1 s

slug_loop_iff :
    (i : ℕ) (s : Bytes)
    → i ≤ 64
    → (slug_loop i s ≡ true) ↔ ((i + length s ≤ 64) × All (λ ch. is_slug_char ch ≡ true) s)
unfolding slug_loop
slug_loop_iff i [] h = ground arith
slug_loop_iff i (ch ∷ s) h = ground (arith, slug_loop_iff (suc i) s)

-- 1 to 64 bytes, the first a lower-case letter or a digit, each other one of those or a dash.
abbrev pub IsSlug : Bytes → Type 0
IsSlug [] = ⊥
IsSlug (ch ∷ s) = (is_slug_start ch ≡ true) × All (λ x. is_slug_char x ≡ true) s × (length s ≤ 63)

-- A name is accepted exactly when it has 1 to 64 bytes, the first a lower-case letter or a digit and
-- each of the others one of those or a dash.
pub slug_valid_iff : (s : Bytes) → (slug_valid s ≡ true) ↔ IsSlug s
unfolding slug_valid
slug_valid_iff [] = ground arith
slug_valid_iff (ch ∷ s) = ground (arith, slug_loop_iff 1 s)
