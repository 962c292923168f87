-- ===== src/Text/Utf8.antt =====
-- src/util.c, `asngn_utf8_valid`, and src/safety.c, `utf8_invalid_offset`.
-- A `const char *` with its length is a list of bytes; the index `i` of the loops is the suffix
-- that is left to read.
pub mod Scalars
pub mod Sequences
pub mod Validity
pub mod Offset
use Prim.Native.Nat.{bit_and}
use asterism_asngn.Common.{
  ℕ, zero, suc, ◌+◌, Bool, true, false, not, ◌&&◌, ◌||◌, Option, none, some, List, [], ◌∷◌, ltb,
  ◌==◌, within, if◌then◌else◌, Bytes, length, take, drop,
}

-- `(b & 0xC0) == 0x80`.
unfoldable pub is_cont : ℕ → Bool
is_cont b = bit_and b 0xC0 == 0x80

-- The tests on the second, the third and the fourth byte; a missing byte is `len - i < n`.
unfoldable pub tail_two : (ℕ → Bool) → Bytes → Option Bytes
tail_two second (a ∷ s) = if second a then some s else none
tail_two second [] = none

unfoldable pub tail_three : (ℕ → Bool) → Bytes → Option Bytes
tail_three second (a ∷ b ∷ s) = if second a && is_cont b then some s else none
tail_three second (a ∷ []) = none
tail_three second [] = none

unfoldable pub tail_four : (ℕ → Bool) → Bytes → Option Bytes
tail_four second (a ∷ b ∷ c ∷ s) = if second a && is_cont b && is_cont c then some s else none
tail_four second (a ∷ b ∷ []) = none
tail_four second (a ∷ []) = none
tail_four second [] = none

-- One round of the loop: what is left behind the sequence that starts with `b`, or a refusal.
unfoldable pub utf8_sequence : ℕ → Bytes → Option Bytes
unfolding tail_two tail_three tail_four
utf8_sequence b s =
    if ltb b 0x80
    then some s
    else if within 0xC2 0xDF b
    then tail_two is_cont s
    else if b == 0xE0
    then tail_three (within 0xA0 0xBF) s
    else if within 0xE1 0xEC b
    then tail_three is_cont s
    else if b == 0xED
    then tail_three (within 0x80 0x9F) s
    else if within 0xEE 0xEF b
    then tail_three is_cont s
    else if b == 0xF0
    then tail_four (within 0x90 0xBF) s
    else if within 0xF1 0xF3 b
    then tail_four is_cont s
    else if b == 0xF4
    then tail_four (within 0x80 0x8F) s
    else none

-- The loop, on fuel: a round consumes at least one byte.
unfoldable pub utf8_loop : ℕ → Bytes → Bool
utf8_loop fuel [] = true
utf8_loop zero (b ∷ s) = false
utf8_loop (suc fuel) (b ∷ s) = elim (utf8_sequence b s) [
  | none ↦ false
  | some rest ↦ utf8_loop fuel rest
]

unfoldable pub utf8_valid : Bytes → Bool
unfolding utf8_loop
utf8_valid s = utf8_loop (length s) s

-- The length that the lead byte announces; `none` is the early return.
unfoldable pub lead_length : ℕ → Option ℕ
lead_length b =
    if ltb b 0x80
    then some 1
    else if within 0xC2 0xDF b
    then some 2
    else if within 0xE0 0xEF b
    then some 3
    else if within 0xF0 0xF4 b
    then some 4
    else none

-- `l > len - i || !asngn_utf8_valid(s + i, l)`.
unfoldable pub bad_sequence : ℕ → Bytes → Bool
bad_sequence l s = ltb (length s) l || not (utf8_valid (take l s))

-- The loop of `utf8_invalid_offset`, on fuel; `i` counts the bytes read, `s` are those left.
unfoldable pub invalid_offset_loop : ℕ → ℕ → Bytes → ℕ
invalid_offset_loop fuel i [] = i
invalid_offset_loop zero i (b ∷ s) = i
invalid_offset_loop (suc fuel) i (b ∷ s) = elim (lead_length b) [
  | none ↦ i
  | some l ↦
      let rest = invalid_offset_loop fuel (i + l) (drop l (b ∷ s)) in
      if bad_sequence l (b ∷ s) then i else rest
]

unfoldable pub utf8_invalid_offset : Bytes → ℕ
unfolding invalid_offset_loop
utf8_invalid_offset s = invalid_offset_loop (length s) 0 s
