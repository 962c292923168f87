-- ===== src/Uuid/Roundtrip.antt =====
-- Formatting an identifier and reading it back.
use Prim.Native.Nat.{bit_and, bit_or}
use asterism_asngn.Common.{
  ℕ, zero, suc, ◌+◌, ◌/◌, ◌%◌, ◌<◌, ◌≡◌, refl, ◌∙◌, ap, Bool, true, false, not, ◌&&◌, some, [], ◌∷◌,
  ltb, ◌==◌, Bytes, IsBytes, length, get_or, arith,
}
use asterism_asngn.Common.Words.{all_below, all_below_sound}
use asterism_asngn.Uuid.{
  hex_digit, format_loop, uuid_from_bytes, stamp_loop, uuid_v4, is_hex, char_ok, uuid_valid,
  byte_of, read_loop, uuid_to_bytes,
}

-- The two digits of a byte are hexadecimal, are no dash, and stand for the byte.
abbrev good_digits : ℕ → Bool
good_digits b =
    (is_hex (hex_digit (b / 16)) && is_hex (hex_digit (b % 16)))
    && (not (hex_digit (b / 16) == b'-') && byte_of (hex_digit (b / 16)) (hex_digit (b % 16)) == b)

good_digits_table : all_below 256 good_digits ≡ true
unfolding all_below byte_of hex_digit
good_digits_table = refl

record Digits (b : ℕ) : Type 0 where
  high_hex : is_hex (hex_digit (b / 16)) ≡ true
  low_hex : is_hex (hex_digit (b % 16)) ≡ true
  no_dash : (hex_digit (b / 16) == b'-') ≡ false
  value : byte_of (hex_digit (b / 16)) (hex_digit (b % 16)) ≡ b

digits : (b : ℕ) → b < 256 → Digits b
digits b h = ground (arith, all_below_sound 256 good_digits b h good_digits_table)

read_loop-format_loop : (i : ℕ) (bs : Bytes) → IsBytes bs → read_loop (format_loop i bs) ≡ bs
unfolding read_loop format_loop
read_loop-format_loop i [] h = refl
read_loop-format_loop i (b ∷ bs) h =
    let d = digits b h.0 in ground (arith, d.no_dash, d.value, read_loop-format_loop (suc i) bs h.1)

uuid_valid-uuid_from_bytes :
    (bs : Bytes) → length bs ≡ 16 → IsBytes bs → uuid_valid (uuid_from_bytes bs) ≡ true
unfolding uuid_valid uuid_from_bytes char_ok
uuid_valid-uuid_from_bytes
      (b0 ∷ b1 ∷ b2 ∷ b3 ∷ b4 ∷ b5 ∷ b6 ∷ b7 ∷ b8 ∷ b9 ∷ b10 ∷ b11 ∷ b12 ∷ b13 ∷ b14 ∷ b15 ∷ []) e
      h =
    let d0 = digits b0 h.0 in
    let d1 = digits b1 h.1.0 in
    let d2 = digits b2 h.1.1.0 in
    let d3 = digits b3 h.1.1.1.0 in
    let d4 = digits b4 h.1.1.1.1.0 in
    let d5 = digits b5 h.1.1.1.1.1.0 in
    let d6 = digits b6 h.1.1.1.1.1.1.0 in
    let d7 = digits b7 h.1.1.1.1.1.1.1.0 in
    let d8 = digits b8 h.1.1.1.1.1.1.1.1.0 in
    let d9 = digits b9 h.1.1.1.1.1.1.1.1.1.0 in
    let d10 = digits b10 h.1.1.1.1.1.1.1.1.1.1.0 in
    let d11 = digits b11 h.1.1.1.1.1.1.1.1.1.1.1.0 in
    let d12 = digits b12 h.1.1.1.1.1.1.1.1.1.1.1.1.0 in
    let d13 = digits b13 h.1.1.1.1.1.1.1.1.1.1.1.1.1.0 in
    let d14 = digits b14 h.1.1.1.1.1.1.1.1.1.1.1.1.1.1.0 in
    let d15 = digits b15 h.1.1.1.1.1.1.1.1.1.1.1.1.1.1.1.0 in
    rw (
      d0.high_hex, d0.low_hex, d1.high_hex, d1.low_hex, d2.high_hex, d2.low_hex, d3.high_hex,
      d3.low_hex, d4.high_hex, d4.low_hex, d5.high_hex, d5.low_hex, d6.high_hex, d6.low_hex,
      d7.high_hex, d7.low_hex, d8.high_hex, d8.low_hex, d9.high_hex, d9.low_hex, d10.high_hex,
      d10.low_hex, d11.high_hex, d11.low_hex, d12.high_hex, d12.low_hex, d13.high_hex, d13.low_hex,
      d14.high_hex, d14.low_hex, d15.high_hex, d15.low_hex,
    )
uuid_valid-uuid_from_bytes bs e h = absurd (omega arith)

-- An identifier that is formatted from 16 bytes is valid, and reads back as those bytes.
pub uuid_to_bytes-uuid_from_bytes :
    (bs : Bytes) → length bs ≡ 16 → IsBytes bs → uuid_to_bytes (uuid_from_bytes bs) ≡ some bs
unfolding uuid_to_bytes uuid_from_bytes
uuid_to_bytes-uuid_from_bytes bs e h =
    rw (uuid_valid-uuid_from_bytes bs e h, read_loop-format_loop 0 bs h)

-- Bytes 6 and 8 after their stamps.
abbrev stamped : ℕ → Bool
stamped b =
    (ltb (bit_or (bit_and b 0x0f) 0x40) 256 && bit_or (bit_and b 0x0f) 0x40 / 16 == 4)
    && (ltb (bit_or (bit_and b 0x3f) 0x80) 256 && bit_or (bit_and b 0x3f) 0x80 / 64 == 2)

stamped_table : all_below 256 stamped ≡ true
unfolding all_below
stamped_table = refl

IsBytes-stamp_loop : (i : ℕ) (bs : Bytes) → IsBytes bs → IsBytes (stamp_loop i bs)
unfolding stamp_loop
IsBytes-stamp_loop i [] h = tt
IsBytes-stamp_loop i (b ∷ bs) h = (
  ground (arith, all_below_sound 256 stamped b h.0 stamped_table),
  IsBytes-stamp_loop (suc i) bs h.1,
)

length-stamp_loop : (i : ℕ) (bs : Bytes) → length (stamp_loop i bs) ≡ length bs
unfolding stamp_loop
length-stamp_loop i [] = refl
length-stamp_loop i (b ∷ bs) = ap suc (length-stamp_loop (suc i) bs)

get_or-stamp_loop :
    (i k : ℕ) (bs : Bytes)
    → IsBytes bs
    → k < length bs
    → (i + k ≡ 6 → get_or (stamp_loop i bs) k 0 / 16 ≡ 4)
      × (i + k ≡ 8 → get_or (stamp_loop i bs) k 0 / 64 ≡ 2)
unfolding stamp_loop
get_or-stamp_loop i k [] h below = absurd (omega arith)
get_or-stamp_loop i zero (b ∷ bs) h below =
    ground (arith, all_below_sound 256 stamped b h.0 stamped_table)
get_or-stamp_loop i (suc k) (b ∷ bs) h below =
    let (six, eight) = get_or-stamp_loop (suc i) k bs h.1 (omega arith) in
    (λ e. six (omega arith), λ e. eight (omega arith))

-- From any 16 random bytes comes a valid identifier of version 4 and of the RFC 4122 variant: read
-- back, byte 6 has the high digit 4 and byte 8 the high bits 10.
pub uuid_v4-version :
    (random : Bytes)
    → length random ≡ 16
    → IsBytes random
    → (bs : Bytes) × (uuid_to_bytes (uuid_v4 random) ≡ some bs)
      × (get_or bs 6 0 / 16 ≡ 4)
      × (get_or bs 8 0 / 64 ≡ 2)
unfolding uuid_v4
uuid_v4-version random e h = (
  stamp_loop 0 random,
  uuid_to_bytes-uuid_from_bytes (stamp_loop 0 random) (length-stamp_loop 0 random ∙ e)
      (IsBytes-stamp_loop 0 random h),
  (get_or-stamp_loop 0 6 random h (omega arith)).0 (omega arith),
  (get_or-stamp_loop 0 8 random h (omega arith)).1 (omega arith),
)
