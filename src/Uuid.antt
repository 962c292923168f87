-- ===== src/Uuid.antt =====
-- src/uuid.c: identifiers of turns, actions and approvals.
pub mod Roundtrip
use Prim.Native.Nat.{bit_and, bit_or}
use asterism_asngn.Common.{
  ℕ, zero, suc, ◌+◌, ◌-◌, ◌*◌, ◌/◌, ◌%◌, Bool, true, false, not, ◌&&◌, ◌||◌, Option, none, some,
  List, [], ◌∷◌, ◌++◌, ltb, within, ◌==◌, if◌then◌else◌, Bytes,
}

-- `uuid_hexd[n]`.
unfoldable pub hex_digit : ℕ → ℕ
hex_digit n = if ltb n 10 then b'0' + n else b'a' + (n - 10)

unfoldable pub dash_before : ℕ → Bool
dash_before i = i == 4 || i == 6 || i == 8 || i == 10

-- The loop of `asngn_uuid_from_bytes` from byte `i`.
unfoldable pub format_loop : ℕ → Bytes → Bytes
unfolding dash_before hex_digit
format_loop i [] = []
format_loop i (b ∷ bs) =
    let rest = hex_digit (b / 16) ∷ hex_digit (b % 16) ∷ format_loop (suc i) bs in
    if dash_before i then b'-' ∷ rest else rest

-- `asngn_uuid_from_bytes`, on the 16 bytes.
unfoldable pub uuid_from_bytes : Bytes → Bytes
unfolding format_loop
uuid_from_bytes bs = format_loop 0 bs

-- `asngn_uuid_v4` stamps bytes 6 and 8 of the random ones.
unfoldable pub stamp_loop : ℕ → Bytes → Bytes
stamp_loop i [] = []
stamp_loop i (b ∷ bs) =
    (if i == 6
      then bit_or (bit_and b 0x0f) 0x40
      else if i == 8
      then bit_or (bit_and b 0x3f) 0x80
      else b)
    ∷ stamp_loop (suc i) bs

unfoldable pub uuid_v4 : Bytes → Bytes
unfolding stamp_loop uuid_from_bytes
uuid_v4 random = uuid_from_bytes (stamp_loop 0 random)

-- `hex_val`; none is -1.
unfoldable pub hex_val : ℕ → Option ℕ
hex_val ch =
    if within b'0' b'9' ch
    then some (ch - b'0')
    else if within b'a' b'f' ch
    then some (ch - b'a' + 10)
    else if within b'A' b'F' ch
    then some (ch - b'A' + 10)
    else none

abbrev pub is_hex : ℕ → Bool
is_hex ch = elim (hex_val ch) [ none ↦ false | some v ↦ true ]

unfoldable pub char_ok : ℕ → ℕ → Bool
unfolding hex_val
char_ok i ch = if i == 8 || i == 13 || i == 18 || i == 23 then ch == b'-' else is_hex ch

-- The loop with `n` rounds to go at index `i`, and the test for the NUL behind it.
unfoldable pub valid_loop : ℕ → ℕ → Bytes → Bool
unfolding char_ok
valid_loop zero i [] = true
valid_loop zero i (ch ∷ s) = false
valid_loop (suc n) i [] = false
valid_loop (suc n) i (ch ∷ s) = if char_ok i ch then valid_loop n (suc i) s else false

unfoldable pub uuid_valid : Bytes → Bool
unfolding valid_loop
uuid_valid s = valid_loop 36 0 s

abbrev hex_or_zero : ℕ → ℕ
hex_or_zero ch = elim (hex_val ch) [ none ↦ 0 | some v ↦ v ]

-- `(uint8_t)((hex_val(s[i]) << 4) | hex_val(s[i + 1]))`.
unfoldable pub byte_of : ℕ → ℕ → ℕ
unfolding hex_val
byte_of hi lo = bit_or (hex_or_zero hi * 16) (hex_or_zero lo) % 256

-- The loop of `asngn_uuid_to_bytes`, on the text left; a valid text has no lone digit.
unfoldable pub read_loop : Bytes → Bytes
unfolding byte_of
read_loop [] = []
read_loop (a ∷ []) = []
read_loop (a ∷ b ∷ s) =
    let skipped = read_loop (b ∷ s) in
    let read = byte_of a b ∷ read_loop s in if a == b'-' then skipped else read

unfoldable pub uuid_to_bytes : Bytes → Option Bytes
unfolding uuid_valid read_loop
uuid_to_bytes s = if not (uuid_valid s) then none else some (read_loop s)
