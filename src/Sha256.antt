-- ===== src/Sha256.antt =====
-- src/sha256.c: the streaming SHA-256.
pub mod Absorb
pub mod Streaming
pub mod Digest
use Prim.Native.Nat.{bit_and, bit_or, bit_xor}
use asterism_asngn.Common.{
  ℕ, zero, suc, ◌+◌, ◌-◌, ◌*◌, ◌/◌, ◌%◌, ◌^◌, min, Bool, List, [], ◌∷◌, ◌++◌, leb, ltb, ◌==◌, ◌&&◌,
  if◌then◌else◌, Bytes, length, take, drop, get_or,
}
use asterism_asngn.Common.Words.{u32_mod, u64_mod}

-- The eight words of `state`, as the locals `a` to `h` of a round as well.
pub record State : Type 0 where
  pub s0 : ℕ
  pub s1 : ℕ
  pub s2 : ℕ
  pub s3 : ℕ
  pub s4 : ℕ
  pub s5 : ℕ
  pub s6 : ℕ
  pub s7 : ℕ

-- `buflen` is the length of `buffer`: what lies behind it is never read.
pub record Ctx : Type 0 where
  pub state : State
  pub bitlen : ℕ
  pub buffer : Bytes

-- `ROR` on a 32-bit word.
ror : ℕ → ℕ → ℕ
ror x n = bit_or (x / 2 ^ n) (x * 2 ^ (32 - n) % u32_mod)

abbrev add32 : ℕ → ℕ → ℕ
add32 a b = (a + b) % u32_mod

abbrev xor3 : ℕ → ℕ → ℕ → ℕ
xor3 a b c = bit_xor (bit_xor a b) c

sha256_k : List ℕ
sha256_k =
    0x428a2f98 ∷ 0x71374491 ∷ 0xb5c0fbcf ∷ 0xe9b5dba5 ∷ 0x3956c25b ∷ 0x59f111f1 ∷ 0x923f82a4
    ∷ 0xab1c5ed5 ∷ 0xd807aa98 ∷ 0x12835b01 ∷ 0x243185be ∷ 0x550c7dc3 ∷ 0x72be5d74 ∷ 0x80deb1fe
    ∷ 0x9bdc06a7 ∷ 0xc19bf174 ∷ 0xe49b69c1 ∷ 0xefbe4786 ∷ 0x0fc19dc6 ∷ 0x240ca1cc ∷ 0x2de92c6f
    ∷ 0x4a7484aa ∷ 0x5cb0a9dc ∷ 0x76f988da ∷ 0x983e5152 ∷ 0xa831c66d ∷ 0xb00327c8 ∷ 0xbf597fc7
    ∷ 0xc6e00bf3 ∷ 0xd5a79147 ∷ 0x06ca6351 ∷ 0x14292967 ∷ 0x27b70a85 ∷ 0x2e1b2138 ∷ 0x4d2c6dfc
    ∷ 0x53380d13 ∷ 0x650a7354 ∷ 0x766a0abb ∷ 0x81c2c92e ∷ 0x92722c85 ∷ 0xa2bfe8a1 ∷ 0xa81a664b
    ∷ 0xc24b8b70 ∷ 0xc76c51a3 ∷ 0xd192e819 ∷ 0xd6990624 ∷ 0xf40e3585 ∷ 0x106aa070 ∷ 0x19a4c116
    ∷ 0x1e376c08 ∷ 0x2748774c ∷ 0x34b0bcb5 ∷ 0x391c0cb3 ∷ 0x4ed8aa4a ∷ 0x5b9cca4f ∷ 0x682e6ff3
    ∷ 0x748f82ee ∷ 0x78a5636f ∷ 0x84c87814 ∷ 0x8cc70208 ∷ 0x90befffa ∷ 0xa4506ceb ∷ 0xbef9a3f7
    ∷ 0xc67178f2 ∷ []

-- `w[0]` to `w[15]`: big-endian words of the block.
block_words : ℕ → ℕ → Bytes → List ℕ
block_words zero i block = []
block_words (suc n) i block =
    bit_or
      (bit_or (bit_or (get_or block (i * 4) 0 * 2 ^ 24) (get_or block (i * 4 + 1) 0 * 2 ^ 16))
        (get_or block (i * 4 + 2) 0 * 2 ^ 8))
      (get_or block (i * 4 + 3) 0)
    ∷ block_words n (suc i) block

-- `w[i]` from the words before it.
next_word : List ℕ → ℕ → ℕ
unfolding ror
next_word w i =
    let w15 = get_or w (i - 15) 0 in
    let w2 = get_or w (i - 2) 0 in
    let s0 = xor3 (ror w15 7) (ror w15 18) (w15 / 2 ^ 3) in
    let s1 = xor3 (ror w2 17) (ror w2 19) (w2 / 2 ^ 10) in
    add32 (add32 (add32 (get_or w (i - 16) 0) s0) (get_or w (i - 7) 0)) s1

-- The schedule, with `n` words to compute from index `i`.
schedule : ℕ → ℕ → List ℕ → List ℕ
unfolding next_word
schedule zero i w = w
schedule (suc n) i w = schedule n (suc i) (w ++ next_word w i ∷ [])

-- One round; `~e` is the complement on 32 bits.
round : ℕ → ℕ → State → State
unfolding ror
round k w v =
    let s1 = xor3 (ror v.s4 6) (ror v.s4 11) (ror v.s4 25) in
    let ch = bit_xor (bit_and v.s4 v.s5) (bit_and (u32_mod - 1 - v.s4) v.s6) in
    let t1 = add32 (add32 (add32 (add32 v.s7 s1) ch) k) w in
    let s0 = xor3 (ror v.s0 2) (ror v.s0 13) (ror v.s0 22) in
    let maj = xor3 (bit_and v.s0 v.s1) (bit_and v.s0 v.s2) (bit_and v.s1 v.s2) in
    let t2 = add32 s0 maj in
    record {
      s0 = add32 t1 t2;
      s1 = v.s0;
      s2 = v.s1;
      s3 = v.s2;
      s4 = add32 v.s3 t1;
      s5 = v.s4;
      s6 = v.s5;
      s7 = v.s6;
    }

-- The loop over the constants and the schedule.
rounds : List ℕ → List ℕ → State → State
unfolding round
rounds (k ∷ ks) (w ∷ ws) v = rounds ks ws (round k w v)
rounds _ _ v = v

pub transform : State → Bytes → State
unfolding rounds sha256_k schedule block_words
transform st block =
    let v = rounds sha256_k (schedule 48 16 (block_words 16 0 block)) st in
    record {
      s0 = add32 st.s0 v.s0;
      s1 = add32 st.s1 v.s1;
      s2 = add32 st.s2 v.s2;
      s3 = add32 st.s3 v.s3;
      s4 = add32 st.s4 v.s4;
      s5 = add32 st.s5 v.s5;
      s6 = add32 st.s6 v.s6;
      s7 = add32 st.s7 v.s7;
    }

pub init : Ctx
init = record {
  state = record {
    s0 = 0x6a09e667;
    s1 = 0xbb67ae85;
    s2 = 0x3c6ef372;
    s3 = 0xa54ff53a;
    s4 = 0x510e527f;
    s5 = 0x9b05688c;
    s6 = 0x1f83d9ab;
    s7 = 0x5be0cd19;
  };
  bitlen = 0;
  buffer = [];
}

-- The body of the loop of `asngn_sha256_update` on the bytes left: the context, and the bytes behind
-- those consumed. The first branch hashes a block from the input, past an empty buffer.
pub update_step : Ctx → Bytes → Ctx × Bytes
update_step c p =
    let space = min (64 - length c.buffer) (length p) in
    let filled = c.buffer ++ take space p in
    if length c.buffer == 0 && leb 64 (length p)
    then (record c { state = transform c.state (take 64 p) }, drop 64 p)
    else if length filled == 64
    then (record c { state = transform c.state filled; buffer = [] }, drop space p)
    else (record c { buffer = filled }, drop space p)

-- `while (len > 0)`, on fuel: a round consumes a byte at least.
update_loop : ℕ → Ctx → Bytes → Ctx
update_loop zero c p = c
update_loop (suc fuel) c [] = c
update_loop (suc fuel) c (b ∷ p) =
    let (c', rest) = update_step c (b ∷ p) in update_loop fuel c' rest

pub update : Ctx → Bytes → Ctx
update c p =
    update_loop (length p) (record c { bitlen = (c.bitlen + length p * 8 % u64_mod) % u64_mod }) p

-- `while (ctx->buflen != 56)`, on fuel: at most 64 zero bytes are missing.
pub pad_loop : ℕ → Ctx → Ctx
pad_loop zero c = c
pad_loop (suc fuel) c =
    let padded = pad_loop fuel (update c (0 ∷ [])) in if length c.buffer == 56 then c else padded

-- `(uint8_t)(bits >> (56 - 8 * i))` for `i` from 0 to 7.
pub length_bytes : ℕ → Bytes
length_bytes bits =
    (bits / 2 ^ 56 % 256)
    ∷ (bits / 2 ^ 48 % 256)
    ∷ (bits / 2 ^ 40 % 256)
    ∷ (bits / 2 ^ 32 % 256)
    ∷ (bits / 2 ^ 24 % 256)
    ∷ (bits / 2 ^ 16 % 256)
    ∷ (bits / 2 ^ 8 % 256)
    ∷ (bits % 256)
    ∷ []

word_bytes : ℕ → Bytes
word_bytes w = (w / 2 ^ 24 % 256) ∷ (w / 2 ^ 16 % 256) ∷ (w / 2 ^ 8 % 256) ∷ (w % 256) ∷ []

pub state_bytes : State → Bytes
state_bytes v =
    word_bytes v.s0
    ++ (word_bytes v.s1
        ++ (word_bytes v.s2
            ++ (word_bytes v.s3
                ++ (word_bytes v.s4 ++ (word_bytes v.s5 ++ (word_bytes v.s6 ++ word_bytes v.s7))))))

pub final : Ctx → Bytes
final c =
    let padded = pad_loop 64 (update c (0x80 ∷ [])) in
    state_bytes (update padded (length_bytes c.bitlen)).state

pub sha256 : Bytes → Bytes
sha256 p = final (update init p)

hex_digit : ℕ → ℕ
hex_digit n = if ltb n 10 then b'0' + n else b'a' + (n - 10)

-- The loop of `asngn_sha256_hex`, on the first `n` bytes.
hex_loop : Bytes → Bytes
unfolding hex_digit
hex_loop [] = []
hex_loop (b ∷ s) = hex_digit (b / 16) ∷ hex_digit (b % 16) ∷ hex_loop s

pub sha256_hex : Bytes → ℕ → Bytes
unfolding hex_loop
sha256_hex hash n = hex_loop (take (min n 32) hash)
