-- ===== src/Sha256/Digest.antt =====
-- Proofs on `asngn_sha256` of src/sha256.c against one pass over the padded message.
use asterism_asngn.Common.{
  ℕ, min, zero, suc, ◌+◌, ◌-◌, ◌*◌, ◌%◌, ◌≤◌, ◌<◌, ◌≡◌, refl, ◌∙◌, sym, subst, ap, inl, inr, false,
  [], ◌∷◌, ◌++◌, append_assoc, append-nil, arith, leb, leb→le, leb-false, ◌==◌, ==_iff, ==-false,
  Bytes, IsBytes, All, length, length-append, length-drop, take, drop, length-take, ap₂, Bool-cases,
}
use asterism_asngn.Common.Words.{u64_mod}
use asterism_asngn.Sha256.{
  State, Ctx, transform, init, update, pad_loop, length_bytes, word_bytes, state_bytes, final,
  sha256, hex_digit, hex_loop, sha256_hex,
}
use asterism_asngn.Sha256.Absorb.{absorb}
use asterism_asngn.Sha256.Streaming.{update-Absorbs, update-append}

abbrev pub zeros : ℕ → Bytes
zeros zero = []
zeros (suc k) = 0 ∷ zeros k

length-zeros : (k : ℕ) → length (zeros k) ≡ k
length-zeros zero = refl
length-zeros (suc k) = ap suc (length-zeros k)

absorb-mod :
    (n : ℕ) (st : State) (x : Bytes) → length x ≤ n → length (absorb n st x).1 ≡ length x % 64
unfolding absorb
absorb-mod zero st x h = omega arith
absorb-mod (suc n) st x h = elim (Bool-cases (leb 64 (length x))) [
  | inr short ↦ rw short (omega (arith, leb-false 64 (length x) short))
  | inl whole ↦
      let long = leb→le 64 (length x) whole in
      rw whole (
        omega (
          arith,
          length-drop 64 x,
          absorb-mod n (transform st (take 64 x)) (drop 64 x) (omega (arith, length-drop 64 x)),
        ))
]

-- How many bytes an update leaves in the buffer.
pub update-length :
    (c : Ctx) (p : Bytes)
    → length c.buffer < 64
    → length (update c p).buffer ≡ (length c.buffer + length p) % 64
update-length c p h =
    let (small, bits, same) = update-Absorbs c p h in
    let n = length (c.buffer ++ p) in
    let kept = ap (λ (r : State × Bytes). length r.1) (same n (omega arith)) in
    omega
      (arith, kept, absorb-mod n c.state (c.buffer ++ p) (omega arith), length-append c.buffer p)

-- `56 - n`, counted on past 64: the zero bytes that the padding still writes.
abbrev gap : ℕ → ℕ
gap n = (120 - n) % 64

-- Padding only adds zero bytes, and ends with 56 bytes in the buffer.
abbrev Padding : Ctx → Bytes → Ctx → Type 0
Padding c p d = (k : ℕ) × (d ≡ update c (p ++ zeros k)) × (length d.buffer ≡ 56)

pad_loop-here :
    (fuel : ℕ) (c : Ctx) (p : Bytes)
    → length (update c p).buffer ≡ 56
    → Padding c p (pad_loop (suc fuel) (update c p))
unfolding pad_loop
pad_loop-here fuel c p e = rw e (0, ap (update c) (sym (append-nil p)), e)

pad_loop-more :
    (fuel : ℕ) (c : Ctx) (p : Bytes)
    → length c.buffer < 64
    → (length (update c p).buffer == 56) ≡ false
    → Padding c (p ++ 0 ∷ []) (pad_loop fuel (update c (p ++ 0 ∷ [])))
    → Padding c p (pad_loop (suc fuel) (update c p))
unfolding pad_loop
pad_loop-more fuel c p h short (k, same, full) =
    let once = update-append c p (0 ∷ []) h in
    let step : pad_loop fuel (update c (p ++ 0 ∷ [])) ≡ pad_loop (suc fuel) (update c p) =
      rw (short, once) in
    subst (λ d. Padding c p d) step
      (suc k, same ∙ ap (update c) (append_assoc p (0 ∷ []) (zeros k)), full)

pad_loop-Padding :
    (fuel : ℕ) (c : Ctx) (p : Bytes)
    → length c.buffer < 64
    → gap (length (update c p).buffer) ≤ fuel
    → Padding c p (pad_loop (suc fuel) (update c p))
pad_loop-Padding zero c p h k = pad_loop-here zero c p (omega (arith, update-length c p h))
pad_loop-Padding (suc fuel) c p h k = elim (Bool-cases (length (update c p).buffer == 56)) [
  | inl full ↦ pad_loop-here (suc fuel) c p ((==_iff _ _).0 full)
  | inr short ↦
      let longer = update-length c (p ++ 0 ∷ []) h in
      let before = update-length c p h in
      let closer : gap (length (update c (p ++ 0 ∷ [])).buffer) ≤ fuel =
        omega (arith, ==-false (length (update c p).buffer) 56 short, length-append p (0 ∷ [])) in
      pad_loop-more (suc fuel) c p h short (pad_loop-Padding fuel c (p ++ 0 ∷ []) h closer)
]

-- The message, a byte 0x80, zero bytes up to 8 less than a multiple of 64, and the bit count.
abbrev pub padded : Bytes → ℕ → Bytes
padded p k = ((p ++ 0x80 ∷ []) ++ zeros k) ++ length_bytes (length p * 8 % u64_mod)

pub init-buffer : length init.buffer < 64
unfolding init
init-buffer = omega arith

init-bits : (p : Bytes) → (update init p).bitlen ≡ length p * 8 % u64_mod
init-bits p = (update-Absorbs init p init-buffer).1 ∙ unfold init in omega arith

init-length : length init.buffer ≡ 0
unfolding init
init-length = refl

one_pass :
    (x : Bytes) (n : ℕ)
    → length x ≤ n
    → ◌≡◌ {A = State × Bytes}
        ((update init x).state, (update init x).buffer)
        (absorb n init.state x)
unfolding init
one_pass x n room = sym ((update-Absorbs init x init-buffer).2 n room)

-- The digest of a message of any length is that of one pass over whole blocks: the message padded
-- to a multiple of 64 bytes by a byte 0x80, zeros and its bit count modulo 2^64. No byte is left in
-- the buffer, however the streaming code cut the input.
pub sha256-padded :
    (p : Bytes)
    → (k : ℕ) × (length (padded p k) % 64 ≡ 0)
      × ((n : ℕ)
          → length (padded p k) ≤ n
          → sha256 p ≡ state_bytes (absorb n init.state (padded p k)).0)
unfolding sha256 final length_bytes
sha256-padded p =
    let q = p ++ 0x80 ∷ [] in
    let bits = length_bytes (length p * 8 % u64_mod) in
    let started = update-append init p (0x80 ∷ []) init-buffer in
    let padding =
      pad_loop-Padding 63 init q init-buffer (omega (arith, update-length init q init-buffer)) in
    let k = padding.0 in
    let ends = ap (pad_loop 64) started ∙ padding.1 in
    let whole : update (pad_loop 64 (update (update init p) (0x80 ∷ [])))
          (length_bytes (update init p).bitlen)
        ≡ update init (padded p k) =
      ap₂ update ends (ap length_bytes (init-bits p))
      ∙ update-append init (q ++ zeros k) bits init-buffer in
    let full = subst (λ d. length d.buffer ≡ 56) padding.1 padding.2 in
    (
      k,
      omega (
        arith,
        update-length init (q ++ zeros k) init-buffer,
        full,
        init-length,
        length-append (q ++ zeros k) bits,
      ),
      λ n room.
          ap (λ (d : Ctx). state_bytes d.state) whole
          ∙ ap (λ (r : State × Bytes). state_bytes r.0) (one_pass (padded p k) n room),
    )

length-word_bytes : (w : ℕ) → (length (word_bytes w) ≡ 4) × IsBytes (word_bytes w)
unfolding word_bytes
length-word_bytes w = omega arith

-- A digest has 32 bytes.
pub length-sha256 : (p : Bytes) → length (sha256 p) ≡ 32
unfolding sha256 final state_bytes word_bytes
length-sha256 p = omega arith

length-hex_loop : (s : Bytes) → length (hex_loop s) ≡ 2 * length s
unfolding hex_loop
length-hex_loop [] = omega arith
length-hex_loop (b ∷ s) = omega (arith, length-hex_loop s)

-- The hexadecimal form of a digest has 64 characters.
pub length-sha256_hex : (p : Bytes) → length (sha256_hex (sha256 p) 32) ≡ 64
unfolding sha256_hex
length-sha256_hex p =
    omega (arith, length-hex_loop (take 32 (sha256 p)), length-take 32 (sha256 p), length-sha256 p)

hex_loop-IsPlain : (s : Bytes) → All (λ ch. 10 < ch) (hex_loop s)
unfolding hex_loop hex_digit
hex_loop-IsPlain [] = tt
hex_loop-IsPlain (b ∷ s) = (ground arith, (ground arith, hex_loop-IsPlain s))

-- No character of a hexadecimal digest is a line feed or a NUL.
pub sha256_hex-IsPlain : (p : Bytes) → All (λ ch. 10 < ch) (sha256_hex (sha256 p) 32)
unfolding sha256_hex
sha256_hex-IsPlain p = hex_loop-IsPlain (take 32 (sha256 p))

-- The hexadecimal form of the first bytes of a digest.
pub length-hex : (p : Bytes) (n : ℕ) → n ≤ 32 → length (sha256_hex (sha256 p) n) ≡ 2 * n
unfolding sha256_hex
length-hex p n h = omega (
  arith,
  length-hex_loop (take (min n 32) (sha256 p)),
  length-take (min n 32) (sha256 p),
  length-sha256 p,
)
