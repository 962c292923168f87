-- ===== src/Sha256/Streaming.antt =====
-- Proofs on `asngn_sha256_update` of src/sha256.c and input in chunks.
use asterism_asngn.Common.{
  ℕ, zero, suc, ◌+◌, ◌≤◌, ◌<◌, ◌≡◌, refl, ◌∙◌, sym, ap, [], ◌∷◌, ◌++◌, append_assoc, append-nil,
  arith, Bytes, length, length-append, ◌%◌, ◌*◌,
}
use asterism_asngn.Common.Words.{u64_mod}
use asterism_asngn.Sha256.{State, Ctx, update_step, update_loop, update}
use asterism_asngn.Sha256.Absorb.{
  absorb, absorb-short, absorb_fuel, absorb-append, update_step-Rounds,
}

-- What the loop leaves is what the description leaves of the buffered bytes and the input.
abbrev Absorbs : Ctx → Bytes → Ctx → Type 0
Absorbs c p c' =
    (length c'.buffer < 64)
    × (c'.bitlen ≡ c.bitlen)
    × ((n : ℕ)
        → length (c.buffer ++ p) ≤ n
        → absorb n c.state (c.buffer ++ p) ≡ (c'.state, c'.buffer))

Absorbs-nothing : (c : Ctx) → length c.buffer < 64 → Absorbs c [] c
Absorbs-nothing c h = (
  h,
  refl,
  λ n fuel. ap (absorb n c.state) (append-nil c.buffer) ∙ absorb-short n c.state c.buffer h,
)

update_loop-Absorbs :
    (fuel : ℕ) (c : Ctx) (p : Bytes)
    → length c.buffer < 64
    → length p ≤ fuel
    → Absorbs c p (update_loop fuel c p)
unfolding update_loop
update_loop-Absorbs zero c [] h k = Absorbs-nothing c h
update_loop-Absorbs zero c (b ∷ p) h k = absurd (omega arith)
update_loop-Absorbs (suc fuel) c [] h k = Absorbs-nothing c h
update_loop-Absorbs (suc fuel) c (b ∷ p) h k =
    let (c', rest) = update_step c (b ∷ p) in
    let (small, fewer, bits, same) = update_step-Rounds c (b ∷ p) h (omega arith) in
    let (small', bits', later) = update_loop-Absorbs fuel c' rest small (omega arith) in
    (
      small',
      bits' ∙ bits,
      λ n room.
          let m = n + length (c'.buffer ++ rest) in
          absorb_fuel n m c.state (c.buffer ++ b ∷ p) room (omega arith)
          ∙ same m (omega arith)
          ∙ later m (omega arith),
    )

-- The bytes of a chunk add to the bit count, modulo 2^64.
abbrev counted : Ctx → Bytes → Ctx
counted c p = record c { bitlen = (c.bitlen + length p * 8 % u64_mod) % u64_mod }

pub update-Absorbs :
    (c : Ctx) (p : Bytes) → length c.buffer < 64 → Absorbs (counted c p) p (update c p)
unfolding update
update-Absorbs c p h = update_loop-Absorbs (length p) (counted c p) p h (omega arith)

ctx_eq :
    (c d : Ctx)
    → c.bitlen ≡ d.bitlen
    → ◌≡◌ {A = State × Bytes} (c.state, c.buffer) (d.state, d.buffer)
    → c ≡ d
ctx_eq c d h e = λ i. record { state = (e i).0; bitlen = h i; buffer = (e i).1 }

-- Hashing one chunk and then another leaves the context that hashing both at once leaves, for every
-- way to cut the input. The condition is that less than a block is buffered, as after `init` and
-- after every update.
pub update-append :
    (c : Ctx) (p q : Bytes) → length c.buffer < 64 → update (update c p) q ≡ update c (p ++ q)
update-append c p q h =
    let (small, bits, first) = update-Absorbs c p h in
    let d = update c p in
    let (small', bits', second) = update-Absorbs d q small in
    let (small'', bits'', whole) = update-Absorbs c (p ++ q) h in
    let n = length ((c.buffer ++ p) ++ q) + length (d.buffer ++ q) in
    let x = c.buffer ++ p in
    let one = first n (omega (arith, length-append x q)) in
    ctx_eq _ _ (bits' ∙ omega (arith, bits, bits'', length-append p q)) (
      sym (second n (omega arith))
      ∙ ap (λ (r : State × Bytes). absorb n r.0 (r.1 ++ q)) (sym one)
      ∙ sym (absorb-append n n c.state x q (omega (arith, length-append x q)) (omega arith))
      ∙ ap (absorb n c.state) (append_assoc c.buffer p q)
      ∙ whole n (omega (arith, ap (length {0}) (append_assoc c.buffer p q))))
