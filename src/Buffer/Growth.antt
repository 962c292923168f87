-- ===== src/Buffer/Growth.antt =====
-- Proofs on the growth of `asngn_buf`: src/util.c.
use asterism_asngn.Common.{
  ℕ, zero, suc, ◌+◌, ◌*◌, ◌^◌, ◌≤◌, ◌<◌, ◌≡◌, refl, Bool, true, [], ◌++◌, arith, Bytes, length,
  length-append, ap, subst,
}
use native.Mathlib.Nat.{pow-suc}
use asterism_asngn.Common.Words.{size_max}
use asterism_asngn.Common.Errors.{Result, ok, err, nomem, IsOk, ◌>>=◌}
use asterism_asngn.Buffer.{Buf, init, grow, grow_fuel, reserve, append}

grow_enough :
    (fuel size need : ℕ)
    → size_max < size * 2 ^ fuel
    → need ≤ size_max
    → (need ≤ grow fuel size need) × (size ≤ grow fuel size need)
unfolding grow
grow_enough zero size need k h = (omega arith, omega arith)
grow_enough (suc fuel) size need k h =
    let product = subst (λ p. size_max < size * p) (pow-suc 2 fuel) k in
    let more : size_max < size * 2 * 2 ^ fuel = omega arith in
    ground (arith, grow_enough fuel (size * 2) need more)

grow-le : (fuel size need : ℕ) → need ≤ size_max → size ≤ size_max → grow fuel size need ≤ size_max
unfolding grow
grow-le zero size need h k = k
grow-le (suc fuel) size need h k = ground (arith, grow-le fuel (size * 2) need)

-- No allocation yet, or room for the bytes and the NUL within `size_t`.
pub record IsValid (b : Buf) : Type 0 where
  pub fits : (0 < b.cap) → length b.content < b.cap
  pub unallocated : b.cap ≡ 0 → b.content ≡ []
  pub bounded : b.cap ≤ size_max

pub init-IsValid : IsValid init
unfolding init
init-IsValid = record {
  fits = λ h. absurd (omega arith);
  unallocated = λ e. refl;
  bounded = omega arith;
}

-- What `buf_reserve` promises: the bytes stay, and there is room for `extra` more.
abbrev Reserves : Buf → ℕ → Result Buf → Type 0
Reserves b extra (ok r) =
    (r.content ≡ b.content)
    × (length b.content + extra < r.cap)
    × (b.cap ≤ r.cap)
    × (r.cap ≤ size_max)
Reserves b extra (err e) = e ≡ nomem

grown :
    (size need : ℕ)
    → 0 < size
    → size ≤ size_max
    → need ≤ size_max
    → let n = grow grow_fuel size need in (need ≤ n) × (size ≤ n) × (n ≤ size_max)
grown size need h k m =
    let (enough, more) = grow_enough grow_fuel size need (omega arith) m in
    (enough, more, grow-le grow_fuel size need m k)

reserve-Reserves :
    (alloc : ℕ → Bool) (b : Buf) (extra : ℕ) → IsValid b → Reserves b extra (reserve alloc b extra)
unfolding reserve
reserve-Reserves alloc b extra v =
    let need = length b.content + extra + 1 in
    ground (arith, grown 64 need, grown b.cap need, v.unallocated)

-- What `asngn_buf_append` promises for the buffer that it returns.
abbrev pub Appends : Buf → Bytes → Result Buf → Type 0
Appends b bytes (ok r) = (r.content ≡ b.content ++ bytes) × IsValid r × (b.cap ≤ r.cap)
Appends b bytes (err e) = e ≡ nomem

-- On a valid buffer an append puts the bytes behind those that are there, keeps the buffer valid
-- (room for the bytes and the NUL, within `size_t`) and never shrinks it; its one error is NOMEM.
pub append-Appends :
    (alloc : ℕ → Bool) (b : Buf) (bytes : Bytes)
    → IsValid b
    → Appends b bytes (append alloc b bytes)
unfolding append
append-Appends alloc b bytes v =
    go (reserve alloc b (length bytes)) (reserve-Reserves alloc b (length bytes) v)
  where
    go :
        (m : Result Buf)
        → Reserves b (length bytes) m
        → Appends b bytes (m >>= λ r. ok (record r { content = r.content ++ bytes }))
    go (err e) h = h
    go (ok r) (same, room, grows, small) = (
      ap (λ x. x ++ bytes) same,
      record {
        fits = λ h. omega (arith, length-append r.content bytes, ap (length {0}) same);
        unallocated = λ e. absurd (omega arith);
        bounded = small;
      },
      grows,
    )

-- An append fails only when memory runs out or the length would pass `size_t`: where `realloc`
-- succeeds and the bytes, those to add and the NUL fit, it succeeds.
pub append-total :
    (b : Buf) (bytes : Bytes)
    → length b.content + length bytes + 1 ≤ size_max
    → IsOk (append (λ n. true) b bytes)
unfolding append reserve
append-total b bytes h = ground arith
