-- ===== src/Buffer.antt =====
-- src/util.c, `asngn_buf`: the growable byte buffer.
-- `data` is the list of the `len` bytes in front of the terminating NUL; a capacity of 0 is the NULL
-- pointer. `alloc n` tells whether `realloc` to `n` bytes succeeds.
pub mod Growth
use asterism_asngn.Common.{
  ℕ, zero, suc, ◌+◌, ◌-◌, ◌*◌, ◌/◌, Bool, List, [], ◌∷◌, ◌++◌, ltb, leb, ◌==◌, if◌then◌else◌, Bytes,
  length,
}
use asterism_asngn.Common.Words.{size_max}
use asterism_asngn.Common.Errors.{Result, ok, err, nomem, ◌>>=◌}

pub record Buf : Type 0 where
  pub content : Bytes
  pub cap : ℕ

unfoldable pub init : Buf
init = record { content = []; cap = 0 }

-- `while (cap < need)`, on fuel.
unfoldable pub grow : ℕ → ℕ → ℕ → ℕ
grow zero cap need = cap
grow (suc fuel) cap need =
    let doubled = grow fuel (cap * 2) need in
    if ltb cap need then (if ltb (size_max / 2) cap then need else doubled) else cap

-- 64 doublings of a positive capacity pass every `size_t`.
abbrev pub grow_fuel : ℕ
grow_fuel = 64

module _ (alloc : ℕ → Bool) where
  unfoldable pub reserve : Buf → ℕ → Result Buf
  reserve b extra =
      let used = length b.content in
      let need = used + extra + 1 in
      let cap = grow grow_fuel (if b.cap == 0 then 64 else b.cap) need in
      if ltb (size_max - used - 1) extra
      then err nomem
      else if leb need b.cap
      then ok b
      else if alloc cap
      then ok (record b { cap = cap })
      else err nomem

  -- `b` and `data` are never NULL here.
  unfoldable pub append : Buf → Bytes → Result Buf
  unfolding reserve
  append b data' = do r ← reserve b (length data'); ok (record r { content = r.content ++ data' })

  -- The string is the list of its bytes.
  unfoldable pub appends : Buf → Bytes → Result Buf
  unfolding append
  appends b s = append b s

  unfoldable pub appendc : Buf → ℕ → Result Buf
  unfolding append
  appendc b ch = append b (ch ∷ [])
