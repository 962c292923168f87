-- ===== src/Common/Decimal.antt =====
-- Numbers in decimal, as `%zu` prints them.
use Prim.Native.Nat.{ℕ, zero, suc, ◌+◌, ◌/◌, ◌%◌}
use mathlib.Core.List.{[], ◌∷◌, ◌++◌}
use asterism_asngn.Common.Tests.{if◌then◌else◌, ltb}
use asterism_asngn.Common.Lists.{Bytes}

-- On as many digits as `more` at most.
unfoldable pub digits : ℕ → ℕ → Bytes
digits zero n = []
digits (suc more) n =
    let front = digits more (n / 10) in
    if ltb n 10 then (b'0' + n) ∷ [] else front ++ (b'0' + n % 10) ∷ []

-- A `size_t` has twenty digits at most.
unfoldable pub decimal : ℕ → Bytes
decimal n = digits 20 n
