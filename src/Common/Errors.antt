-- ===== src/Common/Errors.antt =====
-- include/asngn.h, `asngn_err`, and a value or a code of it.
use mathlib.Core.Path.{◌≡◌, refl}

pub data AsngnErr : Type 0 where
  io parse config model not_found invalid denied timeout cancelled busy protocol : AsngnErr
  context unsupported sibling nomem limit : AsngnErr

-- `ASNGN_OK` with what the call hands out, or an error code.
pub data Result {ℓ} (A : Type ℓ) : Type ℓ where
  ok : A → Result A
  err : AsngnErr → Result A

infixl 5 ◌>>=◌
abbrev pub ◌>>=◌ {ℓ κ} :
    {R : Type ℓ} {S : Type κ} (call : Result R) (rest : R → Result S) → Result S
◌>>=◌ (ok value) rest = rest value
◌>>=◌ (err code) rest = err code

-- A chain of calls succeeds only if its first call does.
pub >>=-eq-ok {ℓ κ} :
    {R : Type ℓ} {S : Type κ} (call : Result R) (rest : R → Result S) {result : S}
    → (call >>= rest) ≡ ok result
    → (value : R) × (call ≡ ok value) × (rest value ≡ ok result)
>>=-eq-ok (err code) rest succeeds = cc
>>=-eq-ok (ok value) rest succeeds = (value, refl, succeeds)

abbrev pub IsOk {ℓ} : {A : Type ℓ} → Result A → Type 0
IsOk (ok a) = Unit
IsOk (err e) = ⊥
