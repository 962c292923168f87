-- ===== src/Detail.antt =====
-- The detail of an answer: src/detail.c. A message is NUL-terminated. What floating-point comparisons say
-- of the budget's pressure (`pressure >= warn_at` and `pressure >= 1.0`) are arguments.
use asterism_asngn.Common.{
  ℕ, zero, suc, ◌+◌, Bool, true, false, not, ◌&&◌, ◌||◌, Option, none, some, List, [], ◌∷◌, within,
  ◌==◌, if◌then◌else◌, Bytes,
}
pub mod Cues

-- `asngn_detail` and `asngn_class`.
pub data Detail : Type 0 where
  terse normal rich auto : Detail

pub data Class : Type 0 where
  simple moderate complex : Class

-- The comparison of a character of `detail_ci_strstr`.
abbrev pub to_lower : ℕ → ℕ
to_lower ch = if within b'A' b'Z' ch then ch + 32 else ch

-- The inner loop of `detail_ci_strstr` at one position: the needle is there, it is not, or the message
-- ends first, which ends the search.
pub data At : Type 0 where
  matches differs ended : At

unfoldable pub compare_at : Bytes → Bytes → At
compare_at [] hay = matches
compare_at (n ∷ needle) [] = ended
compare_at (n ∷ needle) (ch ∷ hay) =
    let later = compare_at needle hay in if to_lower ch == to_lower n then later else differs

-- Whether `detail_ci_strstr` finds the needle.
unfoldable pub ci_strstr : Bytes → Bytes → Bool
ci_strstr [] needle = false
ci_strstr (ch ∷ hay) needle = elim (compare_at needle (ch ∷ hay)) [
  | matches ↦ true
  | ended ↦ false
  | differs ↦ ci_strstr hay needle
]

abbrev pub terse_cues : List Bytes
terse_cues =
    (b'b' ∷ b'r' ∷ b'i' ∷ b'e' ∷ b'f' ∷ b'l' ∷ b'y' ∷ [])
    ∷ (b'o' ∷ b'n' ∷ b'e' ∷ b' ' ∷ b'l' ∷ b'i' ∷ b'n' ∷ b'e' ∷ [])
    ∷ (b't' ∷ b'l' ∷ b';' ∷ b'd' ∷ b'r' ∷ [])
    ∷ []

abbrev pub rich_cues : List Bytes
rich_cues =
    (b'i' ∷ b'n' ∷ b' ' ∷ b'd' ∷ b'e' ∷ b't' ∷ b'a' ∷ b'i' ∷ b'l' ∷ [])
    ∷ (b't' ∷ b'h' ∷ b'o' ∷ b'r' ∷ b'o' ∷ b'u' ∷ b'g' ∷ b'h' ∷ b'l' ∷ b'y' ∷ [])
    ∷ (b's' ∷ b't' ∷ b'e' ∷ b'p' ∷ b' ' ∷ b'b' ∷ b'y' ∷ b' ' ∷ b's' ∷ b't' ∷ b'e' ∷ b'p' ∷ [])
    ∷ []

unfoldable pub any_cue : List Bytes → Bytes → Bool
any_cue [] message = false
any_cue (cue ∷ cues) message =
    let later = any_cue cues message in if ci_strstr message cue then true else later

-- `asngn_detail_cue`.
unfoldable pub detail_cue : Bytes → Detail
detail_cue message =
    if any_cue terse_cues message then terse else if any_cue rich_cues message then rich else auto

-- `asngn_detail_cap`, from the limits of the configuration.
pub record Limits : Type 0 where
  pub terse_tokens : ℕ
  pub normal_tokens : ℕ
  pub rich_tokens : ℕ

unfoldable pub detail_cap : Limits → Detail → ℕ
detail_cap c terse = c.terse_tokens
detail_cap c normal = c.normal_tokens
detail_cap c rich = c.rich_tokens
detail_cap c auto = c.normal_tokens

-- The level that a default and a vote come to.
unfoldable pub defaulted : Detail → Detail → Detail
defaulted auto auto = normal
defaulted auto vote = vote
defaulted level vote = level

-- The lever of the budget's pressure.
unfoldable pub pressed : Bool → Detail → Detail
pressed spent rich = normal
pressed spent normal = if spent then terse else normal
pressed spent level = level

unfoldable pub under_pressure : Class → Bool → Bool → Detail → Detail
under_pressure simple true spent level = pressed spent level
under_pressure simple false spent level = level
under_pressure moderate warned spent level = level
under_pressure complex warned spent level = level

-- `asngn_detail_effective`.
unfoldable pub detail_effective : Detail → Detail → Detail → Class → Bool → Bool → Detail
detail_effective by_default auto vote klass warned spent =
    under_pressure klass warned spent (defaulted by_default vote)
detail_effective by_default level vote klass warned spent = level
