-- ===== src/Consumption.antt =====
-- src/consumption.c: the reducer of the token accounting, with the totals of include/asngn.h and the
-- journal rows of src/operation_record.h. An `int64_t` is an integer; `add` keeps it in its range.
pub mod Balance
pub mod Conserved
use asterism_asngn.Common.{
  ℕ, Bool, true, false, Option, none, some, ◌&&◌, ◌||◌, if◌then◌else◌, ◌==◌,
}
use asterism_asngn.Common.Int.{eqb_ℤ, ℤ, pos, negsuc, ◌+ℤ◌, ◌-ℤ◌, ltb_ℤ, int64_max}
use asterism_asngn.Common.Maybe.{◌>>=◌}
use asterism_asngn.Common.Errors.{AsngnErr, cancelled}

-- `asngn_consumption_totals`.
pub record Totals : Type 0 where
  pub calls : ℤ
  pub unsettled_calls : ℤ
  pub unknown_calls : ℤ
  pub failed_calls : ℤ
  pub cancelled_calls : ℤ
  pub known_input_tokens : ℤ
  pub known_output_tokens : ℤ
  pub unsettled_tokens : ℤ
  pub unknown_tokens : ℤ
  pub charged_tokens : ℤ

-- `asngn_consumption`.
pub record Usage : Type 0 where
  pub lifetime : Totals
  pub today : Totals
  pub utc_day : ℤ

-- The fields of `asngn_operation_record` that the reducer reads; `none` is `ASNGN_OK`.
pub record Row : Type 0 where
  pub reserved : Bool
  pub day : ℤ
  pub delta : ℤ
  pub input : ℤ
  pub output : ℤ
  pub known : Bool
  pub outcome : Option AsngnErr

abbrev pub zero_totals : Totals
zero_totals = record {
  calls = pos 0;
  unsettled_calls = pos 0;
  unknown_calls = pos 0;
  failed_calls = pos 0;
  cancelled_calls = pos 0;
  known_input_tokens = pos 0;
  known_output_tokens = pos 0;
  unsettled_tokens = pos 0;
  unknown_tokens = pos 0;
  charged_tokens = pos 0;
}

unfoldable pub add : ℤ → ℤ → Option ℤ
unfolding ◌+ℤ◌ ◌-ℤ◌
add value delta =
    if (ltb_ℤ (pos 0) delta && ltb_ℤ (int64_max -ℤ delta) value)
      || (ltb_ℤ delta (pos 0) && (ltb_ℤ value (pos 0) || ltb_ℤ delta (pos 0 -ℤ value)))
    then none
    else some (value +ℤ delta)

unfoldable pub observe_reserved : Totals → ℤ → Option Totals
observe_reserved v reserved = do
  calls' ← add v.calls (pos 1)
  open_calls ← add v.unsettled_calls (pos 1)
  open_tokens ← add v.unsettled_tokens reserved
  some (record v { calls = calls'; unsettled_calls = open_calls; unsettled_tokens = open_tokens })

unfoldable pub release : Totals → ℤ → Option Totals
release v reserved = do
  open_calls ← add v.unsettled_calls (negsuc 0)
  open_tokens ← add v.unsettled_tokens (pos 0 -ℤ reserved)
  some (record v { unsettled_calls = open_calls; unsettled_tokens = open_tokens })

unfoldable pub observe_known : Totals → Row → Option Totals
observe_known v r = do
  input' ← add v.known_input_tokens r.input
  output' ← add v.known_output_tokens r.output
  some (record v { known_input_tokens = input'; known_output_tokens = output' })

unfoldable pub observe_unknown : Totals → ℤ → Option Totals
observe_unknown v reserved = do
  calls' ← add v.unknown_calls (pos 1)
  tokens ← add v.unknown_tokens reserved
  some (record v { unknown_calls = calls'; unknown_tokens = tokens })

abbrev is_cancelled : AsngnErr → Bool
is_cancelled cancelled = true
is_cancelled e = false

unfoldable pub observe_failure : Totals → AsngnErr → Option Totals
observe_failure v e =
    if is_cancelled e
    then (do calls' ← add v.cancelled_calls (pos 1); some (record v { cancelled_calls = calls' }))
    else (do calls' ← add v.failed_calls (pos 1); some (record v { failed_calls = calls' }))

unfoldable pub observe_outcome : Totals → Option AsngnErr → Option Totals
unfolding observe_failure
observe_outcome v none = some v
observe_outcome v (some e) = observe_failure v e

unfoldable pub observe_settled : Totals → Row → ℤ → Option Totals
observe_settled v r reserved = do
  released ← release v reserved
  used ← if r.known then observe_known released r else observe_unknown released reserved
  observe_outcome used r.outcome

-- The static `observe`, on the totals with `charged_tokens` already added.
unfoldable pub observe_charged : Totals → Row → ℤ → Option Totals
observe_charged v r reserved =
    if r.reserved then observe_reserved v reserved else observe_settled v r reserved

unfoldable pub observe : Totals → Row → ℤ → Option Totals
observe v r reserved = if ltb_ℤ reserved (pos 0) then none else (do
  charged ← add v.charged_tokens r.delta
  observe_charged (record v { charged_tokens = charged }) r reserved)

unfoldable pub roll : Usage → ℤ → Usage
roll usage day =
    if ltb_ℤ usage.utc_day day then record usage { utc_day = day; today = zero_totals } else usage

-- `none` leaves `*usage` as it was.
unfoldable pub consumption_observe : Usage → Row → ℤ → Option Usage
unfolding roll
consumption_observe usage row reserved = do
  let next = roll usage row.day
  lifetime' ← observe next.lifetime row reserved
  today' ← if eqb_ℤ row.day next.utc_day then observe next.today row reserved else some next.today
  some (record next { lifetime = lifetime'; today = today' })
