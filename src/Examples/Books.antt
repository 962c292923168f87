-- ===== src/Examples/Books.antt =====
-- The token accounting: src/consumption.c and src/operations.c.
use asterism_asngn.Common.{refl, false, none, [], ◌∷◌, arith}
use asterism_asngn.Common.Int.{pos, ◌+ℤ◌, ◌-ℤ◌}
use asterism_asngn.Consumption.{
  Usage, Totals, zero_totals, consumption_observe, roll, observe, add, observe_charged,
  observe_reserved,
}
use asterism_asngn.Text.Utf8.{utf8_valid, utf8_sequence}
use asterism_asngn.Consumption.Conserved.{IsAccounted}
use asterism_asngn.Operations.{Engine, Operation, operation_begin}
use asterism_asngn.Operations.Books.{Reach-IsAccounted, here, next, begin}
use asterism_asngn.Operations.Budget.{WithinBudget, operation_begin-WithinBudget}

accounting : Unit {0}
unfolding operation_begin utf8_valid utf8_sequence roll ◌-ℤ◌ consumption_observe observe add
    observe_charged observe_reserved
accounting = tt

abbrev empty_usage : Usage
empty_usage = record { lifetime = zero_totals; today = zero_totals; utc_day = pos 20000 }

abbrev engine : Engine
engine = record { consumption = empty_usage; recovery_required = false; daily_tokens = pos 500 }

abbrev operation : Operation
operation = record { reserved = pos 100; day = pos 20000; active = false }

abbrev booked_totals : Totals
booked_totals = record zero_totals {
  calls = pos 1;
  unsettled_calls = pos 1;
  unsettled_tokens = pos 100;
  charged_tokens = pos 100;
}

empty_usage-IsAccounted : IsAccounted empty_usage
unfolding ◌+ℤ◌
empty_usage-IsAccounted = ground arith

Reach-IsAccounted_example :
    let began =
      operation_begin 64 64 engine (0x6D ∷ []) (0x6B ∷ []) none (pos 100) (pos 20000) none in
    let (c, op, e) = began in IsAccounted c.consumption
Reach-IsAccounted_example =
    Reach-IsAccounted 64 64 {c = engine}
      (next here (begin (0x6D ∷ []) (0x6B ∷ []) none (pos 100) (pos 20000) none))
      empty_usage-IsAccounted

operation_begin-WithinBudget_example :
    WithinBudget
      (operation_begin 64 64 engine (0x6D ∷ []) (0x6B ∷ []) none (pos 100) (pos 20000) none).0
unfolding accounting
operation_begin-WithinBudget_example =
    operation_begin-WithinBudget 64 64 engine (0x6D ∷ []) (0x6B ∷ []) none (pos 100) (pos 20000)
      none empty_usage-IsAccounted refl refl
