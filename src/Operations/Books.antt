-- ===== src/Operations/Books.antt =====
-- The books of the engine, src/operations.c, under reservations and settlements in any order.
use asterism_asngn.Common.{
  pick, ℕ, Bool, true, false, Option, none, some, ◌&&◌, ◌||◌, not, if◌then◌else◌, Bytes, ◌≡◌, refl,
}
use asterism_asngn.Common.Int.{ℤ, pos, ◌-ℤ◌, ltb_ℤ}
use asterism_asngn.Common.Errors.{AsngnErr, io, invalid, limit}
use asterism_asngn.Consumption.{Usage, Row, roll, consumption_observe}
use asterism_asngn.Consumption.Conserved.{
  IsRow, IsAccounted, roll-IsAccounted, consumption_observe-IsAccounted,
}
use asterism_asngn.Operations.{
  Operation, Engine, publish, get_consumption, is_ok, operations_max, journal, reserve_row,
  settle_row, admit, bad_name, bad_request, operation_begin, settle, operation_end,
}

publish-IsAccounted :
    (c : Engine) (wrote : Option AsngnErr) (m : Option Usage)
    → IsAccounted c.consumption
    → ((next : Usage) → m ≡ some next → IsAccounted next)
    → IsAccounted (publish c wrote m).0.consumption
unfolding publish
publish-IsAccounted c wrote none a h = a
publish-IsAccounted c none (some next) a h = h next refl
publish-IsAccounted c (some e) (some next) a h = a

journal-IsAccounted :
    (c : Engine) (row : Row) (reserved : ℤ) (wrote : Option AsngnErr)
    → IsRow row reserved
    → IsAccounted c.consumption
    → IsAccounted (journal c row reserved wrote).0.consumption
unfolding journal
journal-IsAccounted c row reserved wrote r a =
    publish-IsAccounted c wrote (consumption_observe c.consumption row reserved) a
      (λ next e. consumption_observe-IsAccounted row reserved r a e)

abbrev Keeps : Engine → Type 0
Keeps c = IsAccounted c.consumption

abbrev Outcome : Type 0
Outcome = Engine × Operation × Option AsngnErr

three_ways :
    (p q r : Bool) (x y z w : Outcome)
    → Keeps x.0
    → Keeps y.0
    → Keeps z.0
    → Keeps w.0
    → Keeps (if p then x else if q then y else if r then z else w).0
three_ways true q r x y z w hx hy hz hw = hx
three_ways false true r x y z w hx hy hz hw = hy
three_ways false false true x y z w hx hy hz hw = hz
three_ways false false false x y z w hx hy hz hw = hw

-- The clock, the host and the disk choose the arguments of each call.
pub data Step (id_max request_id_max : ℕ) (c : Engine) : Engine → Type 0 where
  begin :
      (model kind : Bytes) (request_id : Option Bytes) (reserve today : ℤ) (wrote : Option AsngnErr)
      → Step id_max request_id_max c
          (operation_begin id_max request_id_max c model kind request_id reserve today wrote).0
  end :
      (op : Operation) (ti to : ℤ) (known : Bool) (outcome : Option AsngnErr) (today : ℤ)
      (wrote : Option AsngnErr)
      → Step id_max request_id_max c (operation_end c op ti to known outcome today wrote).0
  query : (today : ℤ) → Step id_max request_id_max c (get_consumption c today).0

pub data Reach (id_max request_id_max : ℕ) (c : Engine) : Engine → Type 0 where
  here : Reach id_max request_id_max c c
  next :
      {d e : Engine}
      → Reach id_max request_id_max c d
      → Step id_max request_id_max d e
      → Reach id_max request_id_max c e

module _ (id_max request_id_max : ℕ) where
  admit-IsAccounted :
      (c : Engine) (reserve : ℤ) (wrote : Option AsngnErr)
      → Keeps c
      → Keeps (admit id_max request_id_max c reserve wrote).0
  unfolding admit
  admit-IsAccounted c reserve wrote a =
      let op : Operation = record {
        reserved = reserve;
        day = c.consumption.utc_day;
        active = false;
      } in
      let booked = journal-IsAccounted c (reserve_row op) reserve wrote (λ h. refl, λ h. cc) a in
      three_ways c.recovery_required (not (ltb_ℤ c.consumption.lifetime.calls operations_max))
        (ltb_ℤ (pos 0) c.daily_tokens
          && ltb_ℤ (c.daily_tokens -ℤ c.consumption.today.charged_tokens) reserve)
        (c, op, some io) (c, op, some limit) (c, op, some limit)
        (
          (journal c (reserve_row op) reserve wrote).0,
          record op { active = is_ok (journal c (reserve_row op) reserve wrote).1 },
          (journal c (reserve_row op) reserve wrote).1,
        )
        a a a booked

  settle-IsAccounted :
      (c : Engine) (op : Operation) (ti to : ℤ) (known : Bool) (outcome : Option AsngnErr)
      (today : ℤ) (wrote : Option AsngnErr)
      → Keeps c
      → Keeps (settle c op ti to known outcome today wrote).0
  unfolding settle
  settle-IsAccounted c op ti to known outcome today wrote a =
      let rolled : Engine = record c { consumption = roll c.consumption today } in
      let booked =
        journal-IsAccounted rolled (settle_row op ti to known outcome) op.reserved wrote
          (λ h. cc, λ h. refl) (roll-IsAccounted today a) in
      let (c', e) = journal rolled (settle_row op ti to known outcome) op.reserved wrote in
      pick (λ (r : Engine × Option AsngnErr). Keeps r.0) c.recovery_required (c, some io)
        (if is_ok e then c' else record c' { recovery_required = true }, e) a
        (pick Keeps (is_ok e) c' (record c' { recovery_required = true }) booked booked)

  Step-IsAccounted : {c d : Engine} → Step id_max request_id_max c d → Keeps c → Keeps d
  unfolding operation_begin operation_end get_consumption
  Step-IsAccounted {c} (begin model kind request_id reserve today wrote) a =
      let rolled : Engine = record c { consumption = roll c.consumption today } in
      let (c', op, e) = admit id_max request_id_max rolled reserve wrote in
      pick (λ (r : Engine × Option Operation × Option AsngnErr). Keeps r.0)
        (bad_name id_max request_id_max model id_max
          || bad_name id_max request_id_max kind 32
          || ltb_ℤ reserve (pos 0)
          || bad_request id_max request_id_max request_id)
        (c, none, some invalid) (c', some op, e) a
        (admit-IsAccounted (record c { consumption = roll c.consumption today }) reserve wrote
          (roll-IsAccounted today a))
  Step-IsAccounted {c} (end op ti to known outcome today wrote) a =
      let (c', e) = settle c op ti to known outcome today wrote in
      pick (λ (r : Engine × Operation × Option AsngnErr). Keeps r.0)
        (not op.active || ltb_ℤ ti (pos 0) || ltb_ℤ to (pos 0)) (c, op, some invalid)
        (c', record op { active = false }, e) a
        (settle-IsAccounted c op ti to known outcome today wrote a)
  Step-IsAccounted {c} (query today) a =
      let rolled = roll c.consumption today in
      pick (λ (r : Engine × Option Usage). Keeps r.0) c.recovery_required (c, none)
        (record c { consumption = rolled }, some rolled) a (roll-IsAccounted today a)

  -- Whatever calls hosts make, in any order and with any disk failures, the books of the engine
  -- balance: from a state whose totals are conserved, only such states are reached.
  pub Reach-IsAccounted :
      {c d : Engine}
      → Reach id_max request_id_max c d
      → IsAccounted c.consumption
      → IsAccounted d.consumption
  Reach-IsAccounted here a = a
  Reach-IsAccounted (next r s) a = Step-IsAccounted s (Reach-IsAccounted r a)
