-- ===== src/Operations.antt =====
-- src/operations.c: reservations and settlements of inference calls, over the reducer.
-- `id_max` and `request_id_max` stand for `ASMODEL_ID_MAX` and `ASMODEL_REQUEST_ID_MAX` of the model
-- runtime. What the disk says of a journal append (path, encoding, open, WAL frame) is the argument
-- `wrote`, none for `ASNGN_OK`; `today` is the clock's day. The random id and the copied names of an
-- operation play no part in the accounting.
pub mod Books
pub mod Budget
use asterism_asngn.Common.{
  ℕ, Bool, true, false, Option, none, some, List, [], ◌∷◌, ◌&&◌, ◌||◌, not, if◌then◌else◌, ltb,
  ◌==◌, Bytes, length,
}
use asterism_asngn.Common.Int.{ℤ, pos, ◌+ℤ◌, ◌-ℤ◌, ltb_ℤ}
use asterism_asngn.Common.Errors.{AsngnErr, io, invalid, limit}
use asterism_asngn.Text.Utf8.{utf8_valid}
use asterism_asngn.Consumption.{Totals, Usage, Row, roll, consumption_observe}

-- The fields of `asngn_operation` that are read again.
pub record Operation : Type 0 where
  pub reserved : ℤ
  pub day : ℤ
  pub active : Bool

-- The part of `asngn_ctx` that the functions read and write.
pub record Engine : Type 0 where
  pub consumption : Usage
  pub recovery_required : Bool
  pub daily_tokens : ℤ

-- `ASNGN_OPERATIONS_MAX`.
abbrev pub operations_max : ℤ
operations_max = pos 131072

-- What follows the reducer: the new totals are published only once the row is on disk.
unfoldable pub publish : Engine → Option AsngnErr → Option Usage → Engine × Option AsngnErr
publish c wrote none = (c, some limit)
publish c none (some next) = (record c { consumption = next }, none)
publish c (some e) (some next) = (record c { recovery_required = true }, some e)

-- The static `record`; the error is `none` for `ASNGN_OK`.
unfoldable pub journal : Engine → Row → ℤ → Option AsngnErr → Engine × Option AsngnErr
unfolding publish
journal c row reserved wrote = publish c wrote (consumption_observe c.consumption row reserved)

abbrev is_ok : Option AsngnErr → Bool
is_ok none = true
is_ok (some e) = false

abbrev pub reserve_row : Operation → Row
reserve_row op = record {
  reserved = true;
  day = op.day;
  delta = op.reserved;
  input = pos 0;
  output = pos 0;
  known = false;
  outcome = none;
}

abbrev pub settle_delta : Operation → ℤ → ℤ → Bool → ℤ
settle_delta op ti to known = if known then ti +ℤ to -ℤ op.reserved else pos 0

abbrev pub settle_row : Operation → ℤ → ℤ → Bool → Option AsngnErr → Row
settle_row op ti to known outcome = record {
  reserved = false;
  day = op.day;
  delta = settle_delta op ti to known;
  input = ti;
  output = to;
  known = known;
  outcome = outcome;
}

module _ (id_max request_id_max : ℕ) where
  unfoldable pub bad_name : Bytes → ℕ → Bool
  bad_name s cap = length s == 0 || ltb cap (length s) || not (utf8_valid s)

  unfoldable pub bad_request : Option Bytes → Bool
  unfolding bad_name
  bad_request none = false
  bad_request (some s) = bad_name s request_id_max

  -- The checks under the lock, once the day is rolled.
  unfoldable pub admit : Engine → ℤ → Option AsngnErr → Engine × Operation × Option AsngnErr
  unfolding journal
  admit c reserve wrote =
      let op : Operation = record {
        reserved = reserve;
        day = c.consumption.utc_day;
        active = false;
      } in
      let (c', e) = journal c (reserve_row op) reserve wrote in
      if c.recovery_required
      then (c, op, some io)
      else if not (ltb_ℤ c.consumption.lifetime.calls operations_max)
      then (c, op, some limit)
      else if ltb_ℤ (pos 0) c.daily_tokens
          && ltb_ℤ (c.daily_tokens -ℤ c.consumption.today.charged_tokens) reserve
      then (c, op, some limit)
      else (c', record op { active = is_ok e }, e)

  -- `asngn_operation_begin`; no operation comes back where the arguments are refused.
  unfoldable pub operation_begin :
      Engine
      → Bytes
      → Bytes
      → Option Bytes
      → ℤ
      → ℤ
      → Option AsngnErr
      → Engine × Option Operation × Option AsngnErr
  unfolding admit bad_name bad_request
  operation_begin c model kind request_id reserve today wrote =
      let rolled = record c { consumption = roll c.consumption today } in
      let (c', op, e) = admit rolled reserve wrote in
      if bad_name model id_max
        || bad_name kind 32
        || ltb_ℤ reserve (pos 0)
        || bad_request request_id
      then (c, none, some invalid)
      else (c', some op, e)

-- The settlement under the lock; a failed one needs recovery, whatever refused it.
unfoldable pub settle :
    Engine
    → Operation
    → ℤ
    → ℤ
    → Bool
    → Option AsngnErr
    → ℤ
    → Option AsngnErr
    → Engine × Option AsngnErr
unfolding journal
settle c op ti to known outcome today wrote =
    let rolled = record c { consumption = roll c.consumption today } in
    let (c', e) = journal rolled (settle_row op ti to known outcome) op.reserved wrote in
    if c.recovery_required
    then (c, some io)
    else (if is_ok e then c' else record c' { recovery_required = true }, e)

-- `asngn_operation_end`. Every outcome of `asngn_err` is in its range.
unfoldable pub operation_end :
    Engine
    → Operation
    → ℤ
    → ℤ
    → Bool
    → Option AsngnErr
    → ℤ
    → Option AsngnErr
    → Engine × Operation × Option AsngnErr
unfolding settle
operation_end c op ti to known outcome today wrote =
    let (c', e) = settle c op ti to known outcome today wrote in
    if not op.active || ltb_ℤ ti (pos 0) || ltb_ℤ to (pos 0)
    then (c, op, some invalid)
    else (c', record op { active = false }, e)

-- `asngn_get_consumption`, and `asngn_daily_spend` behind it: an error clears the output.
unfoldable pub get_consumption : Engine → ℤ → Engine × Option Usage
get_consumption c today =
    if c.recovery_required
    then (c, none)
    else (let rolled = roll c.consumption today in (record c { consumption = rolled }, some rolled))
