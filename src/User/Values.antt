-- ===== src/User/Values.antt =====
-- The functions that read one value of a message. Texts are parsed by the language's own library, which
-- is a parameter.
use nofx_cats_py.Prelude.{
  ℕ, Bool, false, Option, none, some, String, List, [], ◌∷◌, ◌==◌, ◌||◌, string_eq, lower, or_else,
  if◌then◌else◌,
}
use nofx_cats_py.Prelude.Int.{ℤ}
use nofx_cats_py.Result.{Result, ok, raise, other_error}
use nofx_cats_py.Raise.{◌>>=◌}
use nofx_cats_py.Num.{Number, ◌<?◌, ◌/◌, num}
use nofx_cats_py.Json.{
  Json, Items, Spelling, null, text, array, object, nil, get, truth, or_json, str,
}
use nofx_cats_py.Domain.Enums.{
  Side, buy, sell, side_value, OrderType, limit, market, stop, stop_market, take_profit,
  take_profit_market, trailing_stop_market, order_type_value, OrderLifecycleStatus, new,
  partially_filled, filled, canceled, expired, refused, triggered, unknown, lifecycle_value,
  PositionDirection, long, short, flat,
}

-- `Decimal(s)` and `int(s)` of a text; both raise on what they cannot read.
pub record Parsing (D : Type 0) : Type 0 where
  pub parse_decimal : String → Result D

pub record IntParsing : Type 0 where
  pub parse_int : String → Result ℤ

-- `float(v)` and `datetime.fromtimestamp(f, tz=utc)`, which raise too.
pub record Timing (F : Type 0) : Type 0 where
  pub parse_float : Json F → Result F
  pub from_timestamp : F → Result ℕ

-- `Enum(value)`: the first member with this value.
unfoldable pub member_of : {A : Type 0} (value_of : A → String) → List A → String → Option A
member_of value_of [] s = none
member_of value_of (a ∷ rest) s = if value_of a == s then some a else member_of value_of rest s

abbrev pub order_types : List OrderType
order_types =
    limit ∷ market ∷ stop ∷ stop_market ∷ take_profit ∷ take_profit_market ∷ trailing_stop_market
    ∷ []

abbrev pub lifecycle_statuses : List OrderLifecycleStatus
lifecycle_statuses =
    new ∷ partially_filled ∷ filled ∷ canceled ∷ expired ∷ refused ∷ triggered ∷ unknown ∷ []

module _ {F : Type 0} where
  -- A value that is a text.
  abbrev pub as_text : Option (Json F) → Option String
  as_text (some (text s)) = some s
  as_text _ = none

  unfoldable pub parse_order_type : Option (Json F) → Option OrderType
  unfolding member_of
  parse_order_type v = elim (as_text v) [
    | none ↦ none
    | some s ↦ member_of order_type_value order_types s
  ]

  unfoldable pub parse_order_status : Option (Json F) → OrderLifecycleStatus
  unfolding member_of
  parse_order_status v = elim (as_text v) [
    | none ↦ unknown
    | some s ↦ or_else (member_of lifecycle_value lifecycle_statuses s) unknown
  ]

  unfoldable pub parse_side : Option (Json F) → Side
  parse_side v = elim (as_text v) [
    | none ↦ buy
    | some s ↦ if s == side_value sell then sell else buy
  ]

module _ {F : Type 0} ⦃n : Number F⦄ where
  unfoldable pub to_bool : Option (Json F) → Bool
  to_bool none = false
  to_bool (some (text s)) = (lower s == "true") || ((lower s == "1") || (lower s == "yes"))
  to_bool (some v) = truth v

  -- What a loop over `v or []` goes through. The characters of a text and the keys of a dict, which the
  -- loops pass over, are left out.
  unfoldable pub iterated : Option (Json F) → Result (Items F)
  iterated none = ok nil
  iterated (some (array items)) = ok items
  iterated (some (text s)) = ok nil
  iterated (some (object fields)) = ok nil
  iterated (some v) = if truth v then raise (other_error "TypeError") else ok nil

module _ {D F : Type 0} ⦃s : Spelling F⦄ ⦃p : Parsing D⦄ ⦃d : Number D⦄ where
  -- `_to_decimal`, with its default.
  unfoldable pub to_decimal : Option (Json F) → Result D
  to_decimal none = ok (num 0)
  to_decimal (some null) = ok (num 0)
  to_decimal (some (text t)) = if t == "" then ok (num 0) else p.parse_decimal t
  to_decimal (some v) = p.parse_decimal (str v)

module _ {F : Type 0} ⦃n : Number F⦄ ⦃p : Timing F⦄ where
  -- `datetime.fromtimestamp` on seconds, or on what must be milliseconds.
  abbrev pub timestamp : F → Result ℕ
  timestamp f = p.from_timestamp (if num 1000000000000 <? f then f / num 1000 else f)

  -- `_to_datetime`; `clock` is the time now.
  unfoldable pub to_datetime : (clock : ℕ) → Option (Json F) → Result ℕ
  to_datetime clock none = ok clock
  to_datetime clock (some null) = ok clock
  to_datetime clock (some v) = do f ← p.parse_float v; timestamp f

module _ {D : Type 0} ⦃n : Number D⦄ where
  unfoldable pub parse_position_direction : D → PositionDirection
  parse_position_direction q = if num 0 <? q then long else if q <? num 0 then short else flat

module _ {F : Type 0} ⦃n : Number F⦄ where
  -- `o.get(k) or o.get(j)`
  abbrev pub first_of : (k j : String) → Json F → Option (Json F)
  first_of k j o = or_json (get k o) (get j o)

module _ {F : Type 0} ⦃n : Number F⦄ ⦃s : Spelling F⦄ where
  -- `str(v or default)`
  abbrev pub text_or : Option (Json F) → String → String
  text_or none default = default
  text_or (some v) default = if truth v then str v else default

  -- A client's identifier, which is kept as it is: one that is no text by its text, one that reads as
  -- false as none.
  abbrev pub client_id : Option (Json F) → Option String
  client_id none = none
  client_id (some v) = if truth v then some (str v) else none

module _ {F : Type 0} ⦃n : Number F⦄ ⦃s : Spelling F⦄ ⦃p : IntParsing⦄ where
  -- `int(str(v or 1))`
  abbrev pub leverage_of : Option (Json F) → Result ℤ
  leverage_of v = p.parse_int (text_or v "1")
