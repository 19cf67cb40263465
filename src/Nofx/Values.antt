-- ===== src/Nofx/Values.antt =====
-- The values of the data source's answers. A missing dict is an empty one; `get` on what is no dict
-- raises.
use Prim.Native.String.{String}
use nofx_cats_py.Prelude.{
  ℕ, Bool, true, false, ◌||◌, Option, none, some, List, [], ◌∷◌, concat, ltb, or_else, string_eq,
  ◌==◌, if◌then◌else◌,
}
use nofx_cats_py.Prelude.Int.{pos}
use nofx_cats_py.Result.{Exception, value_error, other_error, Result, ok, raise}
use nofx_cats_py.Raise.{◌>>=◌}
use nofx_cats_py.Dict.{Dict}
use nofx_cats_py.Num.{Number, ◌/◌, num, lit}
use nofx_cats_py.Json.{Json, Items, null, text, array, object, nil, end, get, is_object, truth}
use nofx_cats_py.User.Values.{Timing, timestamp}

module _ {F : Type 0} where
  -- `v.get(key)`
  abbrev pub field_of : (key : String) → Json F → Result (Option (Json F))
  field_of key v = if is_object v then ok (get key v) else raise (other_error "AttributeError")

  -- `v.get(key, {})`
  abbrev pub sub : (key : String) → Json F → Result (Json F)
  sub key v =
      if is_object v
      then ok (or_else (get key v) (object end))
      else raise (other_error "AttributeError")

  -- What a loop over `v.get(key, [])` goes through; the characters of a text and the keys of a dict,
  -- which the loops pass over, are left out.
  unfoldable pub looped : Option (Json F) → Result (Items F)
  looped none = ok nil
  looped (some (array items)) = ok items
  looped (some (text s)) = ok nil
  looped (some (object fields)) = ok nil
  looped (some v) = raise (other_error "TypeError")

module _ {F : Type 0} ⦃n : Number F⦄ ⦃t : Timing F⦄ where
  -- `float(v or 0.0)`
  unfoldable pub float_or_zero : Option (Json F) → Result F
  float_or_zero none = ok (num 0)
  float_or_zero (some v) = if truth v then t.parse_float v else ok (num 0)

  -- `_to_ratio`
  unfoldable pub to_ratio : (already_percent_literal : Bool) → Option (Json F) → Result F
  to_ratio percent none = ok (num 0)
  to_ratio percent (some null) = ok (num 0)
  to_ratio percent (some v) = do
    result ← t.parse_float v
    ok (if percent then result / num 100 else result)

  unfoldable pub normalize_timestamp : (clock : ℕ) → Option (Json F) → Result ℕ
  normalize_timestamp clock none = ok clock
  normalize_timestamp clock (some null) = ok clock
  normalize_timestamp clock (some v) = do ts ← t.parse_float v; timestamp ts

  -- The times of the arguments that are not `None`.
  unfoldable pub normalized : (clock : ℕ) → List (Option (Json F)) → Result (List ℕ)
  unfolding normalize_timestamp
  normalized clock [] = ok []
  normalized clock (none ∷ rest) = normalized clock rest
  normalized clock (some null ∷ rest) = normalized clock rest
  normalized clock (some v ∷ rest) = do
    at ← normalize_timestamp clock (some v)
    times ← normalized clock rest
    ok (at ∷ times)

-- `max` of times, the first of which is given.
unfoldable pub latest : ℕ → List ℕ → ℕ
latest best [] = best
latest best (t ∷ ts) = latest (if ltb best t then t else best) ts

module _ {F : Type 0} ⦃n : Number F⦄ ⦃t : Timing F⦄ where
  unfoldable pub latest_available_timestamp : (clock : ℕ) → List (Option (Json F)) → Result ℕ
  unfolding normalized latest
  latest_available_timestamp clock timestamps = do
    times ← normalized clock timestamps
    elim times [ [] ↦ ok clock | at ∷ rest ↦ ok (latest at rest) ]

-- `except (TypeError, ValueError)`
abbrev pub is_unreadable : Exception → Bool
is_unreadable (value_error s) = true
is_unreadable (other_error s) = s == "TypeError"
is_unreadable _ = false

abbrev price_keys : List String
price_keys =
    "price" ∷ "mark_price" ∷ "markPrice" ∷ "last_price" ∷ "lastPrice" ∷ "close" ∷ "close_price" ∷ []

module _ {F : Type 0} ⦃n : Number F⦄ ⦃t : Timing F⦄ where
  -- The first value under one of the keys that can be read.
  unfoldable pub price_under : List String → Json F → Result F
  price_under [] body = ok (num 0)
  price_under (key ∷ keys) body =
      let rest = price_under keys body in
      elim (get key body) [
        | none ↦ rest
        | some null ↦ rest
        | some v ↦ elim (t.parse_float v) [
          | ok price ↦ ok price
          | raise e ↦ if is_unreadable e then rest else raise e
        ]
      ]

  unfoldable pub extract_reference_price : Json F → Result F
  unfolding price_under
  extract_reference_price body = price_under price_keys body

module _ {F : Type 0} ⦃n : Number F⦄ where
  -- The letters that `level.upper()` finds in the table.
  unfoldable pub ai300_level_to_score : Option (Json F) → Result F
  ai300_level_to_score none = ok (num 0)
  ai300_level_to_score (some null) = ok (num 0)
  ai300_level_to_score (some (text s)) = ok (
      if (s == "A") || (s == "a")
      then num 1
      else if (s == "B") || (s == "b")
      then lit (pos 75) 2
      else if (s == "C") || (s == "c")
      then lit (pos 5) 1
      else if (s == "D") || (s == "d")
      then lit (pos 25) 2
      else num 0)
  ai300_level_to_score (some v) = raise (other_error "AttributeError")

  -- `MAINSTREAM_AI_DEFAULTS`
  abbrev pub mainstream_ai_defaults : Dict String F
  mainstream_ai_defaults =
      ("BTCUSDT", num 75)
      ∷ ("ETHUSDT", num 75)
      ∷ ("SOLUSDT", num 70)
      ∷ ("BNBUSDT", num 65)
      ∷ ("XRPUSDT", num 60)
      ∷ ("DOGEUSDT", num 55)
      ∷ ("LINKUSDT", num 60)
      ∷ []

-- `s.endswith("USDT")`
unfoldable pub ends_with_usdt : String → Bool
ends_with_usdt String.[] = false
ends_with_usdt (String.◌∷◌ c s) = (String.◌∷◌ c s == "USDT") || ends_with_usdt s

-- `symbol if symbol.endswith("USDT") else f"{symbol}USDT"`
abbrev pub usdt_symbol : String → String
usdt_symbol symbol = if ends_with_usdt symbol then symbol else concat (symbol ∷ "USDT" ∷ [])

-- `s.replace("USDT", "")`
unfoldable pub without_usdt : String → String
without_usdt String.[] = String.[]
without_usdt (String.◌∷◌ c String.[]) = String.◌∷◌ c String.[]
without_usdt (String.◌∷◌ c (String.◌∷◌ d String.[])) = String.◌∷◌ c (String.◌∷◌ d String.[])
without_usdt (String.◌∷◌ c (String.◌∷◌ d (String.◌∷◌ e String.[]))) =
    String.◌∷◌ c (String.◌∷◌ d (String.◌∷◌ e String.[]))
without_usdt (String.◌∷◌ c (String.◌∷◌ d (String.◌∷◌ e (String.◌∷◌ f rest)))) =
    let skipped = without_usdt rest in
    let kept = without_usdt (String.◌∷◌ d (String.◌∷◌ e (String.◌∷◌ f rest))) in
    if String.◌∷◌ c (String.◌∷◌ d (String.◌∷◌ e (String.◌∷◌ f String.[]))) == "USDT"
    then skipped
    else String.◌∷◌ c kept
