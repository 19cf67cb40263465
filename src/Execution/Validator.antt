-- ===== src/Execution/Validator.antt =====
-- src/cats_py/execution/validator.py: `SymbolRule`, `floor_to_step` and `PreTradeValidator.validate`.
-- A `raise` leaves the block; the order of the checks is the source's.
use nofx_cats_py.Prelude.{
  Bool, true, false, not, ◌&&◌, ◌||◌, Option, none, some, String, [], ◌∷◌, ◌==◌, string_eq, concat,
  is_some, if◌then◌else◌,
}
use nofx_cats_py.Result.{Result, ok, raise, key_error, value_error}
use nofx_cats_py.Raise.{◌>>=◌, ◌>>◌, raise_if}
use nofx_cats_py.Dict.{Dict, lookup}
use nofx_cats_py.Num.{Number, Decimal, down, quantize, ◌+◌, ◌-◌, ◌*◌, ◌/◌, ◌<?◌, ◌≤?◌, ◌=?◌, num}
use nofx_cats_py.Domain.Enums.{OrderType, limit, market, is_market}
use nofx_cats_py.Domain.Orders.{OrderRequest}

pub record SymbolRule (D F : Type 0) : Type 0 where
  pub symbol : String
  pub tick_size : D
  pub step_size : D
  pub min_qty : D
  pub min_notional : D
  pub market_step_size : Option D
  pub market_min_qty : Option D
  pub market_max_qty : Option D
  pub min_price : Option D
  pub max_price : Option D
  pub percent_price_up : Option D
  pub percent_price_down : Option D
  pub market_take_bound : Option D
  pub trigger_protect : Option D
  pub max_initial_leverage : Option F
  pub max_notional_cap : Option D
  pub status : String

-- `order_type in ALGO_ORDER_TYPES`: every type but LIMIT and MARKET.
abbrev pub is_algo_type : OrderType → Bool
is_algo_type limit = false
is_algo_type market = false
is_algo_type _ = true

module _ {D : Type 0} ⦃n : Number D⦄ ⦃q : Decimal D⦄ where
  unfoldable pub floor_to_step : D → D → Result D
  floor_to_step value step =
      if step ≤? num 0
      then raise (value_error "step must be > 0")
      else ok (quantize down 0 (value / step) * step)

  -- `x = floor_to_step(x, step)` where `x` may be absent.
  unfoldable pub floor_option : Option D → D → Result (Option D)
  unfolding floor_to_step
  floor_option none step = ok none
  floor_option (some v) step = elim (floor_to_step v step) [
    | ok w ↦ ok (some w)
    | raise e ↦ raise e
  ]

  -- `order_type == MARKET and o`, the market rule if it is there and not zero.
  abbrev pub market_rule : OrderType → Option D → Option D
  market_rule t none = none
  market_rule t (some x) = if is_market t && not (x =? num 0) then some x else none

  abbrev pub rule_or : Option D → D → D
  rule_or none d = d
  rule_or (some x) d = x

  -- `bound is not None and test`, for an optional bound.
  abbrev pub fails : Option D → (D → Bool) → Bool
  fails none test = false
  fails (some x) test = test x

  -- `a or b` on optional prices: a price of zero is false.
  abbrev pub or_price : Option D → Option D → Option D
  or_price none b = b
  or_price (some x) b = if x =? num 0 then b else some x

  abbrev pub notional_below : Option D → Option D → D → Bool
  notional_below (some price) (some qty) least = (price * qty) <? least
  notional_below _ _ least = false

  -- lines 120-124: the bound on a market order's price, where all three values are there.
  abbrev pub outside_take_bound : Option D → Option D → Option D → Bool
  outside_take_bound (some bound) (some price) (some mark) =
      ((mark * (num 1 + bound)) <? price) || (price <? (mark * (num 1 - bound)))
  outside_take_bound _ _ _ = false

  abbrev pub above_percent : Option D → Option D → Option D → Bool
  above_percent (some up) (some price) (some mark) = (mark * up) <? price
  above_percent _ _ _ = false

  abbrev pub below_percent : Option D → Option D → Option D → Bool
  below_percent (some low) (some price) (some mark) = price <? (mark * low)
  below_percent _ _ _ = false

-- lines 77-84
unfoldable pub check_flags : {D : Type 0} → OrderRequest D → Result (Unit {0})
check_flags r = do
  raise_if (is_algo_type r.order_type && r.close_position && is_some r.quantity)
      (value_error "closePosition=true cannot be sent with quantity for algo orders")
  raise_if (is_algo_type r.order_type && r.close_position && r.reduce_only)
      (value_error "closePosition=true cannot be sent with reduceOnly for algo orders")
  raise_if (r.reduce_only && not (r.position_side == "BOTH"))
      (value_error "reduceOnly cannot be sent in hedge mode")

module _ {D F : Type 0} ⦃n : Number D⦄ ⦃q : Decimal D⦄ where
  -- lines 86-96
  unfoldable pub check_quantity : SymbolRule D F → OrderRequest D → Result (Option D)
  check_quantity rules r =
      let step = rule_or (market_rule r.order_type rules.market_step_size) rules.step_size in
      let least = rule_or (market_rule r.order_type rules.market_min_qty) rules.min_qty in
      let most = market_rule r.order_type rules.market_max_qty in
      elim r.quantity [
        | none ↦ ok none
        | some v ↦ do
          qty ← floor_to_step v step
          raise_if (qty <? least) (value_error "quantity below minQty")
          raise_if (fails most (λ m. m <? qty)) (value_error "quantity above maxQty")
          ok (some qty)
      ]

  -- lines 98-103
  unfoldable pub check_price : SymbolRule D F → OrderRequest D → Result (Option D)
  check_price rules r = elim r.price [
    | none ↦ ok none
    | some v ↦ do
      price ← floor_to_step v rules.tick_size
      raise_if (fails rules.min_price (λ m. price <? m)) (value_error "price below minPrice")
      raise_if (fails rules.max_price (λ m. m <? price)) (value_error "price above maxPrice")
      ok (some price)
  ]

  -- lines 111-130, on the normalised quantity and price
  unfoldable pub check_limits :
      SymbolRule D F → OrderType → (qty price mark : Option D) → Result (Unit {0})
  check_limits rules type qty price mark = do
    raise_if (notional_below price qty rules.min_notional) (value_error "notional below minimum")
    raise_if (notional_below (or_price mark price) qty rules.min_notional)
        (value_error "notional below minimum")
    raise_if
        (is_market type && is_some qty && outside_take_bound rules.market_take_bound price mark)
        (value_error "market execution price outside marketTakeBound")
    raise_if (above_percent rules.percent_price_up price mark)
        (value_error "price above PERCENT_PRICE upper bound")
    raise_if (below_percent rules.percent_price_down price mark)
        (value_error "price below PERCENT_PRICE lower bound")

  -- lines 77-132, on the symbol's rules
  unfoldable pub normalise : SymbolRule D F → OrderRequest D → Option D → Result (OrderRequest D)
  normalise rules r mark = do
    check_flags r
    qty ← check_quantity rules r
    price ← check_price rules r
    trigger ← floor_option r.trigger_price rules.tick_size
    activate ← floor_option r.activate_price rules.tick_size
    check_limits rules r.order_type qty price mark
    ok (record r {
      quantity = qty;
      price = price;
      trigger_price = trigger;
      activate_price = activate;
    })

  unfoldable pub validate :
      Dict String (SymbolRule D F) → OrderRequest D → Option D → Result (OrderRequest D)
  validate symbol_rules request mark = elim (lookup request.symbol symbol_rules) [
    | none ↦ raise (key_error (concat ("missing rules for symbol=" ∷ request.symbol ∷ [])))
    | some rules ↦
        if not (rules.status == "TRADING")
        then raise (value_error (concat ("symbol not tradable: " ∷ request.symbol ∷ [])))
        else normalise rules request mark
  ]
