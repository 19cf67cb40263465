-- ===== src/Execution/Checks.antt =====
-- What `PreTradeValidator.validate` guarantees of an order that it lets through.
use nofx_cats_py.Prelude.{
  ◌≡◌, true, false, not, ◌&&◌, String, arith, string_eq, ◌==◌, if◌then◌else◌, Option, none, some,
  inl, inr, Option-cases, is_some,
}
use nofx_cats_py.Result.{ok, raise, value_error}
use nofx_cats_py.Dict.{Dict, lookup}
use nofx_cats_py.Num.{Number, Decimal, down, quantize, num, ◌≤?◌, ◌<?◌, ◌*◌, ◌/◌}
use nofx_cats_py.Domain.Enums.{Side, OrderType, is_market}
use nofx_cats_py.Domain.Orders.{OrderRequest}
use nofx_cats_py.Execution.Validator.{
  SymbolRule, is_algo_type, floor_to_step, floor_option, market_rule, rule_or, fails,
  notional_below, check_flags, check_quantity, check_price, check_limits, normalise, validate,
  or_price, outside_take_bound, above_percent, below_percent,
}
use nofx_cats_py.Execution.Router.{build_disaster_stop_request}

module _ {D : Type 0} where
  check_flags_facts :
      (r : OrderRequest D)
      → check_flags r ≡ ok tt
      → ((is_algo_type r.order_type && r.close_position && is_some r.quantity) ≡ false)
        × ((is_algo_type r.order_type && r.close_position && r.reduce_only) ≡ false)
        × ((r.reduce_only && not (r.position_side == "BOTH")) ≡ false)
  unfolding check_flags
  check_flags_facts r h = ground arith

module _ {D : Type 0} ⦃n : Number D⦄ ⦃q : Decimal D⦄ where
  -- `b` is `a` cut down to a multiple of a positive step.
  abbrev pub IsFloored : D → Option D → Option D → Type 0
  IsFloored step none b = b ≡ none
  IsFloored step (some x) b =
      ((step ≤? num 0) ≡ false) × (b ≡ some (quantize down 0 (x / step) * step))

  floor_option_facts :
      (x : Option D) (step : D) {y : Option D} → floor_option x step ≡ ok y → IsFloored step x y
  unfolding floor_option
  floor_option_facts x step h = ground arith

module _ {D F : Type 0} ⦃n : Number D⦄ ⦃q : Decimal D⦄ where
  -- The parts of a normalisation that succeeded.
  pub record IsNormalised (rules : SymbolRule D F) (r : OrderRequest D) (mark : Option D)
      (v : OrderRequest D) : Type 0 where
    pub flags : check_flags r ≡ ok tt
    pub quantity : check_quantity rules r ≡ ok v.quantity
    pub price : check_price rules r ≡ ok v.price
    pub trigger : floor_option r.trigger_price rules.tick_size ≡ ok v.trigger_price
    pub activate : floor_option r.activate_price rules.tick_size ≡ ok v.activate_price
    pub limits : check_limits rules r.order_type v.quantity v.price mark ≡ ok tt
    pub frame : v ≡ record r {
      quantity = v.quantity;
      price = v.price;
      trigger_price = v.trigger_price;
      activate_price = v.activate_price;
    }

  normalise-IsNormalised :
      (rules : SymbolRule D F) (r : OrderRequest D) (mark : Option D) {v : OrderRequest D}
      → normalise rules r mark ≡ ok v
      → IsNormalised rules r mark v
  unfolding normalise
  normalise-IsNormalised rules r mark h = ground arith

  abbrev pub step_for : SymbolRule D F → OrderType → D
  step_for rules t = rule_or (market_rule t rules.market_step_size) rules.step_size

  abbrev pub least_for : SymbolRule D F → OrderType → D
  least_for rules t = rule_or (market_rule t rules.market_min_qty) rules.min_qty

  abbrev pub most_for : SymbolRule D F → OrderType → Option D
  most_for rules t = market_rule t rules.market_max_qty

  -- What is asked of an order, in the form in which it is sent: no quantity or `reduceOnly` beside
  -- `closePosition`, no `reduceOnly` in hedge mode, and the bounds on quantity, price and notional, the
  -- price of a market order and the distance from the mark price.
  pub record MeetsRules (rules : SymbolRule D F) (mark : Option D) (v : OrderRequest D)
      : Type 0 where
    pub close_without_quantity :
        (is_algo_type v.order_type && v.close_position && is_some v.quantity) ≡ false
    pub close_without_reduce_only :
        (is_algo_type v.order_type && v.close_position && v.reduce_only) ≡ false
    pub reduce_only_one_way : (v.reduce_only && not (v.position_side == "BOTH")) ≡ false
    pub quantity_large : fails v.quantity (λ y. y <? least_for rules v.order_type) ≡ false
    pub quantity_small :
        fails v.quantity (λ y. fails (most_for rules v.order_type) (λ m. m <? y)) ≡ false
    pub price_high : fails v.price (λ p. fails rules.min_price (λ m. p <? m)) ≡ false
    pub price_low : fails v.price (λ p. fails rules.max_price (λ m. m <? p)) ≡ false
    pub notional_large : notional_below v.price v.quantity rules.min_notional ≡ false
    pub marked_notional_large :
        notional_below (or_price mark v.price) v.quantity rules.min_notional ≡ false
    pub take_bound :
        (is_market v.order_type
          && is_some v.quantity
          && outside_take_bound rules.market_take_bound v.price mark)
        ≡ false
    pub percent_high : above_percent rules.percent_price_up v.price mark ≡ false
    pub percent_low : below_percent rules.percent_price_down v.price mark ≡ false

  check_quantity_facts :
      (rules : SymbolRule D F) (r : OrderRequest D) {y : Option D}
      → check_quantity rules r ≡ ok y
      → IsFloored (step_for rules r.order_type) r.quantity y
        × (fails y (λ y. y <? least_for rules r.order_type) ≡ false)
        × (fails y (λ y. fails (most_for rules r.order_type) (λ m. m <? y)) ≡ false)
  unfolding check_quantity floor_to_step
  check_quantity_facts rules r h = ground arith

  check_price_facts :
      (rules : SymbolRule D F) (r : OrderRequest D) {y : Option D}
      → check_price rules r ≡ ok y
      → IsFloored rules.tick_size r.price y
        × (fails y (λ p. fails rules.min_price (λ m. p <? m)) ≡ false)
        × (fails y (λ p. fails rules.max_price (λ m. m <? p)) ≡ false)
  unfolding check_price floor_to_step
  check_price_facts rules r h = ground arith

  check_limits_facts :
      (rules : SymbolRule D F) (t : OrderType) (qty price mark : Option D)
      → check_limits rules t qty price mark ≡ ok tt
      → (notional_below price qty rules.min_notional ≡ false)
        × (notional_below (or_price mark price) qty rules.min_notional ≡ false)
        × ((is_market t && is_some qty && outside_take_bound rules.market_take_bound price mark)
            ≡ false)
        × (above_percent rules.percent_price_up price mark ≡ false)
        × (below_percent rules.percent_price_down price mark ≡ false)
  unfolding check_limits
  check_limits_facts rules t qty price mark h = ground arith

module _ {D F : Type 0} ⦃n : Number D⦄ ⦃q : Decimal D⦄ where
  normalised-MeetsRules :
      (rules : SymbolRule D F) (r : OrderRequest D) (mark : Option D) {v : OrderRequest D}
      → IsNormalised rules r mark v
      → MeetsRules rules mark v
  normalised-MeetsRules rules r mark {v} h = ground (
    arith,
    check_flags_facts r h.flags,
    check_quantity_facts rules r h.quantity,
    check_price_facts rules r h.price,
    check_limits_facts rules r.order_type v.quantity v.price mark h.limits,
    h.frame,
  )

  -- A request that `validate` lets through names a symbol with rules that is trading, and what comes out
  -- satisfies the rules on flags, on the bounds of quantity, price and notional, on the price of a
  -- market order and on the distance from the mark price; the cap on the notional of a leverage bracket
  -- is not one of them.
  pub validate-MeetsRules :
      (rules : Dict String (SymbolRule D F)) (r : OrderRequest D) (mark : Option D)
      {v : OrderRequest D}
      → validate rules r mark ≡ ok v
      → (rule : SymbolRule D F) × (lookup r.symbol rules ≡ some rule)
        × ((rule.status == "TRADING") ≡ true)
        × MeetsRules rule mark v
  unfolding validate
  validate-MeetsRules rules r mark {v} h = elim (Option-cases (lookup r.symbol rules)) [
    | inl missing ↦ absurd (ground arith)
    | inr (rule, found) ↦
        let trading : (rule.status == "TRADING") ≡ true = ground arith in
        let done : normalise rule r mark ≡ ok v = ground arith in
        (
          rule,
          found,
          trading,
          normalised-MeetsRules rule r mark (normalise-IsNormalised rule r mark done),
        )
  ]

  -- What comes out of `validate` is the request with quantity, price, trigger and activation price cut
  -- down to multiples of the rule's steps, and every other field as it was.
  pub validate-frame :
      (rules : Dict String (SymbolRule D F)) (r : OrderRequest D) (mark : Option D)
      {v : OrderRequest D} (rule : SymbolRule D F)
      → lookup r.symbol rules ≡ some rule
      → validate rules r mark ≡ ok v
      → IsFloored (step_for rule r.order_type) r.quantity v.quantity
        × IsFloored rule.tick_size r.price v.price
        × IsFloored rule.tick_size r.trigger_price v.trigger_price
        × IsFloored rule.tick_size r.activate_price v.activate_price
        × (v ≡ record r {
          quantity = v.quantity;
          price = v.price;
          trigger_price = v.trigger_price;
          activate_price = v.activate_price;
        })
  unfolding validate
  validate-frame rules r mark {v} rule found h =
      let done : normalise rule r mark ≡ ok v = ground arith in
      let parts = normalise-IsNormalised rule r mark done in
      (
        (check_quantity_facts rule r parts.quantity).0,
        (check_price_facts rule r parts.price).0,
        floor_option_facts r.trigger_price rule.tick_size parts.trigger,
        floor_option_facts r.activate_price rule.tick_size parts.activate,
        parts.frame,
      )

  -- A disaster stop for a symbol that is trading passes validation, whatever the mark price and the
  -- rule's bounds, with only its trigger price cut down to the tick, unless the tick is not positive,
  -- which raises `ValueError`.
  pub validate-build_disaster_stop_request :
      (rules : Dict String (SymbolRule D F)) (symbol : String) (side : Side) (trigger : D)
      (position_side : String) (id : Option String) (mark : Option D) (rule : SymbolRule D F)
      → lookup symbol rules ≡ some rule
      → (rule.status == "TRADING") ≡ true
      → validate rules (build_disaster_stop_request symbol side trigger position_side id) mark ≡ (
          if rule.tick_size ≤? num 0
          then raise (value_error "step must be > 0")
          else ok (record (build_disaster_stop_request symbol side trigger position_side id) {
            trigger_price = some (quantize down 0 (trigger / rule.tick_size) * rule.tick_size);
          }))
  unfolding validate normalise check_flags check_quantity check_price check_limits floor_option
      build_disaster_stop_request floor_to_step
  validate-build_disaster_stop_request rules symbol side trigger position_side id mark rule found
        trading =
      ground arith
