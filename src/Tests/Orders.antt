-- ===== src/Tests/Orders.antt =====
-- The validator and the router on concrete orders.
use nofx_cats_py.Prelude.{◌≡◌, refl, true, none, some, string_eq, pair_eq, ◌==◌, if◌then◌else◌}
use nofx_cats_py.Prelude.Int.{ℤ, pos}
use nofx_cats_py.Result.{ok, raise, value_error}
use nofx_cats_py.Dict.{lookup}
use nofx_cats_py.Num.{fixed, fixed_decimal, lit, quantize, down, ◌≤?◌, ◌/◌, ◌*◌}
use nofx_cats_py.Domain.Enums.{sell}
use nofx_cats_py.Domain.Orders.{OrderRequest}
use nofx_cats_py.Execution.Validator.{
  SymbolRule, floor_to_step, floor_option, check_flags, check_quantity, check_price, check_limits,
  normalise, validate,
}
use nofx_cats_py.Execution.Router.{build_disaster_stop_request}
use nofx_cats_py.Execution.Checks.{
  MeetsRules, IsFloored, step_for, validate-MeetsRules, validate-frame,
  validate-build_disaster_stop_request,
}
use nofx_cats_py.Tests.Samples.{value_or, whole, rule, rules, request, sample_spelling}

abbrev validated : OrderRequest ℤ
validated = value_or request (validate rules request (some (whole 100)))

request_passes : validate rules request (some (whole 100)) ≡ ok validated
unfolding build_disaster_stop_request validate normalise check_flags check_quantity check_price
    check_limits floor_option floor_to_step lookup
request_passes = refl

rule_found : lookup "BTCUSDT" rules ≡ some rule
unfolding lookup
rule_found = refl

validate-MeetsRules_example :
    (rule : SymbolRule ℤ ℤ) × (lookup request.symbol rules ≡ some rule)
    × ((rule.status == "TRADING") ≡ true)
    × MeetsRules rule (some (whole 100)) validated
validate-MeetsRules_example = validate-MeetsRules rules request (some (whole 100)) request_passes

validate-frame_example :
    IsFloored (step_for rule request.order_type) request.quantity validated.quantity
    × IsFloored rule.tick_size request.price validated.price
    × IsFloored rule.tick_size request.trigger_price validated.trigger_price
    × IsFloored rule.tick_size request.activate_price validated.activate_price
    × (validated ≡ record request {
      quantity = validated.quantity;
      price = validated.price;
      trigger_price = validated.trigger_price;
      activate_price = validated.activate_price;
    })
unfolding build_disaster_stop_request
validate-frame_example =
    validate-frame rules request (some (whole 100)) rule rule_found request_passes

abbrev stop_request : OrderRequest ℤ
stop_request = build_disaster_stop_request "BTCUSDT" sell (lit (pos 9812) 2) "BOTH" none

validate-build_disaster_stop_request_example : validate rules stop_request (some (whole 100)) ≡ (
    if rule.tick_size ≤? whole 0
    then raise (value_error "step must be > 0")
    else ok (record stop_request {
      trigger_price = some (quantize down 0 (lit (pos 9812) 2 / rule.tick_size) * rule.tick_size);
    }))
validate-build_disaster_stop_request_example =
    validate-build_disaster_stop_request rules "BTCUSDT" sell (lit (pos 9812) 2) "BOTH" none
      (some (whole 100)) rule rule_found refl
