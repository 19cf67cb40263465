-- ===== src/Tests/Execution.antt =====
-- The execution service and the guardian on concrete orders.
use nofx_cats_py.Prelude.{
  ℕ, ◌≡◌, ◌≢◌, ◌⊎◌, refl, true, false, ◌||◌, none, some, List, [], ◌∷◌, All, any, map, select,
  string_eq, pair_eq, leb,
}
use nofx_cats_py.Prelude.Int.{ℤ}
use nofx_cats_py.Result.{Result, ok, raise, Exception, runtime_error, other_error}
use nofx_cats_py.Dict.{values, lookup, insert}
use nofx_cats_py.Num.{fixed, fixed_decimal}
use nofx_cats_py.Json.{get, find, str, str_or, truth, or_json}
use nofx_cats_py.Domain.Enums.{canceled}
use nofx_cats_py.Domain.Orders.{OrderResponse}
use nofx_cats_py.Domain.Account.{activate_kill_switch}
use nofx_cats_py.Execution.Validator.{
  floor_to_step, floor_option, check_flags, check_quantity, check_price, check_limits, normalise,
  validate,
}
use nofx_cats_py.Execution.Router.{
  build_disaster_stop_request, to_payload, extract_order_id, extract_status, place,
}
use nofx_cats_py.Execution.Guardian.Heartbeat.{
  Guardian, pending, new_guardian, failures_of, beats, start_auto_cancel, stop_auto_cancel,
}
use nofx_cats_py.Execution.Guardian.Streaks.{beating, trailing, two_in_a_row, is_active, beats_lem}
use nofx_cats_py.Execution.Guardian.Watch.{
  has_active_protection, find_unprotected_positions, find_unprotected_from,
  handle_protection_order_update, unprotected_alert, place_disaster_stop,
}
use nofx_cats_py.Execution.Guardian.Alerts.{
  is_exposed, SameBooks, find_unprotected_positions_lem, handle_protection_order_update_lem,
  lost_protection,
}
use nofx_cats_py.Execution.Protection.{
  has_existing_protection, build_trigger_price, build_plan, ensure_disaster_stop,
  default_stop_distance_pct,
}
use nofx_cats_py.Execution.Service.{
  Cycle, ExecutionCycleResult, handle_order_update, resume, watch, has_open_symbol_position,
}
use nofx_cats_py.Execution.Safety.{
  handle_order_update_account, handle_order_update_safe, placed_stop_trips_kill_switch,
}
use nofx_cats_py.Tests.Samples.{value_or, account, entry_order, stop_order, router, sample_spelling}

abbrev no_result : ExecutionCycleResult
no_result = record {
  placed_protection = none;
  protection_alerts = [];
  heartbeat_started = [];
  heartbeat_stopped = [];
}

-- The fill of an entry order, with a router that places the stop.
abbrev filled_cycle : Cycle ℤ
filled_cycle =
    handle_order_update (some router) default_stop_distance_pct new_guardian account entry_order

-- The same with no router at hand, which raises.
abbrev failed_cycle : Cycle ℤ
failed_cycle =
    handle_order_update {F = ℤ} none default_stop_distance_pct new_guardian account entry_order

abbrev stop_placed : OrderResponse
stop_placed = record { venue_order_id = some "11"; route = "algo"; status = "submitted" }

abbrev cycle_result : ExecutionCycleResult
cycle_result = value_or no_result filled_cycle.result

filled_cycle_returns : filled_cycle.result ≡ ok cycle_result
unfolding handle_order_update resume watch ensure_disaster_stop build_plan build_trigger_price
    place_disaster_stop build_disaster_stop_request place validate normalise check_flags
    check_quantity check_price check_limits floor_option floor_to_step to_payload insert
    extract_order_id extract_status get find str str_or truth or_json start_auto_cancel
    stop_auto_cancel handle_protection_order_update find_unprotected_positions find_unprotected_from
    activate_kill_switch has_active_protection has_existing_protection has_open_symbol_position
    lookup
filled_cycle_returns = refl

filled_cycle_places : cycle_result.placed_protection ≡ some stop_placed
unfolding handle_order_update resume watch ensure_disaster_stop build_plan build_trigger_price
    place_disaster_stop build_disaster_stop_request place validate normalise check_flags
    check_quantity check_price check_limits floor_option floor_to_step to_payload insert
    extract_order_id extract_status get find str str_or truth or_json start_auto_cancel
    stop_auto_cancel handle_protection_order_update find_unprotected_positions find_unprotected_from
    activate_kill_switch has_active_protection has_existing_protection has_open_symbol_position
    lookup
filled_cycle_places = refl

handle_order_update_account_example :
    SameBooks account filled_cycle.account
    × (filled_cycle.account.kill_switch_active ≡ (
        account.kill_switch_active
        || lost_protection account entry_order
        || any (is_exposed account) (values account.positions)))
handle_order_update_account_example =
    handle_order_update_account (some router) default_stop_distance_pct new_guardian account
      entry_order filled_cycle_returns

handle_order_update_safe_example :
    (filled_cycle.account.kill_switch_active ≡ true)
    ⊎ All (λ p. is_exposed filled_cycle.account p ≡ false) (values filled_cycle.account.positions)
handle_order_update_safe_example =
    handle_order_update_safe (some router) default_stop_distance_pct new_guardian account
      entry_order filled_cycle_returns

placed_stop_trips_kill_switch_example : filled_cycle.account.kill_switch_active ≡ true
placed_stop_trips_kill_switch_example =
    placed_stop_trips_kill_switch (some router) default_stop_distance_pct new_guardian account
      entry_order filled_cycle_returns filled_cycle_places

abbrev no_router : Exception
no_router = runtime_error "PositionGuardian requires an OrderRouter to place disaster stops"

failed_cycle_raises : failed_cycle.result ≡ raise no_router
unfolding handle_order_update resume ensure_disaster_stop build_plan build_trigger_price
    place_disaster_stop has_existing_protection lookup
failed_cycle_raises = refl

find_unprotected_positions_lem_example :
    ((find_unprotected_positions account).0
      ≡ map unprotected_alert (select (is_exposed account) (values account.positions)))
    × ((find_unprotected_positions account).1.kill_switch_active
        ≡ (account.kill_switch_active || any (is_exposed account) (values account.positions)))
    × SameBooks account (find_unprotected_positions account).1
find_unprotected_positions_lem_example = find_unprotected_positions_lem account

handle_protection_order_update_lem_example :
    let (alert, t) = handle_protection_order_update account (stop_order canceled) in
    ((lost_protection account (stop_order canceled) ≡ true)
      × (alert ≢ none)
      × (t.kill_switch_active ≡ true)
      × SameBooks account t)
    ⊎ ((lost_protection account (stop_order canceled) ≡ false) × (alert ≡ none) × (t ≡ account))
handle_protection_order_update_lem_example =
    handle_protection_order_update_lem account (stop_order canceled)

-- A guardian that runs one heartbeat, and the answers that it gets.
abbrev guarding : Guardian
guarding = record new_guardian { heartbeat_tasks = ("BTCUSDT", pending) ∷ [] }

abbrev answers : List (Result ℕ)
answers = ok 0 ∷ raise (other_error "timeout") ∷ raise (other_error "timeout") ∷ ok 0 ∷ []

guarding_beats : beating guarding "BTCUSDT" ≡ true
unfolding lookup
guarding_beats = refl

beats_lem_example :
    let (g', s') = beats "BTCUSDT" answers (guarding, some account) in
    (failures_of g' "BTCUSDT" ≡ trailing (failures_of guarding "BTCUSDT") answers)
    × (is_active s' ≡ (
        is_active (some account) || two_in_a_row (leb 1 (failures_of guarding "BTCUSDT")) answers))
beats_lem_example = beats_lem "BTCUSDT" answers guarding (some account) guarding_beats refl
