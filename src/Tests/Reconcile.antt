-- ===== src/Tests/Reconcile.antt =====
-- Reconciliations with concrete answers of the venue.
use Prim.Native.Nat.{◌+◌}
use nofx_cats_py.Prelude.{
  ◌≡◌, ◌↔◌, map, refl, Bool, true, false, not, ◌&&◌, ◌||◌, String, [], ◌∷◌, any, leb, concat, lower,
  string_eq, pair_eq, arith,
}
use nofx_cats_py.Prelude.Int.{ℤ, pos}
use nofx_cats_py.Result.{Exception, ok, raise, value_error}
use nofx_cats_py.Dict.{lookup, insert, insert_all, values}
use nofx_cats_py.Num.{fixed}
use nofx_cats_py.Json.{
  int, text, array, object, nil, cons, end, field, get, find, truth, or_json, str, str_or,
}
use nofx_cats_py.Domain.Enums.{new}
use nofx_cats_py.Domain.Orders.{OrderState, identity}
use nofx_cats_py.Domain.Positions.{PositionState, is_open}
use nofx_cats_py.Domain.Account.{
  AccountState, record_state_mismatch, clear_state_mismatch, record_reconcile_failure,
  activate_kill_switch, clear_reconcile_failure, replace_balances, replace_positions,
  replace_orders, by_key, by_identity, mark_reconciled, upsert_order,
}
use nofx_cats_py.Execution.Guardian.Watch.{has_active_protection, find_unprotected_positions}
use nofx_cats_py.User.Values.{
  parse_order_type, parse_order_status, parse_side, member_of, to_bool, to_decimal, to_datetime,
  parse_position_direction,
}
use nofx_cats_py.User.Events.{Outcome}
use nofx_cats_py.Reconcile.Rows.{string_before, put, sorted, same_list}
use nofx_cats_py.Reconcile.Sorted.{IsTotal}
use nofx_cats_py.Reconcile.Parse.{
  listed, risk_map_of, parse_balances, parse_position, parse_positions, parse_order, parse_orders,
}
use nofx_cats_py.Reconcile.Mismatch.{numbers, order_rows, has_existing_state, is_mismatch}
use nofx_cats_py.Reconcile.Reconciler.{
  Answers, Clocks, Venue, read_venue, diverged, adopt, reconcile,
}
use nofx_cats_py.Reconcile.Agreement.{AreNamed, Agrees, is_mismatch-Agrees}
use nofx_cats_py.Reconcile.Outcome.{IsRebuilt, HasCounted, reconcile-IsRebuilt, reconcile-raise}
use nofx_cats_py.Reconcile.Exposure.{reconcile-unprotected}
use nofx_cats_py.Tests.Samples.{value_or, account, stop_order, sample_spelling}
use nofx_cats_py.Tests.User.{sample_parsing, sample_integers, sample_timing}

ℤ-IsTotal : IsTotal ℤ
ℤ-IsTotal = record {
  same_iff = λ a b. ground arith;
  irrefl = λ a. ground arith;
  trans = λ a b c lower upper. ground arith;
  total = λ a b low high. ground arith;
}

-- The account with its stop order on the books.
abbrev protected : AccountState ℤ
protected = value_or account (upsert_order (stop_order new) account)

abbrev clocks : Clocks
clocks = record { balances_at = 1; positions_at = 2; orders_at = 3; marked_at = 4 }

-- The venue's answers: the account's balance and position, and the entry order.
abbrev answers : Answers ℤ
answers = record {
  account_info = ok (
      object (
        field "assets"
          (array (
            cons (object (field "asset" (text "USDT") (field "walletBalance" (text "100") end)))
              nil))
          (field "positions"
            (array (
              cons (object (field "symbol" (text "BTCUSDT") (field "positionAmt" (text "2") end)))
                nil))
            end)));
  position_risk = ok (object (field "data" (array nil) end));
  open_orders = ok (
      object (
        field "data"
          (array (
            cons
              (object (
                field "symbol" (text "BTCUSDT")
                  (field "orderId" (int (pos 7)) (field "status" (text "NEW") end))))
              nil))
          end));
}

abbrev text_of : Exception → String
text_of e = "error"

abbrev rebuilt : Outcome ℤ
rebuilt = reconcile text_of clocks answers protected

abbrev offline : Answers ℤ
offline = record answers { position_risk = raise (value_error "offline") }

abbrev failed : Outcome ℤ
failed = reconcile text_of clocks offline protected

abbrev order : OrderState ℤ
order = stop_order new

runs :
    (reconcile text_of clocks answers protected ≡ (rebuilt.0, ok tt))
    × (rebuilt.0.state_mismatch_count ≡ 1)
    × (any is_open (values rebuilt.0.positions) ≡ true)
    × (reconcile text_of clocks offline protected ≡ (failed.0, raise (value_error "offline")))
unfolding reconcile read_venue listed risk_map_of parse_balances parse_position parse_positions
    parse_order parse_orders adopt diverged has_existing_state is_mismatch order_rows identity
    sorted put same_list string_before record_state_mismatch clear_state_mismatch
    record_reconcile_failure activate_kill_switch clear_reconcile_failure replace_balances
    replace_positions replace_orders by_key by_identity mark_reconciled upsert_order get find truth
    or_json str str_or concat lower lookup insert insert_all parse_order_type parse_order_status
    parse_side member_of to_bool to_decimal to_datetime parse_position_direction
runs = (refl, refl, refl, refl)

reconcile-IsRebuilt_example :
    (venue : Venue ℤ) × (mismatch : Bool) × (read_venue clocks answers ≡ ok venue)
    × (diverged venue protected ≡ ok mismatch)
    × IsRebuilt venue rebuilt.0
    × HasCounted mismatch protected rebuilt.0
reconcile-IsRebuilt_example = reconcile-IsRebuilt text_of clocks answers protected runs.0

reconcile-raise_example :
    (failed.0.orders ≡ protected.orders)
    × (failed.0.reconcile_failure_count ≡ protected.reconcile_failure_count + 1)
    × ((leb 2 (protected.reconcile_failure_count + 1) && not failed.0.kill_switch_active) ≡ false)
reconcile-raise_example = reconcile-raise text_of clocks offline protected runs.3

reconcile-unprotected_example :
    ((position : PositionState ℤ) → has_active_protection rebuilt.0 position ≡ false)
    × ((find_unprotected_positions rebuilt.0).1.kill_switch_active
        ≡ (rebuilt.0.kill_switch_active || any is_open (values rebuilt.0.positions)))
reconcile-unprotected_example = reconcile-unprotected text_of clocks answers protected runs.0

order-AreNamed : AreNamed (("algo:9", order) ∷ [])
unfolding identity concat
order-AreNamed = (refl, tt)

is_mismatch-Agrees_example :
    (is_mismatch [] [] (map (λ (e : String × OrderState ℤ). e.1) (("algo:9", order) ∷ [])) protected
      ≡ ok false)
    ↔ Agrees protected [] [] (("algo:9", order) ∷ [])
is_mismatch-Agrees_example =
    is_mismatch-Agrees ℤ-IsTotal [] [] (("algo:9", order) ∷ []) protected order-AreNamed
