-- ===== src/Execution/Guardian/Watch.antt =====
-- `PositionGuardian`: the disaster stop, and the positions that no protective order covers.
use nofx_cats_py.Prelude.{
  Bool, true, false, not, ◌&&◌, ◌||◌, Option, none, some, String, List, [], ◌∷◌, ◌==◌, string_eq,
  pair_eq, concat, lower, any, if◌then◌else◌,
}
use nofx_cats_py.Result.{Result, raise, runtime_error}
use nofx_cats_py.Dict.{lookup, values}
use nofx_cats_py.Num.{Number, Decimal}
use nofx_cats_py.Json.{Spelling}
use nofx_cats_py.Domain.Enums.{
  Side, OrderLifecycleStatus, new, partially_filled, refused, canceled, expired, lifecycle_value,
}
use nofx_cats_py.Domain.Orders.{OrderResponse, OrderState}
use nofx_cats_py.Domain.Positions.{PositionState, is_open}
use nofx_cats_py.Domain.Account.{AccountState, activate_kill_switch}
use nofx_cats_py.Execution.Router.{OrderRouter, Submission, build_disaster_stop_request, place}

pub record ProtectionAlert : Type 0 where
  pub symbol : String
  pub position_side : String
  pub reason : String
  pub severity : String

abbrev pub in_working_set : OrderLifecycleStatus → Bool
in_working_set new = true
in_working_set partially_filled = true
in_working_set _ = false

abbrev pub in_ended_set : OrderLifecycleStatus → Bool
in_ended_set refused = true
in_ended_set canceled = true
in_ended_set expired = true
in_ended_set _ = false

module _ {D : Type 0} where
  -- The condition of the loop of `has_active_protection`.
  abbrev pub protects : PositionState D → OrderState D → Bool
  protects p o =
      o.symbol == p.symbol
      && o.position_side == p.position_side
      && o.is_algo
      && o.close_position
      && in_working_set o.status

  unfoldable pub has_active_protection : AccountState D → PositionState D → Bool
  has_active_protection s p = any (protects p) (values s.orders)

  abbrev pub unprotected_reason : PositionState D → String
  unprotected_reason p =
      concat ("missing active protective stop for " ∷ p.symbol ∷ ":" ∷ p.position_side ∷ [])

  abbrev pub unprotected_alert : PositionState D → ProtectionAlert
  unprotected_alert p = record {
    symbol = p.symbol;
    position_side = p.position_side;
    reason = unprotected_reason p;
    severity = "critical";
  }

module _ {D : Type 0} ⦃n : Number D⦄ where
  -- The loop of `find_unprotected_positions`.
  unfoldable pub find_unprotected_from :
      List (PositionState D) → AccountState D → List ProtectionAlert × AccountState D
  find_unprotected_from [] s = ([], s)
  find_unprotected_from (p ∷ ps) s =
      let skip = find_unprotected_from ps s in
      let alarm = find_unprotected_from ps (activate_kill_switch (unprotected_reason p) s) in
      if not (is_open p) || has_active_protection s p
      then skip
      else (unprotected_alert p ∷ alarm.0, alarm.1)

  unfoldable pub find_unprotected_positions : AccountState D → List ProtectionAlert × AccountState D
  unfolding find_unprotected_from
  find_unprotected_positions s = find_unprotected_from (values s.positions) s

  abbrev pub ended_reason : OrderState D → String
  ended_reason o = concat (
      "protective order "
      ∷ lower (lifecycle_value o.status)
      ∷ " for "
      ∷ o.symbol
      ∷ ":"
      ∷ o.position_side
      ∷ [])

  -- `handle_protection_order_update`, for an order that is there.
  unfoldable pub handle_protection_order_update :
      AccountState D → OrderState D → Option ProtectionAlert × AccountState D
  handle_protection_order_update s o =
      if not o.is_algo || not o.close_position
      then (none, s)
      else (if not (in_ended_set o.status)
          then (none, s)
          else elim (lookup (o.symbol, o.position_side) s.positions) [
            | none ↦ (none, s)
            | some p ↦ if not (is_open p) then (none, s) else (
              some (record {
                symbol = o.symbol;
                position_side = o.position_side;
                reason = ended_reason o;
                severity = "critical";
              }),
              activate_kill_switch (ended_reason o) s,
            )
          ])

module _ {D F : Type 0} ⦃n : Number D⦄ ⦃q : Decimal D⦄ ⦃m : Number F⦄ ⦃s : Spelling F⦄ where
  unfoldable pub place_disaster_stop :
      Option (OrderRouter D F)
      → (symbol : String) → Side
      → (trigger_price : D) → (position_side : String) → (client_order_id : Option String)
      → List Submission × Result OrderResponse
  place_disaster_stop none symbol exit_side trigger_price position_side client_order_id =
      ([], raise (runtime_error "PositionGuardian requires an OrderRouter to place disaster stops"))
  place_disaster_stop (some router) symbol exit_side trigger_price position_side client_order_id =
      place router.venue router.symbol_rules
        (build_disaster_stop_request symbol exit_side trigger_price position_side client_order_id)
        none
