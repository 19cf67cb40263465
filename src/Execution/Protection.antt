-- ===== src/Execution/Protection.antt =====
-- src/cats_py/execution/protection.py: the plan of a disaster stop after an entry is filled.
use nofx_cats_py.Prelude.{
  Bool, not, ◌&&◌, ◌||◌, Option, none, some, String, List, [], ◌∷◌, ◌==◌, string_eq, pair_eq,
  concat, lower, any, if◌then◌else◌,
}
use nofx_cats_py.Prelude.Int.{pos}
use nofx_cats_py.Result.{Result, ok, raise}
use nofx_cats_py.Dict.{lookup, values}
use nofx_cats_py.Num.{Number, Decimal, ◌+◌, ◌-◌, ◌*◌, ◌≤?◌, num, lit}
use nofx_cats_py.Json.{Spelling}
use nofx_cats_py.Domain.Enums.{Side, buy, sell, PositionDirection, long, short, flat, is_filled}
use nofx_cats_py.Domain.Orders.{OrderResponse, OrderState}
use nofx_cats_py.Domain.Positions.{PositionState, is_open, nonzero_or}
use nofx_cats_py.Domain.Account.{AccountState}
use nofx_cats_py.Execution.Router.{OrderRouter, Submission}
use nofx_cats_py.Execution.Guardian.Watch.{in_working_set, place_disaster_stop}

pub record ProtectionPlan (D : Type 0) : Type 0 where
  pub symbol : String
  pub position_side : String
  pub exit_side : Side
  pub trigger_price : D
  pub client_order_id : String

-- `_exit_side`
abbrev pub exit_side_of : PositionDirection → Side
exit_side_of short = buy
exit_side_of _ = sell

module _ {D : Type 0} where
  -- `_is_new_entry_fill`
  abbrev pub is_new_entry_fill : OrderState D → Bool
  is_new_entry_fill o =
      is_filled o.status && not o.reduce_only && not o.close_position && not o.is_algo

  -- `_has_existing_protection`, the orchestrator's own copy of the guardian's test
  unfoldable pub has_existing_protection : AccountState D → PositionState D → Bool
  has_existing_protection s p =
      any
        (λ o.
          o.symbol == p.symbol
          && o.position_side == p.position_side
          && o.is_algo
          && o.close_position
          && in_working_set o.status)
        (values s.orders)

module _ {D : Type 0} ⦃n : Number D⦄ where
  -- the branches of `_build_trigger_price` on the direction
  abbrev pub directed_trigger : PositionDirection → (reference distance : D) → D
  directed_trigger long reference distance = reference * (num 1 - distance)
  directed_trigger short reference distance = reference * (num 1 + distance)
  directed_trigger flat reference distance = num 0

  -- `_build_trigger_price`
  unfoldable pub build_trigger_price : PositionState D → D → D
  build_trigger_price p distance =
      let reference = nonzero_or p.entry_price p.mark_price in
      if reference ≤? num 0 then num 0 else directed_trigger p.direction reference distance

  -- `stop_distance_pct or self.default_stop_distance_pct`
  abbrev pub distance_or : Option D → D → D
  distance_or none default = default
  distance_or (some x) default = nonzero_or x default

  abbrev pub plan_for : PositionState D → (trigger : D) → ProtectionPlan D
  plan_for p trigger = record {
    symbol = p.symbol;
    position_side = p.position_side;
    exit_side = exit_side_of p.direction;
    trigger_price = trigger;
    client_order_id = concat ("guardian-stop-" ∷ lower p.symbol ∷ "-" ∷ lower p.position_side ∷ []);
  }

  unfoldable pub build_plan :
      (default_distance : D)
      → OrderState D
      → AccountState D
      → (stop_distance : Option D) → Option (ProtectionPlan D)
  build_plan default_distance filled s stop_distance =
      if not (is_new_entry_fill filled)
      then none
      else elim (lookup (filled.symbol, filled.position_side) s.positions) [
        | none ↦ none
        | some p ↦
            if not (is_open p) || has_existing_protection s p
            then none
            else (let trigger =
                  build_trigger_price p (distance_or stop_distance default_distance) in
                if trigger ≤? num 0 then none else some (plan_for p trigger))
      ]

  -- `ProtectionOrchestrator.default_stop_distance_pct`
  abbrev pub default_stop_distance_pct : D
  default_stop_distance_pct = lit (pos 2) 2

module _ {D F : Type 0} ⦃n : Number D⦄ ⦃q : Decimal D⦄ ⦃m : Number F⦄ ⦃s : Spelling F⦄ where
  unfoldable pub ensure_disaster_stop :
      Option (OrderRouter D F)
      → (default_distance : D) → OrderState D
      → AccountState D
      → (stop_distance : Option D) → List Submission × Result (Option OrderResponse)
  ensure_disaster_stop router default_distance filled s stop_distance =
      elim (build_plan default_distance filled s stop_distance) [
        | none ↦ ([], ok none)
        | some plan ↦
            let (sent, result) =
              place_disaster_stop router plan.symbol plan.exit_side plan.trigger_price
                plan.position_side (some plan.client_order_id) in
            (sent, elim result [ raise e ↦ raise e | ok response ↦ ok (some response) ])
      ]
