-- ===== src/Execution/Service.antt =====
-- src/cats_py/execution/service.py: one cycle of `ExecutionService.handle_order_update`, statement by
-- statement, on the guardian's and the account's state.
use nofx_cats_py.Prelude.{
  Bool, false, ◌&&◌, Option, none, some, String, List, [], ◌∷◌, ◌++◌, ◌==◌, string_eq, any,
  if◌then◌else◌,
}
use nofx_cats_py.Result.{Result, ok, raise}
use nofx_cats_py.Dict.{values}
use nofx_cats_py.Num.{Number, Decimal}
use nofx_cats_py.Json.{Spelling}
use nofx_cats_py.Domain.Orders.{OrderResponse, OrderState}
use nofx_cats_py.Domain.Positions.{is_open}
use nofx_cats_py.Domain.Account.{AccountState}
use nofx_cats_py.Execution.Router.{OrderRouter, Submission}
use nofx_cats_py.Execution.Guardian.Heartbeat.{Guardian, start_auto_cancel, stop_auto_cancel}
use nofx_cats_py.Execution.Guardian.Watch.{
  ProtectionAlert, handle_protection_order_update, find_unprotected_positions,
}
use nofx_cats_py.Execution.Protection.{ensure_disaster_stop}

pub record ExecutionCycleResult : Type 0 where
  pub placed_protection : Option OrderResponse
  pub protection_alerts : List ProtectionAlert
  pub heartbeat_started : List String
  pub heartbeat_stopped : List String

-- What one call leaves behind.
pub record Cycle (D : Type 0) : Type 0 where
  pub guardian : Guardian
  pub account : AccountState D
  pub sent : List Submission
  pub result : Result ExecutionCycleResult

abbrev pub alert_list : Option ProtectionAlert → List ProtectionAlert
alert_list none = []
alert_list (some a) = a ∷ []

abbrev pub only_if : Bool → String → List String
only_if c s = if c then s ∷ [] else []

-- lines 39-42
abbrev pub start_if_placed : Option OrderResponse → Guardian → String → Guardian × Bool
start_if_placed none g symbol = (g, false)
start_if_placed (some response) g symbol = start_auto_cancel g symbol

module _ {D : Type 0} ⦃n : Number D⦄ where
  -- `_has_open_symbol_position`
  unfoldable pub has_open_symbol_position : AccountState D → String → Bool
  has_open_symbol_position s symbol =
      any (λ p. p.symbol == symbol && is_open p) (values s.positions)

  -- lines 50-53
  abbrev pub stop_if_flat : AccountState D → Guardian → String → Guardian × Bool
  stop_if_flat s g symbol =
      if has_open_symbol_position s symbol then (g, false) else stop_auto_cancel g symbol

  -- The statements after the protective order (lines 39-55).
  unfoldable pub watch :
      Guardian → AccountState D → OrderState D → List Submission → Option OrderResponse → Cycle D
  watch g s order sent placed =
      let (g₁, started) = start_if_placed placed g order.symbol in
      let (alert, s₁) = handle_protection_order_update s order in
      let (alerts, s₂) = find_unprotected_positions s₁ in
      let (g₂, stopped) = stop_if_flat s₂ g₁ order.symbol in
      record {
        guardian = g₂;
        account = s₂;
        sent = sent;
        result = ok (record {
          placed_protection = placed;
          protection_alerts = alert_list alert ++ alerts;
          heartbeat_started = only_if started order.symbol;
          heartbeat_stopped = only_if stopped order.symbol;
        });
      }

  -- An exception of `ensure_disaster_stop` leaves the call; else the statements after it follow.
  unfoldable pub resume :
      Guardian
      → AccountState D
      → OrderState D
      → List Submission × Result (Option OrderResponse)
      → Cycle D
  resume g s order (sent, raise e) = record {
    guardian = g;
    account = s;
    sent = sent;
    result = raise e;
  }
  resume g s order (sent, ok placed) = watch g s order sent placed

module _ {D F : Type 0} ⦃n : Number D⦄ ⦃q : Decimal D⦄ ⦃m : Number F⦄ ⦃s : Spelling F⦄ where
  unfoldable pub handle_order_update :
      Option (OrderRouter D F)
      → (default_distance : D) → Guardian
      → AccountState D
      → OrderState D
      → Cycle D
  handle_order_update router default_distance g s order = resume g s order (
      if order.is_algo
      then ([], ok none)
      else ensure_disaster_stop router default_distance order s none)
