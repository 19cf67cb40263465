-- ===== src/Domain/Orders.antt =====
-- src/cats_py/domain/models.py: order requests, the venue's answers and tracked orders. The `raw`
-- payloads, which the modelled code never reads back, are left out.
use nofx_cats_py.Prelude.{
  ℕ, Bool, true, false, string_eq, Option, none, some, String, [], ◌∷◌, ◌==◌, concat, if◌then◌else◌,
}
use nofx_cats_py.Result.{Result, ok, raise, value_error}
use nofx_cats_py.Domain.Enums.{
  Side, OrderType, TimeInForce, OrderLifecycleStatus, new, partially_filled, triggered,
}

pub record OrderRequest (D : Type 0) : Type 0 where
  pub symbol : String
  pub side : Side
  pub order_type : OrderType
  pub quantity : Option D
  pub price : Option D
  pub trigger_price : Option D
  pub time_in_force : Option TimeInForce
  pub reduce_only : Bool
  pub close_position : Bool
  pub position_side : String
  pub client_order_id : Option String
  pub working_type : Option String
  pub price_protect : Bool
  pub self_trade_prevention_mode : Option String
  pub new_order_resp_type : Option String
  pub activate_price : Option D
  pub callback_rate : Option D

pub record OrderResponse : Type 0 where
  pub venue_order_id : Option String
  pub route : String
  pub status : String

pub record OrderState (D : Type 0) : Type 0 where
  pub symbol : String
  pub status : OrderLifecycleStatus
  pub side : Side
  pub position_side : String
  pub order_id : Option String
  pub client_order_id : Option String
  pub algo_order_id : Option String
  pub order_type : Option OrderType
  pub price : Option D
  pub avg_price : Option D
  pub orig_qty : Option D
  pub executed_qty : D
  pub reduce_only : Bool
  pub close_position : Bool
  pub is_algo : Bool
  pub created_at : ℕ
  pub updated_at : ℕ

-- A text that Python takes as true: it is there, and is not empty.
abbrev pub present : Option String → Option String
present none = none
present (some s) = if s == "" then none else some s

abbrev pub in_open_set : OrderLifecycleStatus → Bool
in_open_set new = true
in_open_set partially_filled = true
in_open_set triggered = true
in_open_set _ = false

module _ {D : Type 0} where
  -- `OrderState.identity`
  unfoldable pub identity : OrderState D → Result String
  identity o = elim (present o.algo_order_id) [
    | some i ↦ ok (concat ("algo:" ∷ i ∷ []))
    | none ↦ elim (present o.order_id) [
      | some i ↦ ok (concat ("order:" ∷ i ∷ []))
      | none ↦ elim (present o.client_order_id) [
        | some i ↦ ok (concat ("client:" ∷ i ∷ []))
        | none ↦ raise (value_error "order state requires at least one identifier")
      ]
    ]
  ]

  -- `OrderState.is_open`
  abbrev pub order_is_open : OrderState D → Bool
  order_is_open o = in_open_set o.status
