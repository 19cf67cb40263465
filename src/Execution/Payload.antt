-- ===== src/Execution/Payload.antt =====
-- What the venue reads in the payload of an order.
use mathlib.Core.Option
use nofx_cats_py.Prelude.{
  ◌≡◌, refl, Bool, true, false, String, arith, string_eq, ◌==◌, if◌then◌else◌, Option, none, some,
}
use nofx_cats_py.Dict.{lookup, lookup-insert}
use nofx_cats_py.Domain.Enums.{side_value, order_type_value}
use nofx_cats_py.Domain.Orders.{OrderRequest, present}
use nofx_cats_py.Execution.Validator.{is_algo_type}
use nofx_cats_py.Execution.Router.{Payload, put_if, put_some, to_payload}

-- `o` if it is there, else `rest`.
abbrev pub first : Option String → Option String → Option String
first none rest = rest
first (some s) rest = some s

abbrev pub flag : Bool → String → Option String
flag c s = if c then some s else none

-- The key `j` is found where it is written, and else where it was.
lookup-put_some :
    {A : Type 0} (o : Option A) (f : A → String) (k j : String) (p : Payload)
    → lookup j (put_some o f k p)
      ≡ (if k == j then first (Option.map f o) (lookup j p) else lookup j p)
lookup-put_some none f k j p = ground arith
lookup-put_some (some a) f k j p = ground (arith, lookup-insert k j (f a) p)

lookup-put_if :
    (c : Bool) (k s j : String) (p : Payload)
    → lookup j (put_if c k s p) ≡ (if k == j then first (flag c s) (lookup j p) else lookup j p)
lookup-put_if true k s j p = ground (arith, lookup-insert k j s p)
lookup-put_if false k s j p = ground arith

client_id_key-beq :
    (c : Bool) (j : String)
    → ((if c then "clientAlgoId" else "newClientOrderId") == j)
      ≡ (if c then "clientAlgoId" == j else "newClientOrderId" == j)
client_id_key-beq true j = refl
client_id_key-beq false j = refl

ruleset payload_laws = (lookup-put_some, lookup-put_if, client_id_key-beq)

module _ {D : Type 0} (show : D → String) (r : OrderRequest D) where
  abbrev sent : Payload
  sent = to_payload show r

  -- Every field that the venue reads is found in the payload under its key: the flags only when they
  -- are set, the numbers in their printed form when they are there, and nothing else under those keys.
  lookup-to_payload :
      (lookup "symbol" sent ≡ some r.symbol)
      × (lookup "side" sent ≡ some (side_value r.side))
      × (lookup "type" sent ≡ some (order_type_value r.order_type))
      × (lookup "positionSide" sent ≡ some r.position_side)
      × (lookup "quantity" sent ≡ Option.map show r.quantity)
      × (lookup "price" sent ≡ Option.map show r.price)
      × (lookup "triggerPrice" sent ≡ Option.map show r.trigger_price)
      × (lookup "reduceOnly" sent ≡ flag r.reduce_only "true")
      × (lookup "closePosition" sent ≡ flag r.close_position "true")
  unfolding to_payload lookup
  lookup-to_payload = (
    simp payload_laws (ground arith),
    simp payload_laws (ground arith),
    simp payload_laws (ground arith),
    simp payload_laws (ground arith),
    simp payload_laws (ground arith),
    simp payload_laws (ground arith),
    simp payload_laws (ground arith),
    simp payload_laws (ground arith),
    simp payload_laws (ground arith),
  )

  -- The client's id goes under `clientAlgoId` for an algo order and under `newClientOrderId` for any
  -- other, and never under both.
  pub lookup-client_id :
      (lookup "clientAlgoId" sent
        ≡ (if is_algo_type r.order_type then present r.client_order_id else none))
      × (lookup "newClientOrderId" sent
          ≡ (if is_algo_type r.order_type then none else present r.client_order_id))
  unfolding to_payload lookup
  lookup-client_id = (simp payload_laws (ground arith), simp payload_laws (ground arith))
