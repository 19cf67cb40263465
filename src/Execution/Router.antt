-- ===== src/Execution/Router.antt =====
-- src/cats_py/execution/order_router.py. The venue's answer to a request is a parameter; what is sent
-- to it is returned beside the result, so that a theorem can speak of it.
use nofx_cats_py.Prelude.{
  Bool, true, false, Option, none, some, String, List, [], ◌∷◌, string_eq, or_else, if◌then◌else◌,
}
use nofx_cats_py.Result.{Result, ok, raise}
use nofx_cats_py.Dict.{Dict, insert}
use nofx_cats_py.Num.{Number, Decimal}
use nofx_cats_py.Json.{Json, Spelling, get, unwrapped, is_object, or_json, str_or}
use nofx_cats_py.Domain.Enums.{
  Side, OrderType, stop_market, side_value, order_type_value, time_in_force_value,
}
use nofx_cats_py.Domain.Orders.{OrderRequest, OrderResponse, present}
use nofx_cats_py.Execution.Validator.{SymbolRule, is_algo_type, validate}

abbrev pub Payload : Type 0
Payload = Dict String String

pub data Route : Type 0 where
  normal algo : Route

-- What left for the venue: `new_order(payload)` or `new_algo_order(payload)`.
pub record Submission : Type 0 where
  pub route : Route
  pub payload : Payload

abbrev pub route_value : Route → String
route_value normal = "normal"
route_value algo = "algo"

-- The venue's answer to a submission, and `str` of a decimal.
pub record Venue (D F : Type 0) : Type 0 where
  pub answer : Submission → Result (Json F)
  pub decimal_text : D → String

abbrev pub put_if : Bool → String → String → Payload → Payload
put_if c k v p = if c then insert k v p else p

abbrev pub put_some : {A : Type 0} → Option A → (A → String) → String → Payload → Payload
put_some none f k p = p
put_some (some a) f k p = insert k (f a) p

-- The route that `place` takes for an order type.
abbrev pub route_of : OrderType → Route
route_of t = if is_algo_type t then algo else normal

abbrev pub client_id_key : OrderType → String
client_id_key t = if is_algo_type t then "clientAlgoId" else "newClientOrderId"

module _ {D : Type 0} where
  -- `OrderRouter.build_disaster_stop_request`, with the defaults of its last two parameters.
  unfoldable pub build_disaster_stop_request :
      (symbol : String)
      → Side
      → (trigger_price : D) → (position_side : String) → Option String
      → OrderRequest D
  build_disaster_stop_request symbol exit_side trigger_price position_side client_order_id =
      record {
        symbol = symbol;
        side = exit_side;
        order_type = stop_market;
        quantity = none;
        price = none;
        trigger_price = some trigger_price;
        time_in_force = none;
        reduce_only = false;
        close_position = true;
        position_side = position_side;
        client_order_id = client_order_id;
        working_type = some "MARK_PRICE";
        price_protect = false;
        self_trade_prevention_mode = none;
        new_order_resp_type = none;
        activate_price = none;
        callback_rate = none;
      }

  -- `_to_payload`: the keys in the order in which the source sets them, the last outermost.
  unfoldable pub to_payload : (D → String) → OrderRequest D → Payload
  to_payload show r =
      let p0 =
        ("symbol", r.symbol)
        ∷ ("side", side_value r.side)
        ∷ ("type", order_type_value r.order_type)
        ∷ ("positionSide", r.position_side)
        ∷ [] in
      let p1 = put_some r.quantity show "quantity" p0 in
      let p2 = put_some r.price show "price" p1 in
      let p3 = put_some r.trigger_price show "triggerPrice" p2 in
      let p4 = put_some r.time_in_force time_in_force_value "timeInForce" p3 in
      let p5 = put_if r.reduce_only "reduceOnly" "true" p4 in
      let p6 = put_if r.close_position "closePosition" "true" p5 in
      let p7 = put_some (present r.working_type) (λ s. s) "workingType" p6 in
      let p8 = put_if r.price_protect "priceProtect" "TRUE" p7 in
      let p9 =
        put_some (present r.self_trade_prevention_mode) (λ s. s) "selfTradePreventionMode" p8 in
      let p10 = put_some (present r.new_order_resp_type) (λ s. s) "newOrderRespType" p9 in
      let p11 = put_some r.activate_price show "activatePrice" p10 in
      let p12 = put_some r.callback_rate show "callbackRate" p11 in
      put_some (present r.client_order_id) (λ s. s) (client_id_key r.order_type) p12

module _ {F : Type 0} ⦃n : Number F⦄ ⦃s : Spelling F⦄ where
  -- `_extract_order_id`
  unfoldable pub extract_order_id : Json F → Option String
  extract_order_id raw =
      let body = unwrapped raw in
      if is_object body
      then str_or
          (or_json (get "orderId" body) (or_json (get "algoId" body) (get "algoOrderId" body))) none
      else none

  -- `_extract_status`
  unfoldable pub extract_status : Json F → String → String
  extract_status raw fallback =
      let body = unwrapped raw in
      if is_object body
      then or_else (str_or (or_json (get "status" body) (get "algoStatus" body)) none) fallback
      else fallback

module _ {D F : Type 0} ⦃n : Number D⦄ ⦃q : Decimal D⦄ ⦃m : Number F⦄ ⦃s : Spelling F⦄ where
  -- `OrderRouter.place`: what was sent, and the result.
  unfoldable pub place :
      Venue D F
      → Dict String (SymbolRule D F)
      → OrderRequest D
      → (mark_price : Option D) → List Submission × Result OrderResponse
  place venue rules request mark_price = elim (validate rules request mark_price) [
    | raise e ↦ ([], raise e)
    | ok r ↦
        let sent : Submission = record {
          route = route_of r.order_type;
          payload = to_payload venue.decimal_text r;
        } in
        (
          sent ∷ [],
          elim (venue.answer sent) [
            | raise e ↦ raise e
            | ok raw ↦ ok (record {
              venue_order_id = extract_order_id raw;
              route = route_value sent.route;
              status = extract_status raw "submitted";
            })
          ],
        )
  ]

-- `OrderRouter`: the venue, and the rules of its validator.
pub record OrderRouter (D F : Type 0) : Type 0 where
  pub venue : Venue D F
  pub symbol_rules : Dict String (SymbolRule D F)
