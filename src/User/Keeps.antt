-- ===== src/User/Keeps.antt =====
-- What every event of the user stream keeps, in whichever way it ends.
use mathlib.Core.Option.{some-injective}
use nofx_cats_py.Prelude.{
  ◌≡◌, refl, ℕ, Bool, true, false, Option, none, some, inl, inr, arith, string_eq, ◌==◌, subst,
  Bool-cases, Option-cases,
}
use nofx_cats_py.Result.{Result, ok, ok-injective, Result-cases}
use nofx_cats_py.Raise.{◌>>=◌, >>=-eq-ok}
use nofx_cats_py.Num.{Number}
use nofx_cats_py.Json.{Json, Items, Spelling, nil, cons, get, or_json}
use nofx_cats_py.Domain.Orders.{OrderState}
use nofx_cats_py.Domain.Positions.{BalanceState, PositionState}
use nofx_cats_py.Domain.Account.{
  AccountState, record_user_stream_event, upsert_balance, upsert_position, upsert_order,
}
use nofx_cats_py.Paper.State.{direction_for_quantity}
use nofx_cats_py.User.Values.{
  Parsing, IntParsing, Timing, as_text, iterated, first_of, to_datetime, to_decimal, leverage_of,
  parse_position_direction,
}
use nofx_cats_py.User.Events.{
  Outcome, dict_of, event_type, balance_of, position_of, order_of, apply_balances, apply_positions,
  apply_account_update, apply_order, apply_order_trade_update, apply_algo_update, apply,
}

-- The writes of an event keep `J`; a position that is written has the direction of its quantity.
pub record IsKept {D : Type 0} ⦃d : Number D⦄ (J : AccountState D → Type 0) : Type 0 where
  pub on_event :
      (at clock : ℕ) (s : AccountState D) → J s → J (record_user_stream_event (some at) clock s)
  pub on_balance : (b : BalanceState D) (s : AccountState D) → J s → J (upsert_balance b s)
  pub on_position :
      (v : PositionState D) (s : AccountState D)
      → v.direction ≡ direction_for_quantity v.quantity
      → J s
      → J (upsert_position v s)
  pub on_order : (o : OrderState D) (s s' : AccountState D) → upsert_order o s ≡ ok s' → J s → J s'

module _ {D F : Type 0} ⦃n : Number F⦄ ⦃d : Number D⦄ ⦃s : Spelling F⦄ ⦃p : Parsing D⦄
    ⦃i : IntParsing⦄ where
  position_of-direction :
      (at : ℕ) (item : Json F) {v : PositionState D}
      → position_of at item ≡ ok (some v)
      → v.direction ≡ direction_for_quantity v.quantity
  unfolding position_of parse_position_direction direction_for_quantity
  position_of-direction at item {v} h = elim (Option-cases (as_text (first_of "s" "symbol" item))) [
    | inl unnamed ↦ absurd (ground arith)
    | inr (symbol, named) ↦
        let read : Option (Json F) → Result D = to_decimal in
        let (quantity, e1, h1) =
          >>=-eq-ok (read (first_of "pa" "positionAmt" item)) _ (rw (named, position_of) at h) in
        let (entry, e2, h2) = >>=-eq-ok (read (first_of "ep" "entryPrice" item)) _ h1 in
        let (mark, e3, h3) = >>=-eq-ok (read (first_of "mp" "markPrice" item)) _ h2 in
        let (notional, e4, h4) = >>=-eq-ok (read (get "notional" item)) _ h3 in
        let (pnl, e5, h5) = >>=-eq-ok (read (first_of "up" "unRealizedProfit" item)) _ h4 in
        let (leverage, e6, h6) = >>=-eq-ok (leverage_of (first_of "l" "leverage" item)) _ h5 in
        let (isolated, e7, same) = >>=-eq-ok (read (first_of "iw" "isolatedWallet" item)) _ h6 in
        subst (λ (v : PositionState D). v.direction ≡ direction_for_quantity v.quantity)
          (some-injective _ _ (ok-injective same)) refl
  ]

  module _ (J : AccountState D → Type 0) (kept : IsKept J) where
    open kept use {on_event, on_balance, on_position, on_order}

    apply_balances-keeps :
        (at : ℕ) (items : Items F) (a : AccountState D) → J a → J (apply_balances at items a).0
    unfolding apply_balances
    apply_balances-keeps at nil a good = good
    apply_balances-keeps at (cons item rest) a good =
        let read : Result (Option (BalanceState D)) = balance_of at item in
        elim (Result-cases read) [
          | inr (e, failed) ↦ rw (failed, apply_balances) good
          | inl (found, done) ↦ elim (Option-cases found) [
            | inl nothing ↦ rw (done, nothing, apply_balances) (apply_balances-keeps at rest a good)
            | inr (b, here) ↦
                rw (done, here, apply_balances)
                  (apply_balances-keeps at rest (upsert_balance b a) (on_balance b a good))
          ]
        ]

    apply_positions-keeps :
        (at : ℕ) (items : Items F) (a : AccountState D) → J a → J (apply_positions at items a).0
    unfolding apply_positions
    apply_positions-keeps at nil a good = good
    apply_positions-keeps at (cons item rest) a good =
        let read : Result (Option (PositionState D)) = position_of at item in
        elim (Result-cases read) [
          | inr (e, failed) ↦ rw (failed, apply_positions) good
          | inl (found, done) ↦ elim (Option-cases found) [
            | inl nothing ↦
                rw (done, nothing, apply_positions) (apply_positions-keeps at rest a good)
            | inr (v, here) ↦
                let signed = position_of-direction at item (rw here at done) in
                rw (done, here, apply_positions)
                  (apply_positions-keeps at rest (upsert_position v a)
                    (on_position v a signed good))
          ]
        ]

    apply_account_update-keeps :
        (at : ℕ) (payload : Json F) (a : AccountState D)
        → J a
        → J (apply_account_update at payload a).0
    unfolding apply_account_update
    apply_account_update-keeps at payload a good =
        elim (Result-cases (dict_of (first_of "a" "account" payload))) [
          | inr (e, failed) ↦ rw (failed, apply_account_update) good
          | inl (body, e1) ↦ elim (Result-cases (iterated (first_of "B" "balances" body))) [
            | inr (e, failed) ↦ rw (e1, failed, apply_account_update) good
            | inl (balances, e2) ↦
                let held = apply_balances-keeps at balances a good in
                let outcome : Outcome D = apply_balances at balances a in
                elim (Result-cases outcome.1) [
                  | inr (e, failed) ↦ rw (e1, e2, failed, apply_account_update) held
                  | inl (done, e3) ↦
                      elim (Result-cases (iterated (first_of "P" "positions" body))) [
                        | inr (e, failed) ↦ rw (e1, e2, e3, failed, apply_account_update) held
                        | inl (positions, e4) ↦
                            rw (e1, e2, e3, e4, apply_account_update)
                              (apply_positions-keeps at positions outcome.0 held)
                      ]
                ]
          ]
        ]

    apply_order-keeps :
        (at : ℕ) (is_algo : Bool) (order : Option (Json F)) (a : AccountState D)
        → J a
        → J (apply_order at is_algo order a).0
    unfolding apply_order
    apply_order-keeps at is_algo none a good = good
    apply_order-keeps at is_algo (some o) a good =
        elim (Option-cases (as_text (first_of "s" "symbol" o))) [
          | inl unnamed ↦ rw (unnamed, apply_order) good
          | inr (symbol, named) ↦
              let written : Result (AccountState D) =
                order_of at symbol is_algo o >>= λ order. upsert_order order a in
              elim (Result-cases written) [
                | inr (e, failed) ↦ rw (named, failed, apply_order) good
                | inl (a', done) ↦
                    let (order, made, upserted) =
                      >>=-eq-ok (order_of at symbol is_algo o) (λ order. upsert_order order a)
                        done in
                    rw (named, done, apply_order) (on_order order a a' upserted good)
              ]
        ]

    pub apply-keeps :
        ⦃t : Timing F⦄ (clock : ℕ) (payload : Json F) (a : AccountState D)
        → J a
        → J (apply clock payload a).0
    unfolding apply apply_order_trade_update apply_algo_update
    apply-keeps clock payload a good =
        elim (Result-cases
          (to_datetime clock (or_json (get "E" payload) (first_of "eventTime" "T" payload)))) [
            | inr (e, failed) ↦ rw (failed, apply) good
            | inl (at, read) ↦
                let heard : AccountState D = record_user_stream_event (some at) clock a in
                let held = on_event at clock a good in
                let kind = event_type payload in
                elim (Bool-cases (kind == "ACCOUNT_UPDATE")) [
                  | inl account ↦
                      rw (read, account, apply) (apply_account_update-keeps at payload heard held)
                  | inr other ↦ elim (Bool-cases (kind == "ORDER_TRADE_UPDATE")) [
                    | inl trade ↦
                        rw (read, other, trade, apply)
                          (apply_order-keeps at false (first_of "o" "order" payload) heard held)
                    | inr rest ↦ elim (Bool-cases (kind == "ALGO_UPDATE")) [
                      | inl algo ↦
                          rw (read, other, rest, algo, apply)
                            (apply_order-keeps at true
                              (or_json (get "ao" payload) (first_of "o" "algoOrder" payload)) heard
                              held)
                      | inr unheard ↦ rw (read, other, rest, unheard, apply) held
                    ]
                  ]
                ]
          ]
