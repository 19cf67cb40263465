-- ===== src/Reconcile/Mismatch.antt =====
-- `_has_existing_state` and `_is_mismatch`: the account compared with the venue's, in rows that do not
-- depend on the order.
use nofx_cats_py.Prelude.{
  Bool, true, false, not, ◌||◌, Option, none, some, String, List, [], ◌∷◌, map, string_eq, pair_eq,
  if◌then◌else◌,
}
use nofx_cats_py.Result.{Result, ok}
use nofx_cats_py.Raise.{◌>>=◌}
use nofx_cats_py.Num.{Number}
use nofx_cats_py.Domain.Enums.{lifecycle_value}
use nofx_cats_py.Domain.Orders.{OrderState, identity}
use nofx_cats_py.Domain.Positions.{BalanceState, PositionState}
use nofx_cats_py.Domain.Account.{AccountState}
use nofx_cats_py.Reconcile.Rows.{
  Comparable, string_comparable, pair_comparable, number_comparable, differ,
}

abbrev pub is_empty {ℓ} : {A : Type ℓ} → List A → Bool
is_empty [] = true
is_empty (x ∷ xs) = false

abbrev pub BalanceRow : Type 0 → Type 0
BalanceRow D = String × (D × (D × D))

abbrev pub PositionRow : Type 0 → Type 0
PositionRow D = String × (String × (D × (D × (D × (D × D)))))

abbrev pub OrderRow : Type 0 → Type 0
OrderRow D = String × (String × (D × (Option D × (Option D × Option D))))

-- A missing number before all others; Python cannot order it, but no comparison of two rows comes to
-- it, since the keys of a dict differ and a parsed order has all its numbers.
abbrev pub option_comparable : {D : Type 0} → Comparable D → Comparable (Option D)
option_comparable c = record {
  before = λ x y. elim x [
    | none ↦ elim y [ none ↦ false | some b ↦ true ]
    | some a ↦ elim y [ none ↦ false | some b ↦ c.before a b ]
  ];
  same = λ x y. elim x [
    | none ↦ elim y [ none ↦ true | some b ↦ false ]
    | some a ↦ elim y [ none ↦ false | some b ↦ c.same a b ]
  ];
}

module _ {D : Type 0} where
  abbrev pub balance_row : String → BalanceState D → BalanceRow D
  balance_row asset b = (asset, (b.wallet_balance, (b.available_balance, b.cross_wallet_balance)))

  abbrev pub position_row : String × String → PositionState D → PositionRow D
  position_row key p = (
    key.0,
    (key.1, (p.quantity, (p.entry_price, (p.mark_price, (p.notional, p.unrealized_pnl))))),
  )

  abbrev pub order_row : String → OrderState D → OrderRow D
  order_row key o =
      (key, (lifecycle_value o.status, (o.executed_qty, (o.orig_qty, (o.price, o.avg_price)))))

  -- The rows of the parsed orders; an order without an identifier raises.
  unfoldable pub order_rows : List (OrderState D) → Result (List (OrderRow D))
  order_rows [] = ok []
  order_rows (o ∷ os) = do key ← identity o; rows ← order_rows os; ok (order_row key o ∷ rows)

  unfoldable pub has_existing_state : AccountState D → Bool
  has_existing_state s =
      not (is_empty s.balances) || (not (is_empty s.positions) || not (is_empty s.orders))

module _ {D : Type 0} ⦃n : Number D⦄ where
  instance abbrev pub numbers : Comparable D
  numbers = number_comparable

  instance abbrev pub optional_numbers : Comparable (Option D)
  optional_numbers = option_comparable number_comparable

  unfoldable pub is_mismatch :
      List (BalanceState D)
      → List (PositionState D)
      → List (OrderState D)
      → AccountState D
      → Result Bool
  unfolding order_rows
  is_mismatch balances positions orders s =
      if differ (map (λ (asset, b). balance_row asset b) s.balances)
        (map (λ b. balance_row b.asset b) balances)
      then ok true
      else if differ (map (λ (key, p). position_row key p) s.positions)
          (map (λ p. position_row (p.symbol, p.position_side) p) positions)
      then ok true
      else do
        rows ← order_rows orders
        ok (differ (map (λ (key, o). order_row key o) s.orders) rows)
