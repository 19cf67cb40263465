-- ===== src/Reconcile/Agreement.antt =====
-- `_is_mismatch` compares the two sides as collections, by what is compared of each entry.
use mathlib.Core.List.{Perm}
use nofx_cats_py.Prelude.{
  ◌≡◌, ◌↔◌, refl, true, false, String, Option, none, some, List, [], ◌∷◌, All, map, arith,
}
use nofx_cats_py.Result.{ok}
use nofx_cats_py.Num.{Number}
use nofx_cats_py.Domain.Enums.{lifecycle_value}
use nofx_cats_py.Domain.Orders.{OrderState, identity}
use nofx_cats_py.Domain.Positions.{BalanceState, PositionState}
use nofx_cats_py.Domain.Account.{AccountState}
use nofx_cats_py.Reconcile.Rows.{string_comparable, pair_comparable, sorted, same_list}
use nofx_cats_py.Reconcile.Sorted.{IsTotal, same_list-sorted, pair-IsTotal, string-IsTotal}
use nofx_cats_py.Reconcile.Mismatch.{
  BalanceRow, PositionRow, OrderRow, order_rows, numbers, optional_numbers, is_mismatch,
}

module _ {D : Type 0} ⦃n : Number D⦄ where
  -- What is compared of a balance, of a position and of an order, each under its key.
  abbrev pub compared_balance : String × BalanceState D → BalanceRow D
  compared_balance e =
      (e.0, (e.1.wallet_balance, (e.1.available_balance, e.1.cross_wallet_balance)))

  abbrev pub compared_position : (String × String) × PositionState D → PositionRow D
  compared_position e =
      let p = e.1 in
      (
        e.0.0,
        (e.0.1, (p.quantity, (p.entry_price, (p.mark_price, (p.notional, p.unrealized_pnl))))),
      )

  abbrev pub compared_order : String × OrderState D → OrderRow D
  compared_order e =
      let o = e.1 in
      (e.0, (lifecycle_value o.status, (o.executed_qty, (o.orig_qty, (o.price, o.avg_price)))))

  -- The orders with their identifiers.
  abbrev pub AreNamed : List (String × OrderState D) → Type 0
  AreNamed orders = All (λ (id, o). identity o ≡ ok id) orders

  -- The same balances, positions and orders, in any order, as far as they are compared.
  abbrev pub Agrees :
      AccountState D
      → List (BalanceState D)
      → List (PositionState D)
      → List (String × OrderState D)
      → Type 0
  Agrees s balances positions orders =
      Perm (map compared_balance s.balances) (map (λ b. compared_balance (b.asset, b)) balances)
      × Perm (map compared_position s.positions)
          (map (λ p. compared_position ((p.symbol, p.position_side), p)) positions)
      × Perm (map compared_order s.orders) (map compared_order orders)

  order_rows-eq-ok :
      (orders : List (String × OrderState D))
      → AreNamed orders
      → order_rows (map (λ e. e.1) orders) ≡ ok (map compared_order orders)
  unfolding order_rows
  order_rows-eq-ok [] named = refl
  order_rows-eq-ok ((id, o) ∷ orders) (here, rest) = rw (here, order_rows-eq-ok orders rest) refl

  option_same_iff :
      (order : IsTotal D) (x y : Option D) → (optional_numbers.same x y ≡ true) ↔ (x ≡ y)
  option_same_iff order none none = ground arith
  option_same_iff order none (some b) = ground arith
  option_same_iff order (some a) none = ground arith
  option_same_iff order (some a) (some b) = ground (arith, order.same_iff a b)

  option_irrefl : (order : IsTotal D) (x : Option D) → optional_numbers.before x x ≡ false
  option_irrefl order none = ground arith
  option_irrefl order (some a) = order.irrefl a

  option_trans :
      (order : IsTotal D) (x y z : Option D)
      → optional_numbers.before x y ≡ true
      → optional_numbers.before y z ≡ true
      → optional_numbers.before x z ≡ true
  option_trans order none y none lower upper = ground arith
  option_trans order x none z lower upper = ground arith
  option_trans order none (some b) (some d) lower upper = ground arith
  option_trans order (some a) (some b) none lower upper = ground arith
  option_trans order (some a) (some b) (some d) lower upper = order.trans a b d lower upper

  option_total :
      (order : IsTotal D) (x y : Option D)
      → optional_numbers.before x y ≡ false
      → optional_numbers.before y x ≡ false
      → x ≡ y
  option_total order none none low high = ground arith
  option_total order none (some b) low high = ground arith
  option_total order (some a) none low high = ground arith
  option_total order (some a) (some b) low high = ground (arith, order.total a b)

  option-IsTotal : IsTotal D → IsTotal (Option D)
  option-IsTotal order = record {
    same_iff = option_same_iff order;
    irrefl = option_irrefl order;
    trans = option_trans order;
    total = option_total order;
  }

  -- The rows of both sides agree.
  abbrev SameRows :
      AccountState D → List (BalanceState D) → List (PositionState D) → List (OrderRow D) → Type 0
  SameRows s balances positions rows =
      (same_list (sorted (map compared_balance s.balances))
          (sorted (map (λ b. compared_balance (b.asset, b)) balances))
        ≡ true)
      × (same_list (sorted (map compared_position s.positions))
            (sorted (map (λ p. compared_position ((p.symbol, p.position_side), p)) positions))
          ≡ true)
      × (same_list (sorted (map compared_order s.orders)) (sorted rows) ≡ true)

  is_mismatch-SameRows :
      (balances : List (BalanceState D)) (positions : List (PositionState D))
      (orders : List (OrderState D)) (s : AccountState D) (rows : List (OrderRow D))
      → order_rows orders ≡ ok rows
      → (is_mismatch balances positions orders s ≡ ok false) ↔ SameRows s balances positions rows
  unfolding is_mismatch
  is_mismatch-SameRows balances positions orders s rows keyed = ground arith

  -- For numbers whose comparison is a strict total order with equality as its test, and orders that all
  -- have an identifier, there is no mismatch exactly if the account's balances, positions and orders
  -- are those of the venue in some order, as far as they are compared: the three balances of an asset;
  -- quantity, entry price, mark price, notional and unrealized pnl of a position; status, executed and
  -- original quantity, price and average price of an order.
  pub is_mismatch-Agrees :
      (order : IsTotal D) (balances : List (BalanceState D)) (positions : List (PositionState D))
      (orders : List (String × OrderState D)) (s : AccountState D)
      → AreNamed orders
      → (is_mismatch balances positions (map (λ e. e.1) orders) s ≡ ok false)
        ↔ Agrees s balances positions orders
  is_mismatch-Agrees order balances positions orders s named =
      let tests =
        is_mismatch-SameRows balances positions (map (λ e. e.1) orders) s
          (map compared_order orders) (order_rows-eq-ok orders named) in
      let optional = option-IsTotal order in
      let b_order = pair-IsTotal string-IsTotal (pair-IsTotal order (pair-IsTotal order order)) in
      let p_order = pair-IsTotal string-IsTotal (
        pair-IsTotal string-IsTotal (
          pair-IsTotal order
            (pair-IsTotal order (pair-IsTotal order (pair-IsTotal order order))))) in
      let o_order = pair-IsTotal string-IsTotal (
        pair-IsTotal string-IsTotal
          (pair-IsTotal order (pair-IsTotal optional (pair-IsTotal optional optional)))) in
      let same_b =
        same_list-sorted b_order (map compared_balance s.balances)
          (map (λ b. compared_balance (b.asset, b)) balances) in
      let same_p =
        same_list-sorted p_order (map compared_position s.positions)
          (map (λ p. compared_position ((p.symbol, p.position_side), p)) positions) in
      let same_o =
        same_list-sorted o_order (map compared_order s.orders) (map compared_order orders) in
      (
        λ none_found. let (b, p, o) = tests.0 none_found in (same_b.0 b, same_p.0 p, same_o.0 o),
        λ (b, p, o). tests.1 (same_b.1 b, same_p.1 p, same_o.1 o),
      )
