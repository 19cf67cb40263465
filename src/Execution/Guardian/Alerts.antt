-- ===== src/Execution/Guardian/Alerts.antt =====
-- What `find_unprotected_positions` finds, and what it leaves alone.
use nofx_cats_py.Prelude.{
  ◌≡◌, Bool, true, false, not, ◌&&◌, ◌||◌, List, [], ◌∷◌, map, select, any, arith, string_eq,
  pair_eq, none, some, ◌⊎◌, ◌≢◌, All, Eq,
}
use nofx_cats_py.Dict.{Dict, values, lookup}
use nofx_cats_py.Num.{Number}
use nofx_cats_py.Domain.Orders.{OrderState}
use nofx_cats_py.Domain.Positions.{PositionState, is_open}
use nofx_cats_py.Domain.Account.{AccountState, activate_kill_switch}
use nofx_cats_py.Execution.Guardian.Watch.{
  in_ended_set, has_active_protection, unprotected_alert, unprotected_reason, find_unprotected_from,
  find_unprotected_positions, handle_protection_order_update,
}

module _ {D : Type 0} ⦃n : Number D⦄ where
  -- An open position that no working protective order covers.
  abbrev pub is_exposed : AccountState D → PositionState D → Bool
  is_exposed s p = is_open p && not (has_active_protection s p)

  -- The two states differ in the kill switch and its reason at most.
  pub record SameBooks (s t : AccountState D) : Type 0 where
    pub same_balances : t.balances ≡ s.balances
    pub same_positions : t.positions ≡ s.positions
    pub same_orders : t.orders ≡ s.orders
    pub same_mismatches : t.state_mismatch_count ≡ s.state_mismatch_count
    pub same_failures : t.reconcile_failure_count ≡ s.reconcile_failure_count

  find_unprotected_from_lem :
      (ps : List (PositionState D)) (s : AccountState D)
      → let (alerts, t) = find_unprotected_from ps s in
        (alerts ≡ map unprotected_alert (select (is_exposed s) ps))
        × (t.kill_switch_active ≡ (s.kill_switch_active || any (is_exposed s) ps))
        × SameBooks s t
  unfolding find_unprotected_from activate_kill_switch has_active_protection
  find_unprotected_from_lem [] s = ground arith
  find_unprotected_from_lem (p ∷ ps) s = ground (
    arith,
    find_unprotected_from_lem ps s,
    find_unprotected_from_lem ps (activate_kill_switch (unprotected_reason p) s),
  )

  -- The alerts are those of the open positions that no working protective order covers, in the order
  -- of the positions; the kill switch is active afterwards exactly if it was or there is such a
  -- position; balances, positions, orders and counters stay as they were.
  pub find_unprotected_positions_lem :
      (s : AccountState D)
      → let (alerts, t) = find_unprotected_positions s in
        (alerts ≡ map unprotected_alert (select (is_exposed s) (values s.positions)))
        × (t.kill_switch_active ≡ (s.kill_switch_active || any (is_exposed s) (values s.positions)))
        × SameBooks s t
  unfolding find_unprotected_positions
  find_unprotected_positions_lem s = find_unprotected_from_lem (values s.positions) s

  -- The order's state is one in which a protective order has ended, and it covered what is still open.
  abbrev pub lost_protection : AccountState D → OrderState D → Bool
  lost_protection s o =
      o.is_algo
      && o.close_position
      && in_ended_set o.status
      && (elim (lookup (o.symbol, o.position_side) s.positions) [
        | none ↦ false
        | some p ↦ is_open p
      ])

  -- An update of an order raises an alert, and activates the kill switch, exactly if it is the end of a
  -- protective order whose position is open; otherwise the account is as it was.
  pub handle_protection_order_update_lem :
      (s : AccountState D) (o : OrderState D)
      → let (alert, t) = handle_protection_order_update s o in
        ((lost_protection s o ≡ true)
          × (alert ≢ none)
          × (t.kill_switch_active ≡ true)
          × SameBooks s t)
        ⊎ ((lost_protection s o ≡ false) × (alert ≡ none) × (t ≡ s))
  unfolding handle_protection_order_update activate_kill_switch
  handle_protection_order_update_lem s o = ground arith

pub any-of-lookup {ℓ κ} :
    {K : Type ℓ} {V : Type κ} ⦃e : Eq K⦄ (test : V → Bool) (k : K) (d : Dict K V) (v : V)
    → lookup k d ≡ some v
    → test v ≡ true
    → any test (values d) ≡ true
unfolding lookup
any-of-lookup test k [] v h t = cc
any-of-lookup test k ((j, w) ∷ d) v h t = ground (arith, any-of-lookup test k d v)

pub All-of-not-any {ℓ} :
    {A : Type ℓ} (test : A → Bool) (xs : List A)
    → any test xs ≡ false
    → All (λ x. test x ≡ false) xs
All-of-not-any test [] h = tt
All-of-not-any test (x ∷ xs) h = (ground arith, All-of-not-any test xs (ground arith))
