-- ===== src/Reconcile/Outcome.antt =====
-- How a reconciliation ends, and what it does to protective orders.
use Prim.Native.Nat.{◌+◌}
use nofx_cats_py.Prelude.{
  ◌≡◌, ◌∙◌, refl, ap, ℕ, Bool, true, false, not, ◌&&◌, ◌||◌, none, String, List, [], inl, inr, leb,
  string_eq, pair_eq, arith, subst, if◌then◌else◌,
}
use nofx_cats_py.Result.{Exception, Result, ok, raise, Result-cases}
use nofx_cats_py.Dict.{Dict, insert_all}
use nofx_cats_py.Num.{Number}
use nofx_cats_py.Json.{Spelling}
use nofx_cats_py.Domain.Orders.{OrderState}
use nofx_cats_py.Domain.Account.{
  AccountState, record_state_mismatch, clear_state_mismatch, record_reconcile_failure,
  activate_kill_switch, clear_reconcile_failure, replace_balances, replace_positions,
  replace_orders, by_identity, mark_reconciled, empty_account,
}
use nofx_cats_py.User.Values.{Parsing, IntParsing, Timing}
use nofx_cats_py.User.Events.{Outcome}
use nofx_cats_py.Reconcile.Reconciler.{
  Answers, Clocks, Venue, read_venue, diverged, counted, adopt, caught, reconcile,
}

module _ {D : Type 0} ⦃d : Number D⦄ where
  adopt-ok :
      (now : ℕ) (venue : Venue D) (s : AccountState D) {s' : AccountState D}
      → adopt now venue s ≡ (s', ok tt)
      → (mismatch : Bool) × (t : AccountState D) × (diverged venue s ≡ ok mismatch)
        × (replace_orders venue.orders (
              replace_positions venue.positions
                (replace_balances venue.balances (counted mismatch s)))
            ≡ ok t)
        × (clear_reconcile_failure (mark_reconciled none now t) ≡ s')
  unfolding adopt
  adopt-ok now venue s h = elim (Result-cases (diverged venue s)) [
    | inr (e, failed) ↦ absurd (ground arith)
    | inl (mismatch, found) ↦
        elim (Result-cases (
          replace_orders venue.orders (
            replace_positions venue.positions
              (replace_balances venue.balances (counted mismatch s))))) [
                | inr (e, failed) ↦ absurd (ground arith)
                | inl (t, placed) ↦ (mismatch, t, found, placed, ground arith)
              ]
  ]

  pub replace_orders-eq-ok :
      (os : List (OrderState D)) (s : AccountState D) {t : AccountState D}
      → replace_orders os s ≡ ok t
      → (pairs : Dict String (OrderState D)) × (by_identity os ≡ ok pairs)
        × (record s { orders = insert_all pairs [] } ≡ t)
  unfolding replace_orders
  replace_orders-eq-ok os s h = elim (Result-cases (by_identity os)) [
    | inr (e, failed) ↦ absurd (ground arith)
    | inl (pairs, keyed) ↦ (pairs, keyed, ground arith)
  ]

  -- The account that a venue's lists make, whatever account they are put into.
  abbrev pub IsRebuilt : Venue D → AccountState D → Type 0
  IsRebuilt venue s' =
      (s'.balances ≡ (replace_balances venue.balances empty_account).balances)
      × (s'.positions ≡ (replace_positions venue.positions empty_account).positions)
      × ((t : AccountState D) × (replace_orders venue.orders empty_account ≡ ok t)
          × (s'.orders ≡ t.orders))

  -- The counters and the kill switch after a reconciliation that did, or did not, find a mismatch.
  abbrev pub HasCounted : (mismatch : Bool) → AccountState D → AccountState D → Type 0
  HasCounted mismatch s s' =
      (s'.reconcile_failure_count ≡ 0)
      × (s'.state_mismatch_count ≡ (if mismatch then s.state_mismatch_count + 1 else 0))
      × (s'.kill_switch_active
          ≡ (s.kill_switch_active || (mismatch && leb 2 (s.state_mismatch_count + 1))))

  counted-HasCounted :
      (mismatch : Bool) (now : ℕ) (venue : Venue D) (pairs : Dict String (OrderState D))
      (s : AccountState D)
      → HasCounted mismatch s (
          clear_reconcile_failure (
            mark_reconciled none now
              (record (replace_positions venue.positions
                (replace_balances venue.balances (counted mismatch s))) {
                  orders = insert_all pairs [];
                })))
  unfolding clear_reconcile_failure mark_reconciled replace_positions replace_balances
      record_state_mismatch clear_state_mismatch activate_kill_switch
  counted-HasCounted true now venue pairs s = (refl, ground arith, ground arith)
  counted-HasCounted false now venue pairs s = (refl, refl, ground arith)

  adopt_lem :
      (now : ℕ) (venue : Venue D) (s : AccountState D) {s' : AccountState D}
      → adopt now venue s ≡ (s', ok tt)
      → (mismatch : Bool) × (diverged venue s ≡ ok mismatch)
        × IsRebuilt venue s'
        × HasCounted mismatch s s'
  unfolding clear_reconcile_failure mark_reconciled replace_positions replace_balances
      replace_orders record_state_mismatch clear_state_mismatch activate_kill_switch
  adopt_lem now venue s {s'} h =
      let (mismatch, t, found, placed, same) = adopt-ok now venue s h in
      let (pairs, keyed, made) =
        replace_orders-eq-ok venue.orders
          (replace_positions venue.positions (replace_balances venue.balances (counted mismatch s)))
          placed in
      let whole = ap (λ t. clear_reconcile_failure (mark_reconciled none now t)) made ∙ same in
      let rebuilt : AccountState D = record empty_account { orders = insert_all pairs [] } in
      let again : replace_orders venue.orders empty_account ≡ ok rebuilt =
        rw (keyed, replace_orders) refl in
      (
        mismatch,
        found,
        subst (IsRebuilt venue) whole (refl, refl, (rebuilt, again, refl)),
        subst (HasCounted mismatch s) whole (counted-HasCounted mismatch now venue pairs s),
      )

module _ {D F : Type 0} ⦃n : Number F⦄ ⦃d : Number D⦄ ⦃s : Spelling F⦄ ⦃p : Parsing D⦄
    ⦃i : IntParsing⦄ ⦃t : Timing F⦄ (text_of : Exception → String) (clocks : Clocks)
    (answers : Answers F) (account : AccountState D) where
  caught-ok :
      (o : Outcome D) {s' : AccountState D} → caught text_of o ≡ (s', ok tt) → o ≡ (s', ok tt)
  caught-ok (s, ok done) h = h
  caught-ok (s, raise e) h = absurd (ground arith)

  reconcile-adopt :
      {s' : AccountState D}
      → reconcile text_of clocks answers account ≡ (s', ok tt)
      → (venue : Venue D) × (read_venue clocks answers ≡ ok venue)
        × (adopt clocks.marked_at venue account ≡ (s', ok tt))
  unfolding reconcile
  reconcile-adopt h =
      let reading : Result (Venue D) = read_venue clocks answers in
      elim (Result-cases reading) [
        | inr (e, failed) ↦ absurd (ground arith)
        | inl (venue, read) ↦
            (venue, read, caught-ok (adopt clocks.marked_at venue account) (ground arith))
      ]

  -- A reconciliation that succeeds rebuilds balances, positions and orders from the venue's answers
  -- alone, clears the count of failures, counts a mismatch with what was tracked before or clears that
  -- count, and activates the kill switch exactly at the second mismatch in a row or later.
  pub reconcile-IsRebuilt :
      {s' : AccountState D}
      → reconcile text_of clocks answers account ≡ (s', ok tt)
      → (venue : Venue D) × (mismatch : Bool) × (read_venue clocks answers ≡ ok venue)
        × (diverged venue account ≡ ok mismatch)
        × IsRebuilt venue s'
        × HasCounted mismatch account s'
  reconcile-IsRebuilt h =
      let (venue, read, adopted) = reconcile-adopt h in
      let (mismatch, found, rebuilt, counts) = adopt_lem clocks.marked_at venue account adopted in
      (venue, mismatch, read, found, rebuilt, counts)

  -- One that raises leaves the orders as they were and adds to the count of failures, and the kill
  -- switch is active from the second failure in a row on.
  pub reconcile-raise :
      {s' : AccountState D} {e : Exception}
      → reconcile text_of clocks answers account ≡ (s', raise e)
      → (s'.orders ≡ account.orders)
        × (s'.reconcile_failure_count ≡ account.reconcile_failure_count + 1)
        × ((leb 2 (account.reconcile_failure_count + 1) && not s'.kill_switch_active) ≡ false)
  unfolding reconcile adopt record_reconcile_failure activate_kill_switch replace_balances
      replace_positions record_state_mismatch clear_state_mismatch
  reconcile-raise h = ground arith
