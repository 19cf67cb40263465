-- ===== src/Reconcile/Reconciler.antt =====
-- `AccountReconciler.reconcile`, and `UserStreamRecoveryCoordinator`, which calls it. The venue's answers,
-- the text of an exception and the clock's readings are arguments; the log is left out.
use nofx_cats_py.Prelude.{ℕ, Bool, false, none, some, String, List, [], if◌then◌else◌}
use nofx_cats_py.Result.{Exception, Result, ok, raise}
use nofx_cats_py.Raise.{◌>>=◌}
use nofx_cats_py.Num.{Number}
use nofx_cats_py.Json.{Json, Spelling, unwrapped}
use nofx_cats_py.Domain.Orders.{OrderState}
use nofx_cats_py.Domain.Positions.{BalanceState, PositionState}
use nofx_cats_py.Domain.Account.{
  AccountState, record_state_mismatch, clear_state_mismatch, record_reconcile_failure,
  clear_reconcile_failure, replace_balances, replace_positions, replace_orders, mark_reconciled,
}
use nofx_cats_py.User.Values.{Parsing, IntParsing, Timing}
use nofx_cats_py.User.Events.{Outcome}
use nofx_cats_py.Reconcile.Parse.{
  items_of, listed, risk_map_of, parse_balances, parse_positions, parse_orders,
}
use nofx_cats_py.Reconcile.Mismatch.{has_existing_state, is_mismatch}

-- The venue's answers to the three requests.
pub record Answers (F : Type 0) : Type 0 where
  pub account_info : Result (Json F)
  pub position_risk : Result (Json F)
  pub open_orders : Result (Json F)

-- The clock, as it is read for each of the three lists and at the end.
pub record Clocks : Type 0 where
  pub balances_at : ℕ
  pub positions_at : ℕ
  pub orders_at : ℕ
  pub marked_at : ℕ

-- The three lists that the answers hold.
pub record Venue (D : Type 0) : Type 0 where
  pub balances : List (BalanceState D)
  pub positions : List (PositionState D)
  pub orders : List (OrderState D)

abbrev pub mismatch_reason : String
mismatch_reason = "incremental state diverged from reconciliation snapshot"

module _ {D F : Type 0} ⦃n : Number F⦄ ⦃d : Number D⦄ ⦃s : Spelling F⦄ ⦃p : Parsing D⦄
    ⦃i : IntParsing⦄ ⦃t : Timing F⦄ where
  -- The requests and the parsing, which do not touch the account.
  unfoldable pub read_venue : Clocks → Answers F → Result (Venue D)
  unfolding listed risk_map_of parse_balances parse_positions parse_orders
  read_venue clocks answers = do
    info ← answers.account_info
    risk ← answers.position_risk
    open_orders ← answers.open_orders
    assets ← listed "assets" info
    balances ← parse_balances clocks.balances_at assets
    rows ← listed "positions" info
    positions ←
        parse_positions clocks.positions_at (risk_map_of (items_of (some (unwrapped risk))) []) rows
    orders ← parse_orders clocks.orders_at (items_of (some (unwrapped open_orders)))
    ok (record { balances = balances; positions = positions; orders = orders })

module _ {D : Type 0} ⦃d : Number D⦄ where
  -- `self._has_existing_state() and self._is_mismatch(…)`
  unfoldable pub diverged : Venue D → AccountState D → Result Bool
  unfolding has_existing_state is_mismatch
  diverged venue s =
      if has_existing_state s
      then is_mismatch venue.balances venue.positions venue.orders s
      else ok false

  -- The counter of mismatches, with the default threshold.
  abbrev pub counted : Bool → AccountState D → AccountState D
  counted mismatch s =
      if mismatch then record_state_mismatch mismatch_reason 2 s else clear_state_mismatch s

  -- What follows the requests: what was changed before an exception stays changed.
  unfoldable pub adopt : (now : ℕ) → Venue D → AccountState D → Outcome D
  unfolding diverged
  adopt now venue s = elim (diverged venue s) [
    | raise e ↦ (s, raise e)
    | ok mismatch ↦
        let placed =
          replace_positions venue.positions
            (replace_balances venue.balances (counted mismatch s)) in
        elim (replace_orders venue.orders placed) [
          | raise e ↦ (placed, raise e)
          | ok s' ↦ (clear_reconcile_failure (mark_reconciled none now s'), ok tt)
        ]
  ]

  -- The `except` block, which raises the exception again.
  abbrev pub caught : (text_of : Exception → String) → Outcome D → Outcome D
  caught text_of (s, ok done) = (s, ok done)
  caught text_of (s, raise e) = (record_reconcile_failure (text_of e) 2 s, raise e)

module _ {D F : Type 0} ⦃n : Number F⦄ ⦃d : Number D⦄ ⦃s : Spelling F⦄ ⦃p : Parsing D⦄
    ⦃i : IntParsing⦄ ⦃t : Timing F⦄ where
  unfoldable pub reconcile :
      (text_of : Exception → String) → Clocks → Answers F → AccountState D → Outcome D
  unfolding read_venue adopt
  reconcile text_of clocks answers s = caught text_of (elim (read_venue clocks answers) [
    | raise e ↦ (s, raise e)
    | ok venue ↦ adopt clocks.marked_at venue s
  ])

  -- The account is rebuilt whenever the private stream connects; the other callback only logs.
  unfoldable pub on_private_stream_connect :
      (text_of : Exception → String) → Clocks → Answers F → AccountState D → Outcome D
  unfolding reconcile
  on_private_stream_connect text_of clocks answers s = reconcile text_of clocks answers s
